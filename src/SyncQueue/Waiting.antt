-- ===== src/SyncQueue/Waiting.antt =====
-- The two copies of the waiting rules, `_QUEUED_RULE_IDS` and `_QUEUED_RULE_ID_SET` (app/services/sync_queue.py).
use q_bittorrent_rss_rules.Prelude.{
  ℕ, ◌≡◌, refl, subst, ◌⊎◌, inl, inr, Bool, true, false, List, [], ◌∷◌, ◌++◌, arith, contains,
  text_eq, if◌then◌else◌, Nodup, Bool-cases,
}
use q_bittorrent_rss_rules.Prelude.Text.{Text, strip}
use q_bittorrent_rss_rules.Prelude.Unicode.{Unicode}
use q_bittorrent_rss_rules.SyncQueue.{
  Queue, RuleSyncOutcome, enqueue_rule_sync, enqueue_locked, start_rule_sync_queue, begin_stop,
  finish_stop, enter_worker_loop, worker_turn, finish_preparation, finalize, dispatch_head, initial,
}
use q_bittorrent_rss_rules.Prelude.Members.{discard}
use q_bittorrent_rss_rules.SyncQueue.Machine.{
  Step, enqueue, start, stop, joined, enter, turn, prepared, finish, Reach, Reach_induction,
}
use q_bittorrent_rss_rules.Prelude.Members.{contains-snoc, contains-discard, Nodup-snoc}

-- The set holds what the queue holds, and no rule waits twice.
pub record Distinct (ids set : List Text) : Type 0 where
  pub nodup : Nodup ids
  pub agrees : (a : Text) → contains set a ≡ contains ids a

abbrev pub IsDistinct : Queue → Type 0
IsDistinct q = Distinct q.queued_rule_ids q.queued_rule_id_set

Distinct-eq :
    {ids ids' set set' : List Text}
    → ids' ≡ ids
    → set' ≡ set
    → Distinct ids set
    → Distinct ids' set'
Distinct-eq p q d = rw (p, q) d

push-Distinct :
    (ids set : List Text) (id : Text)
    → contains ids id ≡ false
    → Distinct ids set
    → Distinct (ids ++ id ∷ []) (id ∷ set)
push-Distinct ids set id h d = record {
  nodup = Nodup-snoc ids id h d.nodup;
  agrees = λ a. ground (arith, d.agrees a, contains-snoc ids id a);
}

pop-Distinct : (x : Text) (xs set : List Text) → Distinct (x ∷ xs) set → Distinct xs (discard x set)
pop-Distinct x xs set d = record {
  nodup = d.nodup.1;
  agrees = λ a. ground (arith, d.agrees a, d.nodup.0, contains-discard set x a);
}

module _ ⦃u : Unicode⦄ where
  -- What an accepted call leaves: the rule waits once, at the end if it was not waiting yet, and the
  -- reply says so.
  pub enqueue_locked_lem :
      (now : ℕ) (fresh id : Text) (q : Queue)
      → IsDistinct q
      → q.stop_event ≡ false
      → ((enqueue_locked now fresh id q).1.queued_rule_ids ≡ (
          if contains q.queued_rule_ids id
          then q.queued_rule_ids
          else q.queued_rule_ids ++ id ∷ []))
        × ((enqueue_locked now fresh id q).0.duplicate ≡ contains q.queued_rule_ids id)
  unfolding enqueue_locked
  enqueue_locked_lem now fresh id q d s = ground (arith, d.agrees id)

  enqueue_locked_set :
      (now : ℕ) (fresh id : Text) (q : Queue)
      → q.stop_event ≡ false
      → (enqueue_locked now fresh id q).1.queued_rule_id_set ≡ (
          if contains q.queued_rule_id_set id
          then q.queued_rule_id_set
          else id ∷ q.queued_rule_id_set)
  unfolding enqueue_locked
  enqueue_locked_set now fresh id q s = ground arith

  enqueue_stopped :
      (now : ℕ) (fresh id : Text) (q : Queue)
      → q.stop_event ≡ true
      → ((enqueue_rule_sync now fresh id q).1.queued_rule_ids ≡ q.queued_rule_ids)
        × ((enqueue_rule_sync now fresh id q).1.queued_rule_id_set ≡ q.queued_rule_id_set)
  unfolding enqueue_rule_sync
  enqueue_stopped now fresh id q s = ground arith

  push_if-Distinct :
      (id : Text) (ids set : List Text)
      → Distinct ids set
      → Distinct
          (if contains ids id then ids else ids ++ id ∷ [])
          (if contains set id then set else id ∷ set)
  push_if-Distinct id ids set d = rw (d.agrees id) (elim (Bool-cases (contains ids id)) [
    | inl e ↦ rw e d
    | inr e ↦ rw e (push-Distinct ids set id e d)
  ])

  enqueue-IsDistinct :
      (now : ℕ) (fresh id : Text) (q : Queue)
      → IsDistinct q
      → IsDistinct (enqueue_rule_sync now fresh id q).1
  unfolding enqueue_rule_sync
  enqueue-IsDistinct now fresh id q d = elim (Bool-cases q.stop_event) [
    | inl s ↦
        Distinct-eq (enqueue_stopped now fresh id q s).0 (enqueue_stopped now fresh id q s).1 d
    | inr s ↦ go (strip id) refl s
  ]
    where
      go :
          (t : Text)
          → strip id ≡ t
          → q.stop_event ≡ false
          → IsDistinct (enqueue_rule_sync now fresh id q).1
      go [] e s = rw (e, enqueue_rule_sync) d
      go (c ∷ t) e s =
          rw (e, enqueue_rule_sync)
            (Distinct-eq (enqueue_locked_lem now fresh (c ∷ t) q d s).0
              (enqueue_locked_set now fresh (c ∷ t) q s)
              (push_if-Distinct (c ∷ t) q.queued_rule_ids q.queued_rule_id_set d))

  dispatch-IsDistinct :
      (now : ℕ) (ids : List Text) (q : Queue)
      → q.queued_rule_ids ≡ ids
      → IsDistinct q
      → IsDistinct (dispatch_head now ids q).1
  unfolding dispatch_head
  dispatch-IsDistinct now [] q e d = d
  dispatch-IsDistinct now (x ∷ xs) q e d =
      Distinct-eq (ground arith) (ground arith)
        (pop-Distinct x xs q.queued_rule_id_set (subst (λ l. Distinct l q.queued_rule_id_set) e d))

  turn-cases :
      (now : ℕ) (q : Queue)
      → (((worker_turn now q).1.queued_rule_ids ≡ q.queued_rule_ids)
          × ((worker_turn now q).1.queued_rule_id_set ≡ q.queued_rule_id_set))
        ⊎ ((worker_turn now q).1 ≡ (dispatch_head now q.queued_rule_ids q).1)
  unfolding worker_turn
  turn-cases now q = ground arith

  turn-IsDistinct : (now : ℕ) (q : Queue) → IsDistinct q → IsDistinct (worker_turn now q).1
  turn-IsDistinct now q d = elim (turn-cases now q) [
    | inl (p, r) ↦ Distinct-eq p r d
    | inr e ↦ rw e (dispatch-IsDistinct now q.queued_rule_ids q refl d)
  ]

  finalize_queue :
      (now : ℕ) (id : Text) (outcome : RuleSyncOutcome) (q : Queue)
      → ((finalize now id outcome q).queued_rule_ids ≡ q.queued_rule_ids)
        × ((finalize now id outcome q).queued_rule_id_set ≡ q.queued_rule_id_set)
  unfolding finalize
  finalize_queue now id outcome q = ground arith

  finish_preparation_queue :
      (now : ℕ) (failed : Bool) (q : Queue)
      → ((finish_preparation now failed q).queued_rule_ids ≡ q.queued_rule_ids)
        × ((finish_preparation now failed q).queued_rule_id_set ≡ q.queued_rule_id_set)
  unfolding finish_preparation
  finish_preparation_queue now failed q = ground arith

  Step-IsDistinct : (q r : Queue) → Step q r → IsDistinct q → IsDistinct r
  unfolding start_rule_sync_queue begin_stop finish_stop enter_worker_loop
  Step-IsDistinct _ _ (enqueue q now fresh id) d = enqueue-IsDistinct now fresh id q d
  Step-IsDistinct _ _ (start q a b) d = d
  Step-IsDistinct _ _ (stop q) d = record { nodup = tt; agrees = λ a. refl }
  Step-IsDistinct _ _ (joined q s a b) d = d
  Step-IsDistinct _ _ (enter q a) d = d
  Step-IsDistinct _ _ (turn q now a) d = turn-IsDistinct now q d
  Step-IsDistinct _ _ (prepared q now ids failed a) d =
      Distinct-eq (finish_preparation_queue now failed q).0
        (finish_preparation_queue now failed q).1 d
  Step-IsDistinct _ _ (finish q now id outcome h) d =
      Distinct-eq (finalize_queue now id outcome q).0 (finalize_queue now id outcome q).1 d

  -- In every interleaving no rule waits twice in the queue, and the set beside it holds exactly the
  -- rules that wait.
  pub Reach-IsDistinct : (q : Queue) → Reach initial q → IsDistinct q
  Reach-IsDistinct q r =
      Reach_induction IsDistinct Step-IsDistinct (record { nodup = tt; agrees = λ a. refl }) r
