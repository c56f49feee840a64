-- ===== src/SyncQueue/Counting.antt =====
-- The counts of a batch (app/services/sync_queue.py).
use q_bittorrent_rss_rules.Prelude.{
  ℕ, ◌+◌, ◌≤◌, ◌<◌, ◌≡◌, refl, Bool, true, false, List, [], ◌∷◌, arith, length, contains, text_eq,
}
use q_bittorrent_rss_rules.Prelude.Text.{Text, strip}
use q_bittorrent_rss_rules.Prelude.Unicode.{Unicode}
use q_bittorrent_rss_rules.SyncQueue.{
  Queue, RuleSyncOutcome, enqueue_rule_sync, enqueue_locked, start_rule_sync_queue, begin_stop,
  finish_stop, enter_worker_loop, worker_turn, finish_preparation, finalize, is_drained,
  dispatch_head, initial,
}
use q_bittorrent_rss_rules.SyncQueue.Machine.{
  Step, enqueue, start, stop, joined, enter, turn, prepared, finish, Reach, Reach_induction,
}
use q_bittorrent_rss_rules.SyncQueue.Invariant.{
  IsValid, Step-IsValid, initial-IsValid, length-snoc, length-remove_first,
}

-- The rules of the batch that are done, running or waiting.
abbrev pub accounted : Queue → ℕ
accounted q = q.total_completed + q.total_failed + q.active_tasks + length q.queued_rule_ids

module _ ⦃u : Unicode⦄ where
  enqueue_locked-accounted :
      (now : ℕ) (fresh id : Text) (q : Queue)
      → accounted q ≤ q.total_enqueued
      → accounted (enqueue_locked now fresh id q).1
        ≤ (enqueue_locked now fresh id q).1.total_enqueued
  unfolding enqueue_locked is_drained
  enqueue_locked-accounted now fresh id q h = ground (arith, length-snoc q.queued_rule_ids id)

  enqueue_locked-accounted_eq :
      (now : ℕ) (fresh id : Text) (q : Queue)
      → accounted q ≡ q.total_enqueued
      → accounted (enqueue_locked now fresh id q).1
        ≡ (enqueue_locked now fresh id q).1.total_enqueued
  unfolding enqueue_locked is_drained
  enqueue_locked-accounted_eq now fresh id q h = ground (arith, length-snoc q.queued_rule_ids id)

  dispatch-accounted :
      (now : ℕ) (ids : List Text) (q : Queue)
      → q.queued_rule_ids ≡ ids
      → (accounted (dispatch_head now ids q).1 ≡ accounted q)
        × ((dispatch_head now ids q).1.total_enqueued ≡ q.total_enqueued)
  unfolding dispatch_head
  dispatch-accounted now [] q e = (refl, refl)
  dispatch-accounted now (x ∷ xs) q e = ground arith

  pub turn-accounted :
      (now : ℕ) (q : Queue)
      → (accounted (worker_turn now q).1 ≡ accounted q)
        × ((worker_turn now q).1.total_enqueued ≡ q.total_enqueued)
  unfolding worker_turn
  turn-accounted now q = ground (arith, dispatch-accounted now q.queued_rule_ids q refl)

  pub finalize-accounted :
      (now : ℕ) (id : Text) (outcome : RuleSyncOutcome) (q : Queue)
      → 0 < q.active_tasks
      → (accounted (finalize now id outcome q) ≡ accounted q)
        × ((finalize now id outcome q).total_enqueued ≡ q.total_enqueued)
  unfolding finalize
  finalize-accounted now id outcome q h = ground arith

  enqueue-keeps :
      (P : Queue → Type 0) (now : ℕ) (fresh id : Text) (q : Queue)
      → ((c : ℕ) (s : Text) → P (enqueue_locked now fresh (c ∷ s) q).1)
      → P q
      → P (enqueue_rule_sync now fresh id q).1
  unfolding enqueue_rule_sync
  enqueue-keeps P now fresh id q k h = go (strip id) refl
    where
      go : (t : Text) → strip id ≡ t → P (enqueue_rule_sync now fresh id q).1
      go [] e = rw (e, enqueue_rule_sync) h
      go (c ∷ s) e = rw (e, enqueue_rule_sync) (k c s)

  pub finish_preparation-accounted :
      (now : ℕ) (failed : Bool) (q : Queue)
      → (accounted (finish_preparation now failed q) ≡ accounted q)
        × ((finish_preparation now failed q).total_enqueued ≡ q.total_enqueued)
  unfolding finish_preparation
  finish_preparation-accounted now failed q = ground arith

  pub active_pos :
      {q : Queue} (id : Text) → contains q.submitted id ≡ true → IsValid q → 0 < q.active_tasks
  active_pos {q} id h v = omega (arith, length-remove_first id q.submitted h, v.active_submitted)

  Step-le_total :
      {q r : Queue}
      → Step q r
      → IsValid q
      → accounted q ≤ q.total_enqueued
      → accounted r ≤ r.total_enqueued
  unfolding start_rule_sync_queue begin_stop finish_stop enter_worker_loop
  Step-le_total (enqueue q now fresh id) v b =
      enqueue-keeps (λ r. accounted r ≤ r.total_enqueued) now fresh id q
        (λ c t. enqueue_locked-accounted now fresh (c ∷ t) q b) b
  Step-le_total (start q x y) v b = b
  Step-le_total (stop q) v b = omega arith
  Step-le_total (joined q x y z) v b = b
  Step-le_total (enter q x) v b = b
  Step-le_total (turn q now x) v b = omega (arith, turn-accounted now q)
  Step-le_total (prepared q now ids failed x) v b =
      omega (arith, finish_preparation-accounted now failed q)
  Step-le_total (finish q now id outcome h) v b =
      omega (arith, finalize-accounted now id outcome q (active_pos id h v))

  -- In every interleaving the rules of the current batch that are done, running or waiting are at
  -- most those that were enqueued.
  pub accounted-le_total : (q : Queue) → Reach initial q → accounted q ≤ q.total_enqueued
  accounted-le_total q r =
      (Reach_induction (λ s. IsValid s × (accounted s ≤ s.total_enqueued))
        (λ a b s h. (Step-IsValid a b s h.0, Step-le_total s h.0 h.1))
        (initial-IsValid, omega arith) r).1

  -- A step that leaves the queue running loses no rule of a batch: if every rule of the batch was
  -- done, running or waiting before it, the same holds after it.
  pub Step-accounted :
      {q r : Queue}
      → Step q r
      → r.stop_event ≡ false
      → IsValid q
      → accounted q ≡ q.total_enqueued
      → accounted r ≡ r.total_enqueued
  unfolding start_rule_sync_queue begin_stop finish_stop enter_worker_loop
  Step-accounted (enqueue q now fresh id) s v b =
      enqueue-keeps (λ r. accounted r ≡ r.total_enqueued) now fresh id q
        (λ c t. enqueue_locked-accounted_eq now fresh (c ∷ t) q b) b
  Step-accounted (start q x y) s v b = b
  Step-accounted (stop q) s v b = cc
  Step-accounted (joined q x y z) s v b = b
  Step-accounted (enter q x) s v b = b
  Step-accounted (turn q now x) s v b = omega (arith, turn-accounted now q)
  Step-accounted (prepared q now ids failed x) s v b =
      omega (arith, finish_preparation-accounted now failed q)
  Step-accounted (finish q now id outcome h) s v b =
      omega (arith, finalize-accounted now id outcome q (active_pos id h v))
