-- ===== src/SyncQueue/Drain.antt =====
-- A queue that is left running finishes its work (app/services/sync_queue.py).
use q_bittorrent_rss_rules.Prelude.{
  is_empty, ℕ, zero, suc, ◌+◌, ◌*◌, ◌<◌, ◌≡◌, refl, ◌∙◌, ap, inl, inr, Bool, true, false, List, [],
  ◌∷◌, arith, length, text_eq, Bool-cases,
}
use q_bittorrent_rss_rules.Prelude.Text.{Text}
use q_bittorrent_rss_rules.Prelude.Unicode.{Unicode}
use q_bittorrent_rss_rules.SyncQueue.{
  Queue, Worker, absent, started, looping, preparing, enter_worker_loop, worker_turn,
  finish_preparation, finalize, is_drained, dispatch_head,
}
use q_bittorrent_rss_rules.SyncQueue.Machine.{
  Step, enter, turn, prepared, finish, IsWork, Works, idle, work,
}
use q_bittorrent_rss_rules.SyncQueue.Invariant.{IsValid, Step-IsValid}
use q_bittorrent_rss_rules.SyncQueue.Counting.{
  accounted, Step-accounted, turn-accounted, finish_preparation-accounted, finalize-accounted,
  active_pos,
}

-- How far the dispatcher thread still is from dispatching.
abbrev phase : Worker → Bool → ℕ
phase absent ready = 4
phase started ready = 3
phase looping true = 0
phase looping false = 2
phase (preparing ids) ready = 1

-- What is left to do: a waiting rule is dispatched and then finished.
measure : Queue → ℕ
measure q = 6 * length q.queued_rule_ids + q.active_tasks + phase q.worker_thread q.feeds_prepared

module _ ⦃u : Unicode⦄ where
  -- A next state that is still running and is closer to the end.
  Progress : Queue → Type 0
  Progress q =
      (r : Queue) × (st : Step q r) × IsWork st × (measure r < measure q) × (r.stop_event ≡ false)

  finish-Progress :
      (x : Text) (xs : List Text) (q : Queue)
      → q.submitted ≡ x ∷ xs
      → q.stop_event ≡ false
      → IsValid q
      → Progress q
  unfolding Progress finalize measure
  finish-Progress x xs q e s v = (
    finalize 0 x (record { success = true; should_backoff = false }) q,
    finish q 0 x (record { success = true; should_backoff = false }) (rw e (ground arith)),
    tt,
    ground (arith, ap length e),
    ground arith,
  )

  dispatch_measure :
      (now : ℕ) (ids : List Text) (q : Queue)
      → q.queued_rule_ids ≡ ids
      → is_empty ids ≡ false
      → (measure (dispatch_head now ids q).1 < measure q)
        × ((dispatch_head now ids q).1.stop_event ≡ q.stop_event)
  unfolding dispatch_head measure
  dispatch_measure now [] q e h = cc
  dispatch_measure now (x ∷ xs) q e h = ground arith

  turn_measure :
      (q : Queue)
      → q.worker_thread ≡ looping
      → q.stop_event ≡ false
      → q.active_tasks ≡ 0
      → is_drained q ≡ false
      → IsValid q
      → (measure (worker_turn 0 q).1 < measure q) × ((worker_turn 0 q).1.stop_event ≡ false)
  unfolding worker_turn measure is_drained
  turn_measure q w s a d v = ground (
    arith,
    v.preparing_thread,
    v.loop_executor,
    v.limit_low,
    dispatch_measure 0 q.queued_rule_ids q refl,
  )

  idle-Progress :
      (w : Worker) (q : Queue)
      → q.worker_thread ≡ w
      → q.stop_event ≡ false
      → q.active_tasks ≡ 0
      → is_drained q ≡ false
      → IsValid q
      → Progress q
  unfolding Progress measure enter_worker_loop
  idle-Progress absent q e s a d v = absurd (ground (arith, v.busy_thread s d))
  idle-Progress started q e s a d v = (enter_worker_loop q, enter q e, tt, ground arith, s)
  idle-Progress looping q e s a d v = (
    (worker_turn 0 q).1,
    turn q 0 e,
    tt,
    (turn_measure q e s a d v).0,
    (turn_measure q e s a d v).1,
  )
  idle-Progress (preparing ids) q e s a d v = (
    finish_preparation 0 false q,
    prepared q 0 ids false e,
    tt,
    unfold finish_preparation in ground arith,
    unfold finish_preparation in ground arith,
  )

  progress : (q : Queue) → q.stop_event ≡ false → is_drained q ≡ false → IsValid q → Progress q
  progress q s d v = go q.submitted refl
    where
      go : (xs : List Text) → q.submitted ≡ xs → Progress q
      go [] e =
          idle-Progress q.worker_thread q refl s (omega (arith, v.active_submitted, ap length e)) d
            v
      go (x ∷ xs) e = finish-Progress x xs q e s v

  work-total_enqueued :
      {q r : Queue} (st : Step q r) → IsWork st → IsValid q → r.total_enqueued ≡ q.total_enqueued
  unfolding enter_worker_loop
  work-total_enqueued (enter q x) w v = refl
  work-total_enqueued (turn q now x) w v = (turn-accounted now q).1
  work-total_enqueued (prepared q now ids failed x) w v =
      (finish_preparation-accounted now failed q).1
  work-total_enqueued (finish q now id outcome h) w v =
      (finalize-accounted now id outcome q (active_pos id h v)).1
  work-total_enqueued _ w v = absurd w

  -- The dispatcher and the executor can bring the queue to a state in which nothing waits or runs
  -- and the rules that succeeded or failed are all that had been enqueued.
  abbrev pub Finishes : Queue → Type 0
  Finishes q =
      (r : Queue) × Works q r
      × (is_drained r ≡ true)
      × (r.total_completed + r.total_failed ≡ q.total_enqueued)

  drained_accounted :
      (q : Queue)
      → is_drained q ≡ true
      → accounted q ≡ q.total_enqueued
      → q.total_completed + q.total_failed ≡ q.total_enqueued
  unfolding is_drained
  drained_accounted q d c = ground arith

  drains :
      (fuel : ℕ) (q : Queue)
      → measure q < fuel
      → q.stop_event ≡ false
      → IsValid q
      → accounted q ≡ q.total_enqueued
      → Finishes q
  unfolding Progress
  drains zero q h s v c = absurd (omega arith)
  drains (suc fuel) q h s v c = elim (Bool-cases (is_drained q)) [
    | inl d ↦ (q, idle q, d, drained_accounted q d c)
    | inr d ↦
        let (r, st, w, m, s') = progress q s d v in
        let (t, path, d', e) =
          drains fuel r (omega arith) s' (Step-IsValid q r st v) (Step-accounted st s' v c) in
        (t, work st w path, d', e ∙ work-total_enqueued st w v)
  ]

  -- From every valid state of a queue that is not stopped and has lost no rule of its batch, the
  -- dispatcher and the executor alone can finish: they reach a state in which nothing waits or runs,
  -- and the rules that succeeded and failed add up to those that were enqueued.
  pub drains_completely :
      (q : Queue) → q.stop_event ≡ false → IsValid q → accounted q ≡ q.total_enqueued → Finishes q
  drains_completely q s v c = drains (suc (measure q)) q (omega arith) s v c
