-- ===== src/SyncQueue/Invariant.antt =====
-- The states of app/services/sync_queue.py that its threads can reach.
use q_bittorrent_rss_rules.Prelude.{
  is_empty, ℕ, ◌+◌, ◌≤◌, ◌<◌, ◌≡◌, ◌≢◌, refl, Bool, true, false, none, List, [], ◌∷◌, ◌++◌, arith,
  length, length-append, contains, text_eq,
}
use q_bittorrent_rss_rules.Prelude.Text.{Text, strip}
use q_bittorrent_rss_rules.Prelude.Unicode.{Unicode}
use q_bittorrent_rss_rules.SyncQueue.{
  Queue, RuleSyncOutcome, Worker, absent, looping, preparing, enqueue_rule_sync, enqueue_locked,
  start_rule_sync_queue, begin_stop, finish_stop, enter_worker_loop, worker_turn,
  finish_preparation, finalize, is_drained, remove_first, dispatch_head, release_task,
  record_sync_outcome_locked, count_outcome, report_progress, max_sync_worker_limit, initial,
}
use q_bittorrent_rss_rules.SyncQueue.Machine.{
  Step, enqueue, start, stop, joined, enter, turn, prepared, finish, Reach, Reach_induction,
}

abbrev pub is_absent : Worker → Bool
is_absent absent = true
is_absent _ = false

abbrev pub is_preparing : Worker → Bool
is_preparing (preparing ids) = true
is_preparing _ = false

abbrev pub in_loop : Worker → Bool
in_loop looping = true
in_loop (preparing ids) = true
in_loop _ = false

pub record IsValid (q : Queue) : Type 0 where
  -- The adaptive limit stays in its range, and so does the number of running tasks.
  pub limit_low : 1 ≤ q.adaptive_worker_limit
  pub limit_high : q.adaptive_worker_limit ≤ max_sync_worker_limit
  pub active_high : q.active_tasks ≤ max_sync_worker_limit
  -- A task counts as active exactly while the executor has it.
  pub active_submitted : q.active_tasks ≡ length q.submitted
  -- No rule is dispatched before the feeds of the batch were prepared.
  pub unprepared_idle : q.feeds_prepared ≡ false → q.active_tasks ≡ 0
  pub preparing_thread : q.feeds_preparing ≡ is_preparing q.worker_thread
  pub preparing_busy :
      q.stop_event ≡ false → q.feeds_preparing ≡ true → is_empty q.queued_rule_ids ≡ false
  pub loop_executor : in_loop q.worker_thread ≡ true → q.executor ≡ true
  -- While there is work, a dispatcher thread is there, and the batch has its operation.
  pub busy_thread : q.stop_event ≡ false → is_drained q ≡ false → is_absent q.worker_thread ≡ false
  pub busy_operation : q.stop_event ≡ false → is_drained q ≡ false → q.queue_operation_id ≢ none
  pub stopped_empty : q.stop_event ≡ true → q.queued_rule_ids ≡ []

pub length-snoc : (xs : List Text) (x : Text) → length (xs ++ x ∷ []) ≡ length xs + 1
length-snoc xs x = omega (arith, length-append xs (x ∷ []))

snoc-is_empty : (xs : List Text) (x : Text) → is_empty (xs ++ x ∷ []) ≡ false
snoc-is_empty [] x = refl
snoc-is_empty (y ∷ xs) x = refl

pub length-remove_first :
    (x : Text) (xs : List Text) → contains xs x ≡ true → length (remove_first x xs) + 1 ≡ length xs
length-remove_first x [] h = ground arith
length-remove_first x (y ∷ xs) h = ground (arith, length-remove_first x xs)

module _ ⦃u : Unicode⦄ where
  enqueue_locked-IsValid :
      (now : ℕ) (fresh id : Text) {q : Queue}
      → IsValid q
      → IsValid (enqueue_locked now fresh id q).1
  unfolding enqueue_locked is_drained
  enqueue_locked-IsValid now fresh id {q} v =
      ground (arith, snoc-is_empty q.queued_rule_ids id, snoc-is_empty [] id)

  enqueue-IsValid :
      (now : ℕ) (fresh id : Text) {q : Queue}
      → IsValid q
      → IsValid (enqueue_rule_sync now fresh id q).1
  unfolding enqueue_rule_sync
  enqueue-IsValid now fresh id {q} v = go (strip id) refl
    where
      go : (t : Text) → strip id ≡ t → IsValid (enqueue_rule_sync now fresh id q).1
      go [] e = rw (e, enqueue_rule_sync) v
      go (c ∷ s) e = rw (e, enqueue_rule_sync) (enqueue_locked-IsValid now fresh (c ∷ s) v)

  dispatch-IsValid :
      (now : ℕ) (ids : List Text) {q : Queue}
      → q.queued_rule_ids ≡ ids
      → q.feeds_prepared ≡ true
      → q.feeds_preparing ≡ false
      → q.active_tasks < q.adaptive_worker_limit
      → q.stop_event ≡ false
      → is_drained q ≡ false
      → IsValid q
      → IsValid (dispatch_head now ids q).1
  unfolding dispatch_head is_drained
  dispatch-IsValid now [] e p r l s d v = v
  dispatch-IsValid now (x ∷ xs) {q} e p r l s d v = ground (arith, length-snoc q.submitted x)

  turn-IsValid :
      (now : ℕ) {q : Queue} → q.worker_thread ≡ looping → IsValid q → IsValid (worker_turn now q).1
  unfolding worker_turn
  turn-IsValid now {q} at v = ground (arith, dispatch-IsValid now q.queued_rule_ids {q = q} refl)

  release_task-IsValid :
      (id : Text) {q : Queue}
      → contains q.submitted id ≡ true
      → IsValid q
      → IsValid (release_task id q)
  unfolding release_task is_drained
  release_task-IsValid id {q} h v = ground (arith, length-remove_first id q.submitted h)

  record_outcome-IsValid :
      (outcome : RuleSyncOutcome) {q : Queue}
      → IsValid q
      → IsValid (record_sync_outcome_locked outcome q)
  unfolding record_sync_outcome_locked is_drained
  record_outcome-IsValid outcome v = ground arith

  count_outcome-IsValid :
      (outcome : RuleSyncOutcome) {q : Queue} → IsValid q → IsValid (count_outcome outcome q)
  unfolding count_outcome is_drained
  count_outcome-IsValid outcome v = ground arith

  report_progress-IsValid : (now : ℕ) {q : Queue} → IsValid q → IsValid (report_progress now q)
  unfolding report_progress
  report_progress-IsValid now v = ground arith

  pub Step-IsValid : (q r : Queue) → Step q r → IsValid q → IsValid r
  unfolding start_rule_sync_queue begin_stop finish_stop enter_worker_loop finish_preparation
      finalize is_drained
  Step-IsValid _ _ (enqueue q now fresh id) v = enqueue-IsValid now fresh id v
  Step-IsValid _ _ (start q a b) v = ground arith
  Step-IsValid _ _ (stop q) v = ground arith
  Step-IsValid _ _ (joined q s a b) v = ground arith
  Step-IsValid _ _ (enter q a) v = ground arith
  Step-IsValid _ _ (turn q now a) v = turn-IsValid now a v
  Step-IsValid _ _ (prepared q now ids failed a) v = ground arith
  Step-IsValid _ _ (finish q now id outcome h) v =
      report_progress-IsValid now (
        count_outcome-IsValid outcome
          (record_outcome-IsValid outcome (release_task-IsValid id h v)))

  pub initial-IsValid : IsValid initial
  unfolding is_drained
  initial-IsValid = ground arith

  -- In every interleaving of callers, dispatcher, executor, start and stop, from the initial state:
  -- the adaptive limit lies between 1 and 24, at most 24 tasks run and they are the ones that the
  -- executor holds, no task runs before the batch was prepared, the preparing flag says where the
  -- dispatcher stands, and unless the queue is stopped, work in it has a dispatcher thread and an
  -- operation. A stopped queue is empty.
  pub Reach-IsValid : (q : Queue) → Reach initial q → IsValid q
  Reach-IsValid q r = Reach_induction IsValid Step-IsValid initial-IsValid r
