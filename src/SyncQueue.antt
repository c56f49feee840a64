-- ===== src/SyncQueue.antt =====
-- app/services/sync_queue.py: the queue that pushes rules to qBittorrent in the background.
-- The module's globals are the record `Queue`; a function here is what its namesake does while it
-- holds `_QUEUE_CONDITION`. `submitted` is what the executor was given and has not finalized, and
-- `worker_thread` is `_WORKER_THREAD` with the point at which that thread stands. The clock and the
-- fresh operation identifier are arguments.
pub mod Process
pub mod Machine
pub mod Limit
pub mod Invariant
pub mod Batch
pub mod Counting
pub mod Waiting
pub mod Drain
use q_bittorrent_rss_rules.Prelude.{
  is_empty, ℕ, ◌+◌, ◌-◌, ◌/◌, max, Bool, true, false, ◌&&◌, ◌||◌, not, Option, none, some, List, [],
  ◌∷◌, ◌++◌, ltb, leb, ◌=?◌, if◌then◌else◌, ◌==◌, text_eq, contains, length, any, keep_if,
}
use q_bittorrent_rss_rules.Prelude.Int.{pos}
use q_bittorrent_rss_rules.Prelude.Members.{discard}
use q_bittorrent_rss_rules.Prelude.Text.{Text, codes, strip, show, has_substring}
use q_bittorrent_rss_rules.Prelude.Unicode.{Unicode}
use q_bittorrent_rss_rules.OperationStatus.{
  Operations, start_operation, update_operation, complete_operation,
}

abbrev pub initial_sync_worker_limit : ℕ
initial_sync_worker_limit = 3

abbrev pub max_sync_worker_limit : ℕ
max_sync_worker_limit = 24

abbrev pub sync_success_streak_to_increase : ℕ
sync_success_streak_to_increase = 8

abbrev pub backoff_error_markers : List Text
backoff_error_markers =
    codes "timeout"
    ∷ codes "timed out"
    ∷ codes "connect"
    ∷ codes "connection"
    ∷ codes "too many requests"
    ∷ codes "429"
    ∷ codes "502"
    ∷ codes "503"
    ∷ codes "504"
    ∷ []

pub record RuleSyncOutcome : Type 0 where
  pub success : Bool
  pub should_backoff : Bool

-- `absent` is None. A thread was started, or runs the loop, or prepares the feeds of these rules.
pub data Worker : Type 0 where
  absent : Worker
  started : Worker
  looping : Worker
  preparing : List Text → Worker

pub record Queue : Type 0 where
  pub queued_rule_ids : List Text
  pub queued_rule_id_set : List Text
  pub total_enqueued : ℕ
  pub total_completed : ℕ
  pub total_failed : ℕ
  pub active_tasks : ℕ
  pub executor : Bool
  pub submitted : List Text
  pub worker_thread : Worker
  pub stop_event : Bool
  pub queue_operation_id : Option Text
  pub feeds_prepared : Bool
  pub feeds_preparing : Bool
  pub reconcile_per_rule : Bool
  pub adaptive_worker_limit : ℕ
  pub sync_success_streak : ℕ
  pub operations : Operations

abbrev pub initial : Queue
initial = record {
  queued_rule_ids = [];
  queued_rule_id_set = [];
  total_enqueued = 0;
  total_completed = 0;
  total_failed = 0;
  active_tasks = 0;
  executor = false;
  submitted = [];
  worker_thread = absent;
  stop_event = false;
  queue_operation_id = none;
  feeds_prepared = false;
  feeds_preparing = false;
  reconcile_per_rule = false;
  adaptive_worker_limit = initial_sync_worker_limit;
  sync_success_streak = 0;
  operations = [];
}

-- `not _QUEUED_RULE_IDS and _ACTIVE_TASKS == 0`
unfoldable pub is_drained : Queue → Bool
is_drained q = is_empty q.queued_rule_ids && q.active_tasks =? 0

unfoldable pub start_rule_sync_queue : Queue → Queue
start_rule_sync_queue q = record q { stop_event = false }

-- The first locked block of `stop_rule_sync_queue`.
unfoldable pub begin_stop : Queue → Queue
begin_stop q = record q { stop_event = true; queued_rule_ids = []; queued_rule_id_set = [] }

-- Its last block, after the joins.
unfoldable pub finish_stop : Queue → Queue
finish_stop q = record q { executor = false; worker_thread = absent; queue_operation_id = none }

unfoldable pub ensure_worker_locked : Queue → Queue
ensure_worker_locked q = elim q.worker_thread [
  | absent ↦ record q { worker_thread = started }
  | _ ↦ q
]

-- `_record_sync_outcome_locked`
unfoldable pub record_sync_outcome_locked : RuleSyncOutcome → Queue → Queue
record_sync_outcome_locked outcome q =
    if outcome.success
    then (if leb sync_success_streak_to_increase (q.sync_success_streak + 1)
          && ltb q.adaptive_worker_limit max_sync_worker_limit
        then record q {
          adaptive_worker_limit = q.adaptive_worker_limit + 1;
          sync_success_streak = 0;
        }
        else record q { sync_success_streak = q.sync_success_streak + 1 })
    else (if outcome.should_backoff && ltb 1 q.adaptive_worker_limit
        then record q {
          adaptive_worker_limit = max 1 (q.adaptive_worker_limit / 2);
          sync_success_streak = 0;
        }
        else record q { sync_success_streak = 0 })

pub record QueueStatus : Type 0 where
  pub is_running : Bool
  pub queued : ℕ
  pub active : ℕ
  pub worker_limit : ℕ
  pub max_worker_limit : ℕ
  pub total_enqueued : ℕ
  pub completed : ℕ
  pub failed : ℕ

unfoldable pub get_sync_queue_status : Queue → QueueStatus
get_sync_queue_status q = record {
  is_running = ltb 0 q.active_tasks || ltb 0 (length q.queued_rule_ids);
  queued = length q.queued_rule_ids;
  active = q.active_tasks;
  worker_limit = q.adaptive_worker_limit;
  max_worker_limit = max_sync_worker_limit;
  total_enqueued = q.total_enqueued;
  completed = q.total_completed;
  failed = q.total_failed;
}

pub record EnqueueReply : Type 0 where
  pub enqueued : Bool
  pub duplicate : Bool
  pub queue_depth : ℕ

-- What one pass of `_sync_worker_loop` did under the lock.
pub data Turn : Type 0 where
  returned waited : Turn
  prepare : List Text → Turn
  dispatched : Bool → Turn

unfoldable pub push_rule : Text → Queue → Queue
push_rule id q = if contains q.queued_rule_id_set id then q else record q {
  queued_rule_ids = q.queued_rule_ids ++ id ∷ [];
  queued_rule_id_set = id ∷ q.queued_rule_id_set;
  total_enqueued = q.total_enqueued + 1;
}

-- What `_sync_worker_loop` does before its loop.
unfoldable pub enter_worker_loop : Queue → Queue
enter_worker_loop q = record q { executor = true; worker_thread = looping }

unfoldable pub count_outcome : RuleSyncOutcome → Queue → Queue
count_outcome outcome q =
    if outcome.success
    then record q { total_completed = q.total_completed + 1 }
    else record q { total_failed = q.total_failed + 1 }

abbrev pub remove_first : Text → List Text → List Text
remove_first a [] = []
remove_first a (x ∷ xs) = if x == a then xs else x ∷ remove_first a xs

-- The task leaves the executor and the count of active tasks.
unfoldable pub release_task : Text → Queue → Queue
release_task rule_id q = record q {
  active_tasks = q.active_tasks - 1;
  submitted = remove_first rule_id q.submitted;
}

ratio : Queue → Text
ratio q = show q.total_completed ++ codes "/" ++ show q.total_enqueued

unfoldable pub failure_message : Queue → Text
unfolding ratio
failure_message q =
    codes "qB sync completed with "
    ++ show q.total_failed
    ++ codes " failure(s): "
    ++ ratio q
    ++ codes " succeeded."

unfoldable pub success_message : Queue → Text
success_message q = codes "qB sync completed for " ++ show q.total_completed ++ codes " rule(s)."

module _ ⦃u : Unicode⦄ where
  unfoldable pub is_backoff_error : Text → Bool
  unfolding has_substring
  is_backoff_error message =
      any (λ marker. has_substring marker (u.casefold message)) backoff_error_markers

  unfoldable pub queue_message : Queue → Text
  unfolding ratio
  queue_message q =
      if not (q.total_failed =? 0)
      then codes "qB sync "
        ++ ratio q
        ++ codes " completed; "
        ++ show q.total_failed
        ++ codes " failed."
      else if q.feeds_preparing
      then codes "Preparing qB RSS feeds before parallel rule sync."
      else if not (is_drained q)
      then codes "qB sync "
        ++ ratio q
        ++ codes " completed; "
        ++ show q.active_tasks
        ++ codes " active (limit "
        ++ show q.adaptive_worker_limit
        ++ codes "), "
        ++ show (length q.queued_rule_ids)
        ++ codes " queued."
      else codes "qB sync completed for " ++ ratio q ++ codes " rule(s)."

  -- `_update_queue_operation_locked`
  unfoldable pub update_queue_operation_locked : ℕ → Queue → Queue
  unfolding queue_message
  update_queue_operation_locked now q = elim q.queue_operation_id [
    | none ↦ q
    | some id ↦ record q {
      operations =
          update_operation now (some id) (some (pos (q.total_completed + q.total_failed)))
            (some (pos q.total_enqueued)) (some (queue_message q))
            (some (if q.active_tasks =? 0 then codes "queued" else codes "running")) none
            q.operations;
    }
  ]

  -- A new batch: the counts and the flags start again, and a new operation is listed.
  unfoldable pub reset_batch : ℕ → Text → Queue → Queue
  reset_batch now id q = record q {
    total_enqueued = 0;
    total_completed = 0;
    total_failed = 0;
    feeds_prepared = false;
    feeds_preparing = false;
    reconcile_per_rule = false;
    queue_operation_id = some id;
    operations =
        start_operation id now (codes "qb_sync") (codes "Syncing qBittorrent rules") (some (pos 0))
          (pos 0) (codes "qBittorrent rule sync queued.") (codes "queued") q.operations;
  }

  -- The locked part of `enqueue_rule_sync`, for an identifier that is not empty.
  unfoldable pub enqueue_locked : ℕ → Text → Text → Queue → EnqueueReply × Queue
  unfolding reset_batch push_rule update_queue_operation_locked ensure_worker_locked is_drained
  enqueue_locked now fresh rule_id q =
      if q.stop_event
      then (record { enqueued = false; duplicate = false; queue_depth = 0 }, q)
      else (let q₁ = if is_drained q then reset_batch now fresh q else q in
          let duplicate = contains q₁.queued_rule_id_set rule_id in
          let q₂ =
            ensure_worker_locked (update_queue_operation_locked now (push_rule rule_id q₁)) in
          (
            record {
              enqueued = not duplicate;
              duplicate = duplicate;
              queue_depth = length q₂.queued_rule_ids;
            },
            q₂,
          ))

  unfoldable pub enqueue_rule_sync : ℕ → Text → Text → Queue → EnqueueReply × Queue
  unfolding enqueue_locked strip
  enqueue_rule_sync now fresh rule_id q = elim (strip rule_id) [
    | [] ↦
        (record { enqueued = false; duplicate = false; queue_depth = length q.queued_rule_ids }, q)
    | c ∷ s ↦ enqueue_locked now fresh (c ∷ s) q
  ]

  dispatch_head : ℕ → List Text → Queue → Bool × Queue
  unfolding update_queue_operation_locked
  dispatch_head now [] q = (false, q)
  dispatch_head now (rule_id ∷ rest) q =
      let q₁ = update_queue_operation_locked now (record q {
        queued_rule_ids = rest;
        queued_rule_id_set = discard rule_id q.queued_rule_id_set;
        active_tasks = q.active_tasks + 1;
      }) in
      (true, record q₁ { submitted = q₁.submitted ++ rule_id ∷ [] })

  unfoldable pub dispatch_next_rule_sync_locked : ℕ → Queue → Bool × Queue
  unfolding dispatch_head
  dispatch_next_rule_sync_locked now q =
      if not q.executor || leb q.adaptive_worker_limit q.active_tasks
      then (false, q)
      else dispatch_head now q.queued_rule_ids q

  -- The locked block of one pass of the loop.
  unfoldable pub worker_turn : ℕ → Queue → Turn × Queue
  unfolding dispatch_next_rule_sync_locked update_queue_operation_locked is_drained
  worker_turn now q =
      if q.stop_event
      then (if q.active_tasks =? 0
          then (returned, record q { worker_thread = absent })
          else (waited, q))
      else if is_drained q
      then (returned, record q { worker_thread = absent })
      else if not q.feeds_prepared && not q.feeds_preparing
      then (
        prepare q.queued_rule_ids,
        update_queue_operation_locked now
            (record q { feeds_preparing = true; worker_thread = preparing q.queued_rule_ids }),
      )
      else if q.feeds_preparing
      then (waited, q)
      else if is_empty q.queued_rule_ids || leb q.adaptive_worker_limit q.active_tasks
      then (waited, q)
      else (let (done, q') = dispatch_next_rule_sync_locked now q in (dispatched done, q'))

  -- The `finally` block after `_prepare_queued_rule_syncs`.
  unfoldable pub finish_preparation : ℕ → Bool → Queue → Queue
  unfolding update_queue_operation_locked
  finish_preparation now preparation_failed q = update_queue_operation_locked now (record q {
    feeds_prepared = true;
    feeds_preparing = false;
    reconcile_per_rule = preparation_failed;
    worker_thread = looping;
  })

  -- The end of `_process_and_finalize`, when the last task of a batch is done.
  unfoldable pub complete_batch : ℕ → Queue → Queue
  complete_batch now q = record q {
    queue_operation_id = none;
    operations =
        if not (q.total_failed =? 0)
        then complete_operation now q.queue_operation_id (codes "error") (some (failure_message q))
            none q.operations
        else complete_operation now q.queue_operation_id (codes "success")
            (some (success_message q)) none q.operations;
  }

  -- Its last test: the batch is closed, or its progress is shown.
  unfoldable pub report_progress : ℕ → Queue → Queue
  unfolding complete_batch update_queue_operation_locked is_drained
  report_progress now q = elim q.queue_operation_id [
    | none ↦ q
    | some id ↦ if is_drained q then complete_batch now q else update_queue_operation_locked now q
  ]

  -- The `finally` block of `_process_and_finalize`; the task leaves the executor.
  unfoldable pub finalize : ℕ → Text → RuleSyncOutcome → Queue → Queue
  unfolding record_sync_outcome_locked count_outcome release_task report_progress
  finalize now rule_id outcome q =
      report_progress now
        (count_outcome outcome (record_sync_outcome_locked outcome (release_task rule_id q)))
