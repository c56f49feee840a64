-- ===== src/SyncQueue/Batch.antt =====
-- How a batch ends (app/services/sync_queue.py).
use q_bittorrent_rss_rules.Prelude.{
  ℕ, ◌-◌, ◌≡◌, ◌≢◌, refl, ◌∙◌, ap, Option, none, some, [], arith, if◌then◌else◌, ◌=?◌, text_eq,
  Bool-cases, inl, inr,
}
use q_bittorrent_rss_rules.Prelude.Text.{Text, codes, strip, is_space}
use q_bittorrent_rss_rules.Prelude.Unicode.{Unicode}
use q_bittorrent_rss_rules.Prelude.Dict
use q_bittorrent_rss_rules.OperationStatus.{
  Operations, OperationRecord, complete_operation, complete_record, clean_status,
}
use q_bittorrent_rss_rules.OperationStatus.Table.{get-change}
use q_bittorrent_rss_rules.SyncQueue.{
  Queue, RuleSyncOutcome, finalize, complete_batch, report_progress, is_drained, count_outcome,
  record_sync_outcome_locked, release_task, success_message, failure_message,
}

module _ ⦃u : Unicode⦄ where
  clean_status-error : (d : Text) → clean_status (codes "error") d ≡ codes "error"
  unfolding clean_status strip is_space
  clean_status-error d = rw (u.lower_of_ascii (codes "error") (omega arith))

  clean_status-success : (d : Text) → clean_status (codes "success") d ≡ codes "success"
  unfolding clean_status strip is_space
  clean_status-success d = rw (u.lower_of_ascii (codes "success") (omega arith))

  complete_operation-get :
      (now : ℕ) (id status : Text) (message error : Option Text) (o : OperationRecord)
      (ops : Operations)
      → id ≢ []
      → Dict.get id ops ≡ some o
      → Dict.get id (complete_operation now (some id) status message error ops)
        ≡ some (complete_record now status message error o)
  unfolding complete_operation
  complete_operation-get now id status message error o ops h e =
      rw (get-change id id (complete_record now status message error) ops h) (ground (arith, e))

  complete_batch_lem :
      (now : ℕ) (q : Queue) (id : Text) (o : OperationRecord)
      → id ≢ []
      → q.queue_operation_id ≡ some id
      → Dict.get id q.operations ≡ some o
      → (o' : OperationRecord) × (Dict.get id (complete_batch now q).operations ≡ some o')
        × (o'.completed_at ≡ some now)
        × (o'.status ≡ (if q.total_failed =? 0 then codes "success" else codes "error"))
  unfolding complete_batch complete_record success_message failure_message
  complete_batch_lem now q id o h i e = elim (Bool-cases (q.total_failed =? 0)) [
    | inl z ↦ (
      complete_record now (codes "success") (some (success_message q)) none o,
      rw (z, i)
          (complete_operation-get now id (codes "success") (some (success_message q)) none o
            q.operations h e),
      refl,
      rw z (clean_status-success (codes "success")),
    )
    | inr z ↦ (
      complete_record now (codes "error") (some (failure_message q)) none o,
      rw (z, i)
          (complete_operation-get now id (codes "error") (some (failure_message q)) none o
            q.operations h e),
      refl,
      rw z (clean_status-error (codes "success")),
    )
  ]

  abbrev counted : Text → RuleSyncOutcome → Queue → Queue
  counted rule_id outcome q =
      count_outcome outcome (record_sync_outcome_locked outcome (release_task rule_id q))

  counted_fields :
      (rule_id : Text) (outcome : RuleSyncOutcome) (q : Queue)
      → ((counted rule_id outcome q).queue_operation_id ≡ q.queue_operation_id)
        × ((counted rule_id outcome q).operations ≡ q.operations)
        × ((counted rule_id outcome q).queued_rule_ids ≡ q.queued_rule_ids)
        × ((counted rule_id outcome q).active_tasks ≡ q.active_tasks - 1)
  unfolding count_outcome record_sync_outcome_locked release_task
  counted_fields rule_id outcome q = ground arith

  report_drained :
      (now : ℕ) (q : Queue) (id : Text)
      → q.queue_operation_id ≡ some id
      → q.queued_rule_ids ≡ []
      → q.active_tasks ≡ 0
      → (report_progress now q ≡ complete_batch now q)
  unfolding report_progress is_drained
  report_drained now q id i e a = rw (i, e, a)

  unfold_batch :
      (now : ℕ) (q : Queue) (id : Text) (o : OperationRecord)
      → id ≢ []
      → q.queue_operation_id ≡ some id
      → Dict.get id q.operations ≡ some o
      → ((complete_batch now q).queue_operation_id ≡ none)
        × ((o' : OperationRecord) × (Dict.get id (complete_batch now q).operations ≡ some o')
            × (o'.completed_at ≡ some now)
            × (o'.status ≡ (
                if (complete_batch now q).total_failed =? 0
                then codes "success"
                else codes "error")))
  unfolding complete_batch
  unfold_batch now q id o h i e = (refl, complete_batch_lem now q id o h i e)

  -- When the last running task of a batch is done and no rule waits, the batch lets go of its
  -- operation, and the listed operation is completed at that time: with the status `success` if no
  -- rule of the batch has failed, and with `error` otherwise.
  pub finalize-completes :
      (now : ℕ) (rule_id : Text) (outcome : RuleSyncOutcome) (q : Queue) (id : Text)
      (o : OperationRecord)
      → id ≢ []
      → q.queue_operation_id ≡ some id
      → Dict.get id q.operations ≡ some o
      → q.queued_rule_ids ≡ []
      → q.active_tasks ≡ 1
      → ((finalize now rule_id outcome q).queue_operation_id ≡ none)
        × ((o' : OperationRecord) × (Dict.get id (finalize now rule_id outcome q).operations
              ≡ some o')
            × (o'.completed_at ≡ some now)
            × (o'.status ≡ (
                if (finalize now rule_id outcome q).total_failed =? 0
                then codes "success"
                else codes "error")))
  unfolding finalize
  finalize-completes now rule_id outcome q id o h i e w a =
      let f = counted_fields rule_id outcome q in
      rw
        (report_drained now (counted rule_id outcome q) id (f.0 ∙ i) (f.2 ∙ w) (omega (arith, f.3)))
        (unfold_batch now (counted rule_id outcome q) id o h (f.0 ∙ i) (ap (Dict.get id) f.1 ∙ e))
