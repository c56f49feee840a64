-- ===== src/RuleFetchQueue/Drain.antt =====
-- The worker of app/services/rule_fetch_queue.py settles every rule that waits.
use q_bittorrent_rss_rules.Prelude.{
  ℕ, ◌+◌, ◌≤◌, ◌≡◌, Bool, true, false, ◌==◌, some, List, [], all, if◌then◌else◌, text_eq,
}
use q_bittorrent_rss_rules.Prelude.Text.{Text, codes}
use q_bittorrent_rss_rules.RuleFetchQueue.{
  FetchQueue, FetchWorker, no_worker, Call, returned, raised, Fetcher, fetch_rule, worker_loop,
}

-- The database behind a call, however it ends.
abbrev pub database : {D A : Type 0} → Call D A → D
database (returned d a) = d
database (raised d message) = d

-- What app/services/rule_fetch_ops.py does for the rules that are settled: those that have a snapshot
-- or a recorded failure, or for another reason are not due. A rule is settled if it is found not to be
-- due, if its batch returns and was not busy, and if its failure is recorded; and no operation
-- unsettles a rule.
pub record Settling {D : Type 0} (f : Fetcher D) (settled : Text → D → Bool) : Type 0 where
  pub select_settles :
      (id : Text) (d d' : D)
      → f.select_due_rule_fetches id d ≡ returned d' false
      → settled id d' ≡ true
  pub batch_settles :
      (id : Text) (d d' : D) (status : Text)
      → f.run_rules_fetch_batch id d ≡ returned d' status
      → (status == codes "busy") ≡ false
      → settled id d' ≡ true
  pub failure_settles :
      (id message : Text) (d : D) → settled id (f.record_rule_fetch_failure id message d) ≡ true
  pub select_keeps :
      (id j : Text) (d : D)
      → settled j d ≡ true
      → settled j (database (f.select_due_rule_fetches id d)) ≡ true
  pub batch_keeps :
      (id j : Text) (d : D)
      → settled j d ≡ true
      → settled j (database (f.run_rules_fetch_batch id d)) ≡ true
  pub rollback_keeps : (j : Text) (d : D) → settled j d ≡ true → settled j (f.rollback d) ≡ true
  pub failure_keeps :
      (id message j : Text) (d : D)
      → settled j d ≡ true
      → settled j (f.record_rule_fetch_failure id message d) ≡ true

module _ {D : Type 0} (f : Fetcher D) (settled : Text → D → Bool) (budget : D → ℕ) where
  -- A batch is busy at most as often as the budget allows.
  abbrev pub IsPatient : Type 0
  IsPatient =
      (id : Text) (d : D)
      → budget (fetch_rule f id d).0 + (if (fetch_rule f id d).1 then 1 else 0) ≤ budget d

  -- The worker returns and has left, nothing waits, every rule that waited is settled, and what was
  -- settled still is.
  abbrev pub Drains : ℕ → D → FetchQueue → Type 0
  Drains fuel d q =
      (d' : D) × (q' : FetchQueue) × (worker_loop f fuel d q ≡ some (d', q'))
      × (q'.worker ≡ no_worker)
      × (q'.rule_ids ≡ [])
      × (all (λ id. settled id d') q.rule_ids ≡ true)
      × ((j : Text) → settled j d ≡ true → settled j d' ≡ true)

  module _ (laws : Settling f settled) where
    module _ (patient : IsPatient) where
      running : List Text → List Text → FetchWorker → FetchQueue
      running ids set w = record {
        rule_ids = ids;
        rule_id_set = set;
        worker = w;
        stop_event = false;
      }
