-- ===== src/SyncQueue/Process.antt =====
-- `_process_rule_sync` and `_prepare_queued_rule_syncs` (app/services/sync_queue.py): what a task
-- does to the stored rules. The service that talks to qBittorrent is a parameter: it returns with
-- its success flag, or raises an error with a message, and leaves the rules as it committed them.
-- Commits and the database session itself do not fail here.
use mathlib.Core.Option
use q_bittorrent_rss_rules.Prelude.{
  is_empty, ℕ, ◌≡◌, Bool, true, false, Option, none, some, List, [], ◌∷◌, ◌++◌, arith,
  if◌then◌else◌, ◌==◌, text_eq, Option-cases, inl, inr,
}
use q_bittorrent_rss_rules.Prelude.Int.{pos}
use q_bittorrent_rss_rules.Prelude.Text.{Text, codes, strip}
use q_bittorrent_rss_rules.Prelude.Unicode.{Unicode}
use q_bittorrent_rss_rules.Prelude.Dict
use q_bittorrent_rss_rules.Prelude.Dict.{Dict}
use q_bittorrent_rss_rules.OperationStatus.{Operations, start_operation, complete_operation}
use q_bittorrent_rss_rules.SyncQueue.{RuleSyncOutcome, is_backoff_error}

-- `SyncStatus` of app/models.py
pub data SyncStatus : Type 0 where
  never pending syncing ok error drift : SyncStatus

-- The columns of a rule that the queue writes.
pub record RuleRow : Type 0 where
  pub last_sync_status : SyncStatus
  pub last_sync_error : Option Text

abbrev pub Rules : Type 0
Rules = Dict Text RuleRow

pub data Attempt : Type 0 where
  returned : Bool → Rules → Attempt
  raised : Text → Rules → Attempt

-- What a task leaves: its outcome, the rules, and the operations.
pub record Processed : Type 0 where
  pub outcome : RuleSyncOutcome
  pub rules : Rules
  pub operations : Operations

-- The handler's write: `last_sync_status` and `last_sync_error` of the rule, if it is still there.
unfoldable pub record_failure : Text → Text → Rules → Rules
unfolding Dict.get Dict.insert
record_failure rule_id message rules = elim (Dict.get rule_id rules) [
  | none ↦ rules
  | some row ↦
      Dict.insert rule_id (record { last_sync_status = error; last_sync_error = some message })
        rules
]

get-record_failure :
    (rule_id message j : Text) (rules : Rules)
    → Dict.get j (record_failure rule_id message rules) ≡ (
        if j == rule_id
        then Option.map
            (λ r. record { last_sync_status = error; last_sync_error = some message })
            (Dict.get j rules)
        else Dict.get j rules)
unfolding record_failure
get-record_failure rule_id message j rules = elim (Option-cases (Dict.get rule_id rules)) [
  | inl e ↦ rw (e, record_failure) (ground (arith, e))
  | inr (row, e) ↦ rw (e, record_failure) (rw Dict.get-insert (ground (arith, e)))
]

module _ ⦃u : Unicode⦄ (sync_rule : Bool → Text → Rules → Attempt) where
  -- `direct` is the operation that the task started itself, if the queue had none.
  settle : ℕ → Option Text → Text → Attempt → Operations → Processed
  unfolding record_failure is_backoff_error
  settle now direct rule_id (returned done rules) ops = record {
    outcome = record { success = true; should_backoff = false };
    rules = rules;
    operations =
        complete_operation now direct (codes "success")
          (some (codes "qB sync completed for 1 rule(s).")) none ops;
  }
  settle now direct rule_id (raised message rules) ops = record {
    outcome = record { success = false; should_backoff = is_backoff_error message };
    rules = record_failure rule_id message rules;
    operations =
        complete_operation now direct (codes "error") (some (codes "qB sync failed: " ++ message))
          (some message) ops;
  }

  process_found : ℕ → Option Text → Bool → Text → Option RuleRow → Rules → Operations → Processed
  unfolding settle
  process_found now direct reconcile rule_id none rules ops = record {
    outcome = record { success = true; should_backoff = false };
    rules = rules;
    operations =
        complete_operation now direct (codes "success")
          (some (codes "qB sync skipped; rule not found.")) none ops;
  }
  process_found now direct reconcile rule_id (some row) rules ops =
      settle now direct rule_id
        (sync_rule reconcile rule_id (
          Dict.insert rule_id (record { last_sync_status = syncing; last_sync_error = none })
            rules))
        ops

  unfoldable pub process_rule_sync :
      (now : ℕ) (fresh : Text) (queue_operation_id : Option Text) (rule_id : Text)
      (reconcile_feeds : Bool)
      → Rules
      → Operations
      → Processed
  unfolding process_found Dict.get Dict.insert
  process_rule_sync now fresh (some id) rule_id reconcile rules ops =
      process_found now none reconcile rule_id (Dict.get rule_id rules) rules ops
  process_rule_sync now fresh none rule_id reconcile rules ops =
      process_found now (some fresh) reconcile rule_id (Dict.get rule_id rules) rules (
        start_operation fresh now (codes "qb_sync") (codes "Syncing qBittorrent rules")
          (some (pos 1)) (pos 0) (codes "Pushing one rule to qBittorrent.") (codes "running") ops)

  module _ (now : ℕ) (fresh : Text) (queue_operation_id : Option Text) (rule_id : Text)
      (reconcile : Bool) (rules : Rules) (ops : Operations) (row : RuleRow) where
    abbrev during : Rules
    during =
        Dict.insert rule_id (record { last_sync_status = syncing; last_sync_error = none }) rules

    abbrev result : Processed
    result = process_rule_sync now fresh queue_operation_id rule_id reconcile rules ops

    -- If the service raises for a stored rule, the task fails, asks for less load exactly when the
    -- message has one of the markers, and the rule, if the service left it stored, is in ERROR with
    -- that message. No other rule is written.
    pub process_rule_sync_raised :
        (message : Text) (after : Rules) (j : Text)
        → Dict.get rule_id rules ≡ some row
        → sync_rule reconcile rule_id during ≡ raised message after
        → (result.outcome ≡ record { success = false; should_backoff = is_backoff_error message })
          × (Dict.get j result.rules ≡ (
              if j == rule_id
              then Option.map
                  (λ r. record { last_sync_status = error; last_sync_error = some message })
                  (Dict.get j after)
              else Dict.get j after))
    unfolding process_rule_sync
    process_rule_sync_raised message after j found e =
        ground (arith, get-record_failure rule_id message j after)

-- `_prepare_queued_rule_syncs`: the identifiers are cleaned, and rules that are gone are left out.
unfoldable pub clean_rule_ids : List Text → List Text
unfolding strip
clean_rule_ids [] = []
clean_rule_ids (id ∷ ids) =
    let rest = clean_rule_ids ids in if is_empty (strip id) then rest else strip id ∷ rest

unfoldable pub stored_rules : Rules → List Text → List Text
unfolding Dict.get
stored_rules rules [] = []
stored_rules rules (id ∷ ids) =
    let rest = stored_rules rules ids in
    elim (Dict.get id rules) [ none ↦ rest | some row ↦ id ∷ rest ]

-- The service's refresh and reconciliation is a parameter; `none` is an error that it raises, after
-- which the session is rolled back and the error goes on to the caller.
module _ {S : Type 0} (prepare : List Text → S → Option S) where
  unfoldable pub prepare_queued_rule_syncs : Rules → List Text → S → Option S
  unfolding clean_rule_ids stored_rules
  prepare_queued_rule_syncs rules ids s = elim (stored_rules rules (clean_rule_ids ids)) [
    | [] ↦ some s
    | id ∷ rest ↦ prepare (id ∷ rest) s
  ]
