-- ===== src/Tests/SyncQueue.antt =====
-- app/services/sync_queue.py on concrete queues.
use mathlib.Core.Option
use q_bittorrent_rss_rules.Prelude.{
  ◌+◌, ◌≡◌, refl, Bool, true, false, none, some, [], ◌∷◌, text_eq, if◌then◌else◌, ◌==◌,
}
use q_bittorrent_rss_rules.Prelude.Text.{Text, codes, is_space}
use q_bittorrent_rss_rules.Prelude.Dict
use q_bittorrent_rss_rules.OperationStatus.{OperationRecord}
use q_bittorrent_rss_rules.SyncQueue.{
  Queue, initial, enqueue_rule_sync, enter_worker_loop, is_backoff_error, looping,
}
use q_bittorrent_rss_rules.SyncQueue.Machine.{enqueue, enter, Reach, here, next}
use q_bittorrent_rss_rules.SyncQueue.Invariant.{IsValid, Reach-IsValid}
use q_bittorrent_rss_rules.SyncQueue.Waiting.{IsDistinct, Reach-IsDistinct}
use q_bittorrent_rss_rules.SyncQueue.Counting.{accounted, Step-accounted}
use q_bittorrent_rss_rules.SyncQueue.Limit.{repeat_outcome, repeat_outcome-backs_off, overloaded}
use q_bittorrent_rss_rules.SyncQueue.Drain.{Finishes, drains_completely}
use q_bittorrent_rss_rules.SyncQueue.Process.{
  Rules, RuleRow, Attempt, raised, never, syncing, error, process_rule_sync,
  process_rule_sync_raised,
}
use q_bittorrent_rss_rules.Tests.Ascii.{ascii}

abbrev rule : Text
rule = codes "rule-1"

one_queued : Queue
one_queued = (enqueue_rule_sync 5 (codes "op") rule initial).1

entered : Queue
entered = enter_worker_loop one_queued

to_one_queued : Reach initial one_queued
unfolding one_queued
to_one_queued = next here (enqueue initial 5 (codes "op") rule)

to_entered : Reach initial entered
unfolding entered one_queued enqueue_rule_sync is_space text_eq
to_entered = next to_one_queued (enter one_queued refl)

one_queued-running : one_queued.stop_event ≡ false
unfolding one_queued enqueue_rule_sync is_space text_eq
one_queued-running = refl

one_queued-accounted : accounted one_queued ≡ one_queued.total_enqueued
unfolding one_queued enqueue_rule_sync is_space text_eq
one_queued-accounted = refl

one_queued-IsValid : IsValid one_queued
one_queued-IsValid = Reach-IsValid one_queued to_one_queued

Reach-IsValid_example : IsValid entered
Reach-IsValid_example = Reach-IsValid entered to_entered

Reach-IsDistinct_example : IsDistinct entered
Reach-IsDistinct_example = Reach-IsDistinct entered to_entered

enqueue_again : Queue
enqueue_again = (enqueue_rule_sync 6 (codes "op2") (codes " rule-2 ") one_queued).1

enqueue_again_lem :
    (enqueue_again.queued_rule_ids ≡ rule ∷ codes "rule-2" ∷ [])
    × (enqueue_again.total_enqueued ≡ 2)
    × (enqueue_again.queue_operation_id ≡ some (codes "op"))
unfolding enqueue_again one_queued enqueue_rule_sync is_space text_eq
enqueue_again_lem = (refl, refl, refl)

again-running : enqueue_again.stop_event ≡ false
unfolding enqueue_again one_queued enqueue_rule_sync is_space text_eq
again-running = refl

Step-accounted_example : accounted enqueue_again ≡ enqueue_again.total_enqueued
unfolding enqueue_again
Step-accounted_example =
    Step-accounted (enqueue one_queued 6 (codes "op2") (codes " rule-2 ")) again-running
      one_queued-IsValid one_queued-accounted

drains_completely_example : Finishes one_queued
drains_completely_example =
    drains_completely one_queued one_queued-running one_queued-IsValid one_queued-accounted

one_queued-IsDistinct : IsDistinct one_queued
one_queued-IsDistinct = Reach-IsDistinct one_queued to_one_queued

repeat_outcome-backs_off_example :
    (repeat_outcome overloaded (4 + 1) one_queued).adaptive_worker_limit ≡ 1
repeat_outcome-backs_off_example = repeat_outcome-backs_off 1 one_queued-IsValid

backoff_markers :
    (is_backoff_error (codes "Read TIMED OUT") ≡ true)
    × (is_backoff_error (codes "Rule not found.") ≡ false)
unfolding is_backoff_error
backoff_markers = (refl, refl)

abbrev listed : OperationRecord
listed = record {
  operation_id = codes "op";
  operation_type = codes "qb_sync";
  label = codes "Syncing qBittorrent rules";
  status = codes "running";
  current = 0;
  total = some 1;
  message = [];
  errors = [];
  started_at = 5;
  updated_at = 5;
  completed_at = none;
}

abbrev last_running : Queue
last_running = record initial {
  total_enqueued = 1;
  active_tasks = 1;
  executor = true;
  submitted = rule ∷ [];
  worker_thread = looping;
  queue_operation_id = some (codes "op");
  feeds_prepared = true;
  operations = (codes "op", listed) ∷ [];
}

abbrev row : RuleRow
row = record { last_sync_status = never; last_sync_error = none }

abbrev rules : Rules
rules = (rule, row) ∷ []

-- A service that raises.
abbrev raising : Bool → Text → Rules → Attempt
raising reconcile id rules = raised (codes "connection refused") rules

abbrev marked : Rules
marked = Dict.insert rule (record { last_sync_status = syncing; last_sync_error = none }) rules

process_rule_sync_raised_example :
    ((process_rule_sync raising 9 (codes "op") none rule true rules []).outcome
      ≡ record { success = false; should_backoff = is_backoff_error (codes "connection refused") })
    × (Dict.get rule (process_rule_sync raising 9 (codes "op") none rule true rules []).rules ≡ (
        if rule == rule
        then Option.map
            (λ r. record {
              last_sync_status = error;
              last_sync_error = some (codes "connection refused");
            })
            (Dict.get rule marked)
        else Dict.get rule marked))
process_rule_sync_raised_example =
    process_rule_sync_raised raising 9 (codes "op") none rule true rules [] row
      (codes "connection refused") marked rule (unfold Dict.get text_eq in refl) refl
