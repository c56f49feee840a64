-- ===== src/RuleFetchQueue.antt =====
-- app/services/rule_fetch_queue.py: the queue of the initial fetches of new rules, and its worker.
-- Each function is what its namesake does while it holds the lock; `take_next` and `finish_fetch` are the
-- two locked blocks of `_worker_loop`, and `fetch_rule` is what lies between them.
pub mod Machine
pub mod Invariant
pub mod Released
pub mod Drain
pub mod Enqueue
use q_bittorrent_rss_rules.Prelude.{
  Option, none, some, zero, suc, is_empty, ℕ, Bool, true, false, not, ◌&&◌, List, [], ◌∷◌, ◌++◌,
  contains, ◌==◌, text_eq, if◌then◌else◌,
}
use q_bittorrent_rss_rules.Prelude.Text.{Text, codes, strip}
use q_bittorrent_rss_rules.Prelude.Members.{discard}

-- `_WORKER` and where its thread is: at the top of the loop, or between the locked blocks with a rule.
-- `died` is a thread that an exception outside the code's handler has ended.
pub data FetchWorker : Type 0 where
  no_worker at_top died : FetchWorker
  fetching : Text → FetchWorker

pub record FetchQueue : Type 0 where
  pub rule_ids : List Text
  pub rule_id_set : List Text
  pub worker : FetchWorker
  pub stop_event : Bool

abbrev pub initial_fetch_queue : FetchQueue
initial_fetch_queue = record {
  rule_ids = [];
  rule_id_set = [];
  worker = no_worker;
  stop_event = false;
}

-- `_WORKER is not None and _WORKER.is_alive()`
abbrev pub is_alive : FetchWorker → Bool
is_alive no_worker = false
is_alive died = false
is_alive at_top = true
is_alive (fetching id) = true

unfoldable pub start_rule_fetch_queue : FetchQueue → FetchQueue
start_rule_fetch_queue q = record q { stop_event = false }

-- `stop_rule_fetch_queue` before the join, and after it.
unfoldable pub begin_stop_fetches : FetchQueue → FetchQueue
begin_stop_fetches q = record q { stop_event = true; rule_ids = []; rule_id_set = [] }

unfoldable pub finish_stop_fetches : FetchQueue → FetchQueue
finish_stop_fetches q = record q { worker = if is_alive q.worker then q.worker else no_worker }

abbrev append_rule : Text → FetchQueue → FetchQueue
append_rule id q = record q {
  rule_ids = q.rule_ids ++ id ∷ [];
  rule_id_set = id ∷ q.rule_id_set;
  worker = if is_alive q.worker then q.worker else at_top;
}

-- The answer, and the queue that the call leaves.
unfoldable pub enqueue_rule_fetch : Text → FetchQueue → Bool × FetchQueue
unfolding strip
enqueue_rule_fetch rule_id q =
    let normalized = strip rule_id in
    if is_empty normalized
    then (false, q)
    else if q.stop_event
    then (false, q)
    else if contains q.rule_id_set normalized
    then (false, q)
    else (true, append_rule normalized q)

-- The first rule leaves the deque; it stays in the set.
abbrev pop_rule : List Text → FetchQueue → FetchQueue
pop_rule [] q = record q { worker = no_worker }
pop_rule (id ∷ ids) q = record q { rule_ids = ids; worker = fetching id }

unfoldable pub take_next : FetchQueue → FetchQueue
take_next q =
    if q.stop_event
    then record q { rule_ids = []; rule_id_set = []; worker = no_worker }
    else pop_rule q.rule_ids q

-- The end of a fetch.
unfoldable pub finish_fetch : Bool → Text → FetchQueue → FetchQueue
finish_fetch retry id q =
    if retry && not q.stop_event
    then record q { rule_ids = q.rule_ids ++ id ∷ []; worker = at_top }
    else record q { rule_id_set = discard id q.rule_id_set; worker = at_top }

-- What a call of the database layer does: it returns, or it raises an error with a message.
pub data Call (D A : Type 0) : Type 0 where
  returned : D → A → Call D A
  raised : D → Text → Call D A

-- The functions of app/services/rule_fetch_ops.py that the worker calls, on a database `D`: whether
-- the rule is due, the status of its batch, and the record of a failure; and the session's rollback.
pub record Fetcher (D : Type 0) : Type 0 where
  pub select_due_rule_fetches : Text → D → Call D Bool
  pub run_rules_fetch_batch : Text → D → Call D Text
  pub rollback : D → D
  pub record_rule_fetch_failure : Text → Text → D → D

module _ {D : Type 0} (f : Fetcher D) where
  abbrev pub failed : Text → D → Text → D × Bool
  failed id d message = (f.record_rule_fetch_failure id message (f.rollback d), false)

  abbrev pub after_batch : Text → Call D Text → D × Bool
  after_batch id (returned d status) = (d, status == codes "busy")
  after_batch id (raised d message) = failed id d message

  abbrev pub after_select : Text → Call D Bool → D × Bool
  after_select id (returned d due) =
      if due then after_batch id (f.run_rules_fetch_batch id d) else (d, false)
  after_select id (raised d message) = failed id d message

  -- The database after the fetch, and whether it is to be tried again.
  unfoldable pub fetch_rule : Text → D → D × Bool
  fetch_rule id d = after_select id (f.select_due_rule_fetches id d)

  -- `_worker_loop` while nobody else takes the lock: the database and the queue at its return.
  unfoldable pub worker_loop : ℕ → D → FetchQueue → Option (D × FetchQueue)
  unfolding take_next finish_fetch fetch_rule
  worker_loop zero d q = none
  worker_loop (suc fuel) d q = elim (take_next q).worker [
    | fetching id ↦
        worker_loop fuel (fetch_rule id d).0 (finish_fetch (fetch_rule id d).1 id (take_next q))
    | no_worker ↦ some (d, take_next q)
    | at_top ↦ some (d, take_next q)
    | died ↦ some (d, take_next q)
  ]
