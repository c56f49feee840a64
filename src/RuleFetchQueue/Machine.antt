-- ===== src/RuleFetchQueue/Machine.antt =====
-- The interleavings of app/services/rule_fetch_queue.py: callers, the worker, start and stop, one
-- locked block at a time. The application calls `stop_rule_fetch_queue` on shutdown, which joins the
-- thread, so no start falls between a stop and the end of the thread.
use q_bittorrent_rss_rules.Prelude.{◌≡◌, Bool, true, false}
use q_bittorrent_rss_rules.Prelude.Text.{Text}
use q_bittorrent_rss_rules.RuleFetchQueue.{
  FetchQueue, at_top, died, fetching, is_alive, start_rule_fetch_queue, begin_stop_fetches,
  finish_stop_fetches, enqueue_rule_fetch, take_next, finish_fetch,
}

pub data FetchStep : FetchQueue → FetchQueue → Type 0 where
  enqueue : (q : FetchQueue) (rule_id : Text) → FetchStep q (enqueue_rule_fetch rule_id q).1
  start : (q : FetchQueue) → is_alive q.worker ≡ false → FetchStep q (start_rule_fetch_queue q)
  stop : (q : FetchQueue) → FetchStep q (begin_stop_fetches q)
  joined :
      (q : FetchQueue)
      → q.stop_event ≡ true
      → is_alive q.worker ≡ false
      → FetchStep q (finish_stop_fetches q)
  take : (q : FetchQueue) → q.worker ≡ at_top → FetchStep q (take_next q)
  finish :
      (q : FetchQueue) (rule_id : Text) (retry : Bool)
      → q.worker ≡ fetching rule_id
      → FetchStep q (finish_fetch retry rule_id q)
  -- An exception that the code does not catch: no session, or a failure that cannot be recorded.
  die :
      (q : FetchQueue) (rule_id : Text)
      → q.worker ≡ fetching rule_id
      → FetchStep q (record q { worker = died })

abbrev pub IsDeath : {q r : FetchQueue} → FetchStep q r → Type 0
IsDeath (die q rule_id h) = Unit
IsDeath _ = ⊥

pub data FetchReach (q : FetchQueue) : FetchQueue → Type 0 where
  here : FetchReach q q
  next : {r s : FetchQueue} → FetchReach q r → FetchStep r s → FetchReach q s

-- No thread died on the way.
abbrev pub IsSafe : {q r : FetchQueue} → FetchReach q r → Type 0
IsSafe here = Unit
IsSafe (next reach step) = IsSafe reach × (IsDeath step → ⊥)
