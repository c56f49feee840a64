-- ===== src/Tests/RuleFetchQueue.antt =====
-- app/services/rule_fetch_queue.py on concrete calls and a worker whose batches are busy at first.
use q_bittorrent_rss_rules.Prelude.{
  ℕ, zero, suc, ◌≡◌, refl, Bool, List, true, false, some, [], ◌∷◌, text_eq, not, ◌&&◌, ◌||◌, ◌++◌,
  contains, if◌then◌else◌, is_empty,
}
use q_bittorrent_rss_rules.Prelude.Text.{Text, codes, strip, is_space}
use q_bittorrent_rss_rules.RuleFetchQueue.{
  FetchQueue, died, initial_fetch_queue, enqueue_rule_fetch, take_next, Fetcher, Call, returned,
  worker_loop, no_worker, is_alive,
}
use q_bittorrent_rss_rules.RuleFetchQueue.Machine.{FetchReach, here, next, enqueue}
use q_bittorrent_rss_rules.RuleFetchQueue.Invariant.{IsTracked, FetchReach-IsTracked}
use q_bittorrent_rss_rules.RuleFetchQueue.Released.{IsReleased, FetchReach-IsReleased}
use q_bittorrent_rss_rules.RuleFetchQueue.Enqueue.{enqueue_rule_fetch_lem}

abbrev two_calls : FetchQueue
two_calls =
    (enqueue_rule_fetch (codes " b ") (enqueue_rule_fetch (codes "a") initial_fetch_queue).1).1

two_wait : two_calls.rule_ids ≡ codes "a" ∷ codes "b" ∷ []
unfolding enqueue_rule_fetch is_space text_eq
two_wait = refl

-- A rule whose fetch has killed the thread stays in the set, so it is refused from then on.
refused_after_death :
    (enqueue_rule_fetch
      (codes "a")
      (record (take_next (enqueue_rule_fetch (codes "a") initial_fetch_queue).1) {
        worker = died;
      })).0
    ≡ false
unfolding enqueue_rule_fetch is_space take_next text_eq
refused_after_death = refl

-- A database that counts how many batches are busy still, and holds the rules with a result.
abbrev Snapshots : Type 0
Snapshots = ℕ × List Text

abbrev has_result : Text → Snapshots → Bool
has_result id d = contains d.1 id

abbrev run_batch : Text → Snapshots → Call Snapshots Text
run_batch id (zero, ids) = returned (zero, id ∷ ids) (codes "ok")
run_batch id (suc n, ids) = returned (n, ids) (codes "busy")

abbrev counting : Fetcher Snapshots
counting = record {
  select_due_rule_fetches = λ id d. returned d (not (has_result id d));
  run_rules_fetch_batch = run_batch;
  rollback = λ d. d;
  record_rule_fetch_failure = λ id message d. (d.0, id ∷ d.1);
}

busy_once :
    worker_loop counting 4 (1, []) two_calls
    ≡ some (
      (0, codes "a" ∷ codes "b" ∷ []),
      record { rule_ids = []; rule_id_set = []; worker = no_worker; stop_event = false },
    )
unfolding worker_loop enqueue_rule_fetch is_space text_eq
busy_once = refl

abbrev called :
    FetchReach initial_fetch_queue (enqueue_rule_fetch (codes "a") initial_fetch_queue).1
called = next here (enqueue initial_fetch_queue (codes "a"))

FetchReach-IsTracked_example : IsTracked (enqueue_rule_fetch (codes "a") initial_fetch_queue).1
FetchReach-IsTracked_example = FetchReach-IsTracked called

FetchReach-IsReleased_example : IsReleased (enqueue_rule_fetch (codes "a") initial_fetch_queue).1
FetchReach-IsReleased_example = FetchReach-IsReleased called (tt, λ h. h)

abbrev waiting : FetchQueue
waiting = record {
  rule_ids = codes "a" ∷ codes "b" ∷ [];
  rule_id_set = codes "a" ∷ codes "b" ∷ [];
  worker = no_worker;
  stop_event = false;
}

enqueue_rule_fetch_lem_example :
    ((enqueue_rule_fetch (codes "b") waiting).0 ≡ (
      not (is_empty (strip (codes "b")))
      && (not waiting.stop_event && not (contains waiting.rule_id_set (strip (codes "b"))))))
    × ((enqueue_rule_fetch (codes "b") waiting).1.rule_ids ≡ (
        if (enqueue_rule_fetch (codes "b") waiting).0
        then waiting.rule_ids ++ strip (codes "b") ∷ []
        else waiting.rule_ids))
    × ((not (enqueue_rule_fetch (codes "b") waiting).0
          || (is_alive (enqueue_rule_fetch (codes "b") waiting).1.worker
              && contains
                  (enqueue_rule_fetch (codes "b") waiting).1.rule_id_set
                  (strip (codes "b"))))
        ≡ true)
    × ((enqueue_rule_fetch (codes "b") (enqueue_rule_fetch (codes "b") waiting).1).0 ≡ false)
enqueue_rule_fetch_lem_example = enqueue_rule_fetch_lem (codes "b") waiting
