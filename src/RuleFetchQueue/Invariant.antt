-- ===== src/RuleFetchQueue/Invariant.antt =====
-- The deque, the set and the worker of app/services/rule_fetch_queue.py agree in every reachable state.
use q_bittorrent_rss_rules.Prelude.{
  ◌≡◌, refl, ap, subst, inl, inr, Bool, true, false, not, ◌&&◌, ◌||◌, List, [], ◌∷◌, arith,
  is_empty, contains, ◌==◌, text_eq, Nodup, Bool-cases,
}
use q_bittorrent_rss_rules.Prelude.Text.{Text, strip}
use q_bittorrent_rss_rules.Prelude.Members.{contains-snoc, contains-discard, Nodup-snoc}
use q_bittorrent_rss_rules.RuleFetchQueue.{
  FetchQueue, FetchWorker, no_worker, at_top, died, fetching, is_alive, start_rule_fetch_queue,
  begin_stop_fetches, finish_stop_fetches, enqueue_rule_fetch, take_next, finish_fetch, append_rule,
  pop_rule, initial_fetch_queue,
}
use q_bittorrent_rss_rules.RuleFetchQueue.Machine.{
  FetchStep, enqueue, start, stop, joined, take, finish, die, FetchReach, here, next,
}

-- The rule that the worker has taken.
abbrev pub in_work : FetchWorker → Text → Bool
in_work (fetching id) a = a == id
in_work _ a = false

-- `_WORKER is not None`
abbrev pub has_worker : FetchWorker → Bool
has_worker no_worker = false
has_worker _ = true

-- No rule waits twice or while it is fetched; what waits or is fetched is in the set, unless the queue
-- is stopped, which leaves nothing to do; and rules only wait where there was a worker for them.
pub record IsTracked (q : FetchQueue) : Type 0 where
  pub nodup : Nodup q.rule_ids
  pub apart : (a : Text) → (in_work q.worker a && contains q.rule_ids a) ≡ false
  pub covered :
      (a : Text)
      → (q.stop_event
          || not (contains q.rule_ids a || in_work q.worker a)
          || contains q.rule_id_set a)
        ≡ true
  pub stopped : (not q.stop_event || is_empty q.rule_ids) ≡ true
  pub served : (has_worker q.worker || is_empty q.rule_ids) ≡ true

empty-contains : (xs : List Text) (a : Text) → is_empty xs ≡ true → contains xs a ≡ false
empty-contains [] a h = refl
empty-contains (x ∷ xs) a h = cc

pub idle : (w : FetchWorker) (a : Text) → is_alive w ≡ false → in_work w a ≡ false
idle no_worker a h = refl
idle died a h = refl
idle at_top a h = refl
idle (fetching id) a h = cc

append-IsTracked :
    (id : Text) (q : FetchQueue)
    → contains q.rule_id_set id ≡ false
    → q.stop_event ≡ false
    → IsTracked q
    → IsTracked (record (append_rule id q) { stop_event = false })
append-IsTracked id q h k t = record {
  nodup = Nodup-snoc q.rule_ids id (ground (arith, t.covered id)) t.nodup;
  apart = λ a. ground (arith, t.apart a, t.covered a, contains-snoc q.rule_ids id a);
  covered = λ a. ground (arith, t.covered a, contains-snoc q.rule_ids id a);
  stopped = ground (arith, t.stopped);
  served = ground (arith, t.served, t.stopped);
}

enqueue-IsTracked :
    (rule_id : Text) (q : FetchQueue) → IsTracked q → IsTracked (enqueue_rule_fetch rule_id q).1
unfolding enqueue_rule_fetch
enqueue-IsTracked rule_id q t = elim (Bool-cases (is_empty (strip rule_id))) [
  | inl e ↦ simp e t
  | inr e ↦ elim (Bool-cases q.stop_event) [
    | inl k ↦ simp (e, k) t
    | inr k ↦ elim (Bool-cases (contains q.rule_id_set (strip rule_id))) [
      | inl h ↦ simp (e, k, h) t
      | inr h ↦ simp (e, k, h) (append-IsTracked (strip rule_id) q h k t)
    ]
  ]
]

stop-IsTracked : (q : FetchQueue) → IsTracked (begin_stop_fetches q)
unfolding begin_stop_fetches
stop-IsTracked q = record {
  nodup = tt;
  apart = λ a. ground arith;
  covered = λ a. refl;
  stopped = refl;
  served = ground arith;
}

start-IsTracked :
    (q : FetchQueue)
    → is_alive q.worker ≡ false
    → IsTracked q
    → IsTracked (start_rule_fetch_queue q)
unfolding start_rule_fetch_queue
start-IsTracked q h t = record {
  nodup = t.nodup;
  apart = t.apart;
  covered = λ a. elim (Bool-cases q.stop_event) [
    | inl k ↦
        ground
          (arith, empty-contains q.rule_ids a (ground (arith, t.stopped, k)), idle q.worker a h)
    | inr k ↦ ground (arith, t.covered a)
  ];
  stopped = ground (arith, t.stopped);
  served = t.served;
}

joined-IsTracked :
    (q : FetchQueue)
    → q.stop_event ≡ true
    → is_alive q.worker ≡ false
    → IsTracked q
    → IsTracked (finish_stop_fetches q)
unfolding finish_stop_fetches
joined-IsTracked q k h t = record {
  nodup = t.nodup;
  apart = λ a. ground (arith, t.apart a);
  covered = λ a. ground (arith, k);
  stopped = t.stopped;
  served = ground (arith, t.served, t.stopped);
}

pop-IsTracked :
    (ids : List Text) (q : FetchQueue)
    → q.rule_ids ≡ ids
    → q.stop_event ≡ false
    → q.worker ≡ at_top
    → IsTracked q
    → IsTracked (pop_rule ids q)
pop-IsTracked [] q e k w t = record {
  nodup = t.nodup;
  apart = λ a. refl;
  covered = λ a. ground (arith, t.covered a);
  stopped = t.stopped;
  served = ground (arith, t.served, t.stopped);
}
pop-IsTracked (id ∷ ids) q e k w t = record {
  nodup = (subst Nodup e t.nodup).1;
  apart = λ a. ground (arith, (subst Nodup e t.nodup).0);
  covered = λ a. ground (
    arith,
    k,
    subst
        (λ ids.
          (q.stop_event || not (contains ids a || in_work q.worker a) || contains q.rule_id_set a)
          ≡ true)
        e (t.covered a),
  );
  stopped = ground (arith, t.stopped);
  served = ground (arith, t.served, t.stopped);
}

take_next-IsTracked : (q : FetchQueue) → q.worker ≡ at_top → IsTracked q → IsTracked (take_next q)
unfolding take_next
take_next-IsTracked q w t = elim (Bool-cases q.stop_event) [
  | inl k ↦ rw k record {
    nodup = tt;
    apart = λ a. refl;
    covered = λ a. ground (arith, k);
    stopped = ground (arith, t.stopped);
    served = ground (arith, t.served, t.stopped);
  }
  | inr k ↦ simp k (pop-IsTracked q.rule_ids q refl k w t)
]

finish-IsTracked :
    (q : FetchQueue) (id : Text) (retry : Bool)
    → q.worker ≡ fetching id
    → IsTracked q
    → IsTracked (finish_fetch retry id q)
unfolding finish_fetch
finish-IsTracked q id retry w t =
    let busy : (a : Text) → in_work q.worker a ≡ (a == id) = λ a. ap (λ w. in_work w a) w in
    elim (Bool-cases (retry && not q.stop_event)) [
      | inl k ↦ rw k record {
        nodup = Nodup-snoc q.rule_ids id (ground (arith, t.apart id, busy id)) t.nodup;
        apart = λ a. refl;
        covered = λ a. ground (arith, t.covered a, busy a, contains-snoc q.rule_ids id a);
        stopped = ground (arith, t.stopped);
        served = ground (arith, t.served, t.stopped);
      }
      | inr k ↦ rw k record {
        nodup = t.nodup;
        apart = λ a. refl;
        covered = λ a.
            ground (arith, t.apart a, t.covered a, busy a, contains-discard q.rule_id_set id a);
        stopped = t.stopped;
        served = ground (arith, t.served, t.stopped);
      }
    ]

die-IsTracked : (q : FetchQueue) → IsTracked q → IsTracked (record q { worker = died })
die-IsTracked q t = record {
  nodup = t.nodup;
  apart = λ a. refl;
  covered = λ a. ground (arith, t.covered a);
  stopped = t.stopped;
  served = ground (arith, t.served, t.stopped);
}

FetchStep-IsTracked : {q r : FetchQueue} → FetchStep q r → IsTracked q → IsTracked r
FetchStep-IsTracked (enqueue q rule_id) t = enqueue-IsTracked rule_id q t
FetchStep-IsTracked (start q h) t = start-IsTracked q h t
FetchStep-IsTracked (stop q) t = stop-IsTracked q
FetchStep-IsTracked (joined q k h) t = joined-IsTracked q k h t
FetchStep-IsTracked (take q w) t = take_next-IsTracked q w t
FetchStep-IsTracked (finish q rule_id retry w) t = finish-IsTracked q rule_id retry w t
FetchStep-IsTracked (die q rule_id w) t = die-IsTracked q t

initial-IsTracked : IsTracked initial_fetch_queue
initial-IsTracked = record {
  nodup = tt;
  apart = λ a. refl;
  covered = λ a. refl;
  stopped = refl;
  served = refl;
}

-- In every state that calls, the worker, start and stop can reach in any order, also where the
-- worker's thread dies of an error, no rule waits twice or waits while it is fetched; what waits or
-- is fetched is in the set, unless the queue is stopped and nothing waits; and no rule waits without
-- a worker, unless its thread died.
pub FetchReach-IsTracked : {q : FetchQueue} → FetchReach initial_fetch_queue q → IsTracked q
FetchReach-IsTracked here = initial-IsTracked
FetchReach-IsTracked (next reach step) = FetchStep-IsTracked step (FetchReach-IsTracked reach)
