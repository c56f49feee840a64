-- ===== src/RuleFetchQueue/Released.antt =====
-- The set of app/services/rule_fetch_queue.py holds nothing but the rules that wait or are fetched.
use q_bittorrent_rss_rules.Prelude.{
  ◌≡◌, refl, subst, inl, inr, Bool, true, not, ◌||◌, List, [], ◌∷◌, arith, is_empty, contains, ◌==◌,
  text_eq, Bool-cases,
}
use q_bittorrent_rss_rules.Prelude.Text.{Text, strip}
use q_bittorrent_rss_rules.Prelude.Members.{contains-snoc, contains-discard}
use q_bittorrent_rss_rules.RuleFetchQueue.{
  FetchQueue, at_top, fetching, start_rule_fetch_queue, begin_stop_fetches, finish_stop_fetches,
  enqueue_rule_fetch, take_next, finish_fetch, append_rule, pop_rule, initial_fetch_queue,
}
use q_bittorrent_rss_rules.RuleFetchQueue.Machine.{
  FetchStep, enqueue, start, stop, joined, take, finish, die, IsDeath, FetchReach, here, next,
  IsSafe,
}
use q_bittorrent_rss_rules.RuleFetchQueue.Invariant.{in_work, idle}

-- Every member of the set waits or is fetched.
abbrev pub IsReleased : FetchQueue → Type 0
IsReleased q =
    (a : Text)
    → (not (contains q.rule_id_set a) || contains q.rule_ids a || in_work q.worker a) ≡ true

append-IsReleased : (id : Text) (q : FetchQueue) → IsReleased q → IsReleased (append_rule id q)
append-IsReleased id q t a = ground (arith, t a, contains-snoc q.rule_ids id a)

enqueue-IsReleased :
    (rule_id : Text) (q : FetchQueue) → IsReleased q → IsReleased (enqueue_rule_fetch rule_id q).1
unfolding enqueue_rule_fetch
enqueue-IsReleased rule_id q t a = elim (Bool-cases (is_empty (strip rule_id))) [
  | inl e ↦ rw e (t a)
  | inr e ↦ elim (Bool-cases q.stop_event) [
    | inl k ↦ rw (e, k) (t a)
    | inr k ↦ elim (Bool-cases (contains q.rule_id_set (strip rule_id))) [
      | inl h ↦ rw (e, k, h) (t a)
      | inr h ↦ rw (e, k, h) (append-IsReleased (strip rule_id) q t a)
    ]
  ]
]

pop-IsReleased :
    (ids : List Text) (q : FetchQueue)
    → q.rule_ids ≡ ids
    → q.worker ≡ at_top
    → IsReleased q
    → IsReleased (pop_rule ids q)
pop-IsReleased [] q e w t a =
    subst (λ w. (not (contains q.rule_id_set a) || contains q.rule_ids a || in_work w a) ≡ true) w
      (t a)
pop-IsReleased (id ∷ ids) q e w t a =
    let h =
      subst (λ ids. (not (contains q.rule_id_set a) || contains ids a || in_work q.worker a) ≡ true)
        e (t a) in
    let k =
      subst (λ w. (not (contains q.rule_id_set a) || contains (id ∷ ids) a || in_work w a) ≡ true) w
        h in
    ground (arith, k)

finish-IsReleased :
    (q : FetchQueue) (id : Text) (retry : Bool)
    → q.worker ≡ fetching id
    → IsReleased q
    → IsReleased (finish_fetch retry id q)
unfolding finish_fetch
finish-IsReleased q id retry w t a =
    let h : (not (contains q.rule_id_set a) || contains q.rule_ids a || a == id) ≡ true =
      subst (λ w. (not (contains q.rule_id_set a) || contains q.rule_ids a || in_work w a) ≡ true) w
        (t a) in
    ground (arith, h, contains-snoc q.rule_ids id a, contains-discard q.rule_id_set id a)

FetchStep-IsReleased :
    {q r : FetchQueue} (step : FetchStep q r) → (IsDeath step → ⊥) → IsReleased q → IsReleased r
unfolding take_next start_rule_fetch_queue begin_stop_fetches finish_stop_fetches
FetchStep-IsReleased (enqueue q rule_id) n t = enqueue-IsReleased rule_id q t
FetchStep-IsReleased (start q h) n t = t
FetchStep-IsReleased (stop q) n t = λ a. refl
FetchStep-IsReleased (joined q k h) n t = λ a. ground (arith, t a, idle q.worker a h)
FetchStep-IsReleased (take q w) n t = λ a. elim (Bool-cases q.stop_event) [
  | inl k ↦ rw k refl
  | inr k ↦ simp k (pop-IsReleased q.rule_ids q refl w t a)
]
FetchStep-IsReleased (finish q rule_id retry w) n t = finish-IsReleased q rule_id retry w t
FetchStep-IsReleased (die q rule_id w) n t = elim (n tt) [ ]

-- Where no thread died, in every state that calls, the worker, start and stop can reach in any order,
-- every rule in the set waits or is fetched, so a rule whose fetch has ended can be enqueued again.
pub FetchReach-IsReleased :
    {q : FetchQueue} (reach : FetchReach initial_fetch_queue q) → IsSafe reach → IsReleased q
FetchReach-IsReleased here safe = λ a. refl
FetchReach-IsReleased (next reach step) (safe, alive) =
    FetchStep-IsReleased step alive (FetchReach-IsReleased reach safe)
