-- ===== src/RuleFetchQueue/Enqueue.antt =====
-- What `enqueue_rule_fetch` answers and leaves (app/services/rule_fetch_queue.py).
use q_bittorrent_rss_rules.Prelude.{
  ◌≡◌, refl, inl, inr, true, false, not, ◌&&◌, ◌||◌, [], ◌∷◌, ◌++◌, arith, is_empty, contains,
  text_eq, if◌then◌else◌, Bool-cases,
}
use q_bittorrent_rss_rules.Prelude.Text.{Text, strip}
use q_bittorrent_rss_rules.RuleFetchQueue.{FetchQueue, is_alive, append_rule, enqueue_rule_fetch}

alive : (q : FetchQueue) (id : Text) → is_alive (append_rule id q).worker ≡ true
alive q id = ground arith

-- A call is accepted exactly if the name is not blank, the queue is not stopped and the rule is not in
-- the set; then the rule waits at the end and is in the set, and a worker lives; a refused call leaves
-- the deque. Of two calls for one rule in a row the second is refused.
pub enqueue_rule_fetch_lem :
    (rule_id : Text) (q : FetchQueue)
    → let id = strip rule_id in
      let accepted = (enqueue_rule_fetch rule_id q).0 in
      let q' = (enqueue_rule_fetch rule_id q).1 in
      (accepted ≡ (not (is_empty id) && (not q.stop_event && not (contains q.rule_id_set id))))
      × (q'.rule_ids ≡ (if accepted then q.rule_ids ++ id ∷ [] else q.rule_ids))
      × ((not accepted || (is_alive q'.worker && contains q'.rule_id_set id)) ≡ true)
      × ((enqueue_rule_fetch rule_id q').0 ≡ false)
unfolding enqueue_rule_fetch
enqueue_rule_fetch_lem rule_id q = elim (Bool-cases (is_empty (strip rule_id))) [
  | inl e ↦ rw e (refl, refl, refl, refl)
  | inr e ↦ elim (Bool-cases q.stop_event) [
    | inl k ↦ rw (e, k) (refl, refl, refl, refl)
    | inr k ↦ elim (Bool-cases (contains q.rule_id_set (strip rule_id))) [
      | inl h ↦ rw (e, k, h) (refl, refl, refl, ground (arith, h))
      | inr h ↦ rw (e, k, h) (refl, refl, ground arith, ground arith)
    ]
  ]
]
