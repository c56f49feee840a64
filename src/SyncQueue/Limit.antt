-- ===== src/SyncQueue/Limit.antt =====
-- How the adaptive limit on parallel tasks moves (app/services/sync_queue.py).
use Prim.Native.Nat.{◌^◌, ◌/◌, max}
use Prim.Native.Nat.add
use native.Mathlib.Nat.{pow-suc}
use q_bittorrent_rss_rules.Prelude.{
  ℕ, zero, suc, ◌+◌, ◌≤◌, ◌<◌, ◌≡◌, refl, true, false, arith, text_eq,
}
use q_bittorrent_rss_rules.SyncQueue.{
  Queue, RuleSyncOutcome, record_sync_outcome_locked, max_sync_worker_limit,
  sync_success_streak_to_increase,
}
use q_bittorrent_rss_rules.SyncQueue.Invariant.{IsValid}

abbrev pub succeeded : RuleSyncOutcome
succeeded = record { success = true; should_backoff = false }

abbrev pub overloaded : RuleSyncOutcome
overloaded = record { success = false; should_backoff = true }

-- The outcomes of so many tasks in a row.
unfoldable pub repeat_outcome : RuleSyncOutcome → ℕ → Queue → Queue
repeat_outcome o zero q = q
repeat_outcome o (suc n) q = repeat_outcome o n (record_sync_outcome_locked o q)

success_step :
    (q : Queue)
    → q.sync_success_streak + 1 < 8
    → ((record_sync_outcome_locked succeeded q).adaptive_worker_limit ≡ q.adaptive_worker_limit)
      × ((record_sync_outcome_locked succeeded q).sync_success_streak ≡ q.sync_success_streak + 1)
unfolding record_sync_outcome_locked
success_step q h = ground arith

success_raise :
    (q : Queue)
    → q.sync_success_streak ≡ 7
    → q.adaptive_worker_limit < max_sync_worker_limit
    → ((record_sync_outcome_locked succeeded q).adaptive_worker_limit ≡ q.adaptive_worker_limit + 1)
      × ((record_sync_outcome_locked succeeded q).sync_success_streak ≡ 0)
unfolding record_sync_outcome_locked
success_raise q h k = ground arith

overload_step :
    (q : Queue)
    → 1 ≤ q.adaptive_worker_limit
    → ((record_sync_outcome_locked overloaded q).adaptive_worker_limit
        ≡ max 1 (q.adaptive_worker_limit / 2))
      × ((record_sync_outcome_locked overloaded q).sync_success_streak ≡ 0)
unfolding record_sync_outcome_locked
overload_step q h = ground arith

-- Below the maximum, the success that completes a streak of eight raises the limit by exactly one
-- and starts a new streak; the successes before it leave the limit alone.
pub repeat_outcome-raises :
    (n : ℕ) (q : Queue)
    → suc n + q.sync_success_streak ≡ sync_success_streak_to_increase
    → q.adaptive_worker_limit < max_sync_worker_limit
    → ((repeat_outcome succeeded n q).adaptive_worker_limit ≡ q.adaptive_worker_limit)
      × ((repeat_outcome succeeded (suc n) q).adaptive_worker_limit ≡ q.adaptive_worker_limit + 1)
      × ((repeat_outcome succeeded (suc n) q).sync_success_streak ≡ 0)
unfolding repeat_outcome
repeat_outcome-raises zero q s l =
    (refl, (success_raise q (omega arith) l).0, (success_raise q (omega arith) l).1)
repeat_outcome-raises (suc n) q s l =
    let r = record_sync_outcome_locked succeeded q in
    let e = success_step q (omega arith) in
    let ih = repeat_outcome-raises n r (omega (arith, e.1)) (omega (arith, e.0)) in
    (omega (arith, ih.0, e.0), omega (arith, ih.1, e.0), omega (arith, ih.2))

repeat_overload_one :
    (n : ℕ) (q : Queue)
    → q.adaptive_worker_limit ≡ 1
    → (repeat_outcome overloaded n q).adaptive_worker_limit ≡ 1
unfolding repeat_outcome
repeat_overload_one zero q e = e
repeat_overload_one (suc n) q e =
    repeat_overload_one n (record_sync_outcome_locked overloaded q)
      (omega (arith, overload_step q (omega arith)))

pow_pos : (k : ℕ) → 0 < 2 ^ k
pow_pos zero = omega arith
pow_pos (suc k) = omega (arith, pow_pos k, pow-suc 2 k)

-- From any limit in its range, `k` failures in a row that ask for less load leave one task at a
-- time, as soon as the limit is below 2 to the power k + 1.
repeat_overload_pow :
    (k : ℕ) (q : Queue)
    → 1 ≤ q.adaptive_worker_limit
    → q.adaptive_worker_limit < 2 ^ (suc k)
    → (repeat_outcome overloaded k q).adaptive_worker_limit ≡ 1
unfolding repeat_outcome
repeat_overload_pow zero q l h = omega arith
repeat_overload_pow (suc k) q l h =
    let e = overload_step q l in
    repeat_overload_pow k (record_sync_outcome_locked overloaded q) (omega (arith, e.0))
      (omega (arith, e.0, pow-suc 2 (suc k), pow-suc 2 k, pow_pos k))

repeat_outcome-add :
    (o : RuleSyncOutcome) (m n : ℕ) (q : Queue)
    → repeat_outcome o (m + n) q ≡ repeat_outcome o n (repeat_outcome o m q)
unfolding repeat_outcome
repeat_outcome-add o zero n q = rw add.zero
repeat_outcome-add o (suc m) n q =
    rw add.suc (repeat_outcome-add o m n (record_sync_outcome_locked o q))

-- In every valid state four failures in a row that ask for less load bring the queue down to one
-- task at a time, and further ones keep it there.
pub repeat_outcome-backs_off :
    (n : ℕ) {q : Queue}
    → IsValid q
    → (repeat_outcome overloaded (4 + n) q).adaptive_worker_limit ≡ 1
repeat_outcome-backs_off n {q} v =
    rw repeat_outcome-add
      (repeat_overload_one n _ (repeat_overload_pow 4 q v.limit_low (omega (arith, v.limit_high))))
