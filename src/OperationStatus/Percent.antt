-- ===== src/OperationStatus/Percent.antt =====
-- `_percent` and the summary of `operations_status_payload` (app/services/operation_status.py).
use q_bittorrent_rss_rules.Prelude.{
  ℕ, zero, suc, ◌≤◌, ◌<◌, ◌≡◌, ◌↔◌, Bool, true, some, List, [], ◌∷◌, arith, keep_if, length, any,
}
use q_bittorrent_rss_rules.OperationStatus.{
  OperationPayload, Summary, percent, summarize, sum_totals, sum_currents, is_active,
}

module _ (round_percent : ℕ → ℕ → ℕ) where
  -- For an operation with a known total the percentage is at most 100, whatever the float quotient
  -- rounds to, and it is 100 exactly when the current count has reached the total.
  pub percent_bounds :
      (current total p : ℕ)
      → percent round_percent current (some total) ≡ some p
      → (p ≤ 100) × ((p ≡ 100) ↔ (total ≤ current))
  unfolding percent
  percent_bounds current zero p h = absurd (ground arith)
  percent_bounds current (suc t) p h = ground arith

sum_currents-le-sum_totals : (ps : List OperationPayload) → sum_currents ps ≤ sum_totals ps
unfolding sum_currents sum_totals
sum_currents-le-sum_totals [] = omega arith
sum_currents-le-sum_totals (p ∷ ps) = omega (arith, sum_currents-le-sum_totals ps)

length-keep_if-le {ℓ} :
    {A : Type ℓ} (p : A → Bool) (xs : List A) → length (keep_if p xs) ≤ length xs
length-keep_if-le p [] = omega arith
length-keep_if-le p (x ∷ xs) = ground (arith, length-keep_if-le p xs)

any-iff_pos {ℓ} :
    {A : Type ℓ} (p : A → Bool) (xs : List A) → (any p xs ≡ true) ↔ (0 < length (keep_if p xs))
any-iff_pos p [] = ground arith
any-iff_pos p (x ∷ xs) = ground (arith, any-iff_pos p xs)

module _ (round_percent : ℕ → ℕ → ℕ) (ps : List OperationPayload) where
  abbrev s : Summary
  s = summarize round_percent ps

  -- In every summary the current count is at most the total and the active operations are at most
  -- the listed ones; it says that work is running exactly when some listed operation is active.
  pub summarize_bounds :
      (s.current ≤ s.total)
      × (s.active_count ≤ s.operation_count)
      × ((s.is_running ≡ true) ↔ (0 < s.active_count))
  unfolding summarize
  summarize_bounds =
      (sum_currents-le-sum_totals _, length-keep_if-le is_active ps, any-iff_pos is_active ps)
