-- ===== src/RuleBuilder/Trees/Episodes.antt =====
-- The number of an episode at the end of a key such as S01E02 (app/services/rule_builder.py).
use q_bittorrent_rss_rules.Prelude.{
  ℕ, ◌+◌, ◌*◌, ◌/◌, ◌%◌, ◌≤◌, ◌<◌, min, max, ◌≡◌, ap, ap₂, ◌∙◌, inl, inr, Bool, true, ◌&&◌, ◌||◌,
  Option, [], ◌∷◌, arith, leb, ltb, ◌=?◌, Bool-cases,
}
use q_bittorrent_rss_rules.Prelude.Text.{Text}
use q_bittorrent_rss_rules.Prelude.Unicode.{Unicode}
use q_bittorrent_rss_rules.RuleBuilder.Regex.{
  Class, lit, digit, from_to, matches, match_char, match_many, done,
}
use q_bittorrent_rss_rules.RuleBuilder.Numbers.{
  number_regex, tens_regex, last_class, min_1_to_99, min_0_to_99, bounded,
}
use q_bittorrent_rss_rules.RuleBuilder.Numbers.Laws.{
  Reads, zero-Reads, is-Reads, from-Reads, digit-Reads,
}
use q_bittorrent_rss_rules.RuleBuilder.Numbers.Range.{last_test, last-Reads, tens_test, nines_test}
use q_bittorrent_rss_rules.RuleBuilder.Trees.Keys.{any_number-done}

module _ ⦃u : Unicode⦄ (a b : ℕ) (ha : a < 10) (hb : b < 10) (prev : Option ℕ) where
  abbrev two_digits : Text
  two_digits = (b'0' + a) ∷ (b'0' + b) ∷ []

  last_one :
      (c : Class) (p : ℕ → Bool)
      → Reads c p
      → match_many (lit b'0') (match_char c done) prev two_digits ≡ (p a || (a =? 0) && p b)
  unfolding match_many match_char
  last_one c p r = ground (arith, r a ha, r b hb, zero-Reads a ha, zero-Reads b hb)

  last_two :
      (c e : Class) (p q : ℕ → Bool)
      → Reads c p
      → Reads e q
      → match_many (lit b'0') (match_char c (match_char e done)) prev two_digits ≡ (p a && q b)
  unfolding match_many match_char
  last_two c e p q r t = ground (arith, r a ha, r b hb, t b hb, zero-Reads a ha, zero-Reads b hb)

  tens_last :
      (n t o : ℕ)
      → n ≡ 10 * t + o
      → t < 10
      → o < 10
      → n < 99
      → matches (tens_regex t o) done prev two_digits ≡ leb n (10 * a + b)
  unfolding matches
  tens_last n t o p h m c =
      let same =
        last_two (lit (b'0' + t)) (last_class o) (λ d. d =? t) (last_test o) (is-Reads t h)
          (last-Reads o m) in
      elim (Bool-cases (ltb t 9)) [
        | inl e ↦
            rw (e, matches)
              (ap₂ ◌||◌ same (
                  last_two (from_to (b'0' + (t + 1)) b'9') digit (λ d. leb (t + 1) d) (λ d. true)
                    (from-Reads (t + 1) (ground arith)) digit-Reads)
                ∙ tens_test n t o a b p m (ground arith) ha hb)
        | inr e ↦ rw (e, matches) (same ∙ nines_test n t o a b p m (ground arith) ha hb)
      ]

  number_last :
      (n : ℕ) → 1 ≤ n → n ≤ 99 → matches (number_regex n) done prev two_digits ≡ leb n (10 * a + b)
  unfolding number_regex matches
  number_last n l m = elim (Bool-cases (n =? 99)) [
    | inl e ↦
        rw (e, matches)
          (last_two (lit b'9') (lit b'9') (λ d. d =? 9) (λ d. d =? 9) (is-Reads 9 (omega arith))
              (is-Reads 9 (omega arith))
            ∙ ground (arith, e))
    | inr e ↦ elim (Bool-cases (leb n 9)) [
      | inl f ↦
          rw (e, f, matches)
            (ap₂ ◌||◌
                (last_one (from_to (b'0' + n) b'9') (λ d. leb n d) (from-Reads n (ground arith)))
                (last_two (from_to (b'0' + 1) b'9') digit (λ d. leb 1 d) (λ d. true)
                  (from-Reads 1 (omega arith)) digit-Reads)
              ∙ ground arith)
      | inr f ↦
          rw (e, f)
            (tens_last n (n / 10) (n % 10) (omega arith) (ground arith) (omega arith)
              (ground arith))
    ]
  ]

  pub min_last :
      (n : ℕ) → n ≤ 99 → matches (min_0_to_99 n) done prev two_digits ≡ leb n (10 * a + b)
  unfolding min_0_to_99 min_1_to_99 bounded
  min_last n h = elim (Bool-cases (leb (bounded true n) 0)) [
    | inl e ↦ rw e (any_number-done prev a b ha hb ∙ ground (arith, e))
    | inr e ↦ rw e (
        number_last (max 1 (min 99 (bounded true n))) (omega arith) (omega arith)
        ∙ ap (λ m. leb m (10 * a + b)) (ground (arith, e)))
  ]
