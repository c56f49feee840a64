-- ===== src/RuleBuilder/Numbers/Range.antt =====
-- The patterns for numbers match the numbers from their bound to 99 (app/services/rule_builder.py).
use q_bittorrent_rss_rules.Prelude.{
  ℕ, zero, suc, ◌+◌, ◌*◌, ◌/◌, ◌%◌, ◌≤◌, ◌<◌, min, max, ◌≡◌, refl, ap, ap₂, ◌∙◌, inl, inr, Bool,
  true, ◌&&◌, ◌||◌, Option, none, some, List, [], ◌∷◌, arith, leb, ltb, ◌=?◌, if◌then◌else◌,
  Bool-cases, ◌==◌, text_eq,
}
use q_bittorrent_rss_rules.Prelude.Unicode.{Unicode}
use q_bittorrent_rss_rules.RuleBuilder.Regex.{
  lit, digit, from_to, render, matches, match_char, match_many, full_match, at_end_only, either,
}
use q_bittorrent_rss_rules.RuleBuilder.Numbers.{
  build_min_numeric_pattern_1_to_99, build_min_numeric_pattern_0_to_99, numeric_pattern,
  number_regex, min_1_to_99, min_0_to_99, bounded, tens_regex, last_class,
}
use q_bittorrent_rss_rules.RuleBuilder.Numbers.Laws.{
  all_below_sound, rendered, digits, AllDigits, value_from, in_bounds, two-or, two_lem, pair_lem,
  low_lem, big, Reads, is-Reads, from-Reads, digit-Reads, matches_one, matches_two, zero-Reads,
}

number_regex-render : (n : ℕ) → n < 100 → render (number_regex n) ≡ numeric_pattern n
number_regex-render n h =
    ground
      (arith, all_below_sound 100 (λ n. render (number_regex n) == numeric_pattern n) n rendered h)

pub min_1_to_99-render :
    (value : ℕ) → render (min_1_to_99 value) ≡ build_min_numeric_pattern_1_to_99 value
unfolding min_1_to_99 build_min_numeric_pattern_1_to_99
min_1_to_99-render value = number_regex-render (max 1 (min 99 value)) (omega arith)

pub min_0_to_99-render :
    (value : ℕ) → render (min_0_to_99 value) ≡ build_min_numeric_pattern_0_to_99 value
unfolding min_0_to_99 build_min_numeric_pattern_0_to_99 render
min_0_to_99-render value = elim (Bool-cases (leb (bounded true value) 0)) [
  | inl e ↦ rw (e, render) refl
  | inr e ↦ rw e (min_1_to_99-render (bounded true value))
]

module _ ⦃u : Unicode⦄ where
  -- The test of the last digit in the first part of the pattern.
  abbrev pub last_test : ℕ → ℕ → Bool
  last_test ones e = if ones =? 0 then true else if ones =? 9 then e =? 9 else leb ones e

  pub last-Reads : (o : ℕ) → o < 10 → Reads (last_class o) (last_test o)
  last-Reads o k = elim (Bool-cases (o =? 0)) [
    | inl e ↦ rw e digit-Reads
    | inr e ↦ elim (Bool-cases (o =? 9)) [
      | inl f ↦ rw (e, f) (is-Reads 9 (omega arith))
      | inr f ↦ rw (e, f) (from-Reads o k)
    ]
  ]

  -- The two parts of the pattern together.
  pub tens_test :
      (n t o d e : ℕ)
      → n ≡ 10 * t + o
      → o < 10
      → t < 9
      → d < 10
      → e < 10
      → ((d =? t) && last_test o e || leb (t + 1) d && true) ≡ leb n (10 * d + e)
  tens_test n t o d e p h k l m = ground arith

  pub nines_test :
      (n t o d e : ℕ)
      → n ≡ 10 * t + o
      → o < 10
      → t ≡ 9
      → d < 10
      → e < 10
      → ((d =? t) && last_test o e) ≡ leb n (10 * d + e)
  nines_test n t o d e p h k l m = ground arith

  tens_full :
      (n t o : ℕ) (ds : List ℕ)
      → n ≡ 10 * t + o
      → 1 ≤ t
      → t < 10
      → o < 10
      → n < 99
      → AllDigits ds
      → full_match (tens_regex t o) (digits ds) ≡ in_bounds n (value_from 0 ds)
  unfolding full_match
  tens_full n t o ds p b h k c a =
      let same =
        matches_two (lit (b'0' + t)) (last_class o) (λ d. d =? t) (last_test o) none ds
          (is-Reads t h) (last-Reads o k) a in
      elim (Bool-cases (ltb t 9)) [
        | inl e ↦
            rw (e, matches)
              (ap₂ ◌||◌ same (
                  matches_two (from_to (b'0' + (t + 1)) b'9') digit (λ d. leb (t + 1) d) (λ d. true)
                    none ds (from-Reads (t + 1) (ground arith)) digit-Reads a)
                ∙ two-or (λ d. d =? t) (last_test o) (λ d. leb (t + 1) d) (λ d. true) ds
                ∙ pair_lem n _ ds (omega arith)
                    (λ d e' l m. tens_test n t o d e' p k (ground arith) l m) a)
        | inr e ↦
            rw (e, matches)
              (same
                ∙ two_lem (λ d. d =? t) (last_test o) ds
                ∙ pair_lem n _ ds (omega arith)
                    (λ d e' l m. nines_test n t o d e' p k (ground arith) l m) a)
      ]

  number_regex-full :
      (n : ℕ) (ds : List ℕ)
      → 1 ≤ n
      → n ≤ 99
      → AllDigits ds
      → full_match (number_regex n) (digits ds) ≡ in_bounds n (value_from 0 ds)
  unfolding full_match number_regex
  number_regex-full n ds b c a = elim (Bool-cases (n =? 99)) [
    | inl e ↦
        rw (e, matches)
          (matches_two (lit (b'0' + 9)) (lit (b'0' + 9)) (λ d. d =? 9) (λ d. d =? 9) none ds
              (is-Reads 9 (omega arith)) (is-Reads 9 (omega arith)) a
            ∙ two_lem (λ d. d =? 9) (λ d. d =? 9) ds
            ∙ pair_lem n _ ds (ground arith) (λ d e' l m. ground (arith, e)) a)
    | inr e ↦ elim (Bool-cases (leb n 9)) [
      | inl f ↦
          rw (e, f, matches)
            (ap₂ ◌||◌
                (matches_one (from_to (b'0' + n) b'9') (λ d. leb n d) none ds
                  (from-Reads n (ground arith)) a)
                (matches_two (from_to (b'0' + 1) b'9') digit (λ d. leb 1 d) (λ d. true) none ds
                  (from-Reads 1 (omega arith)) digit-Reads a)
              ∙ low_lem n ds b (ground arith) a)
      | inr f ↦
          rw (e, f)
            (tens_full n (n / 10) (n % 10) ds (omega arith) (ground arith) (omega (arith, c))
              (omega arith) (ground arith) a)
    ]
  ]

  -- On a text of digits, with any leading zeros, the pattern for a bound matches exactly the numbers
  -- from the bound, taken between 1 and 99, to 99; and the text that the code writes is that of the
  -- pattern.
  pub min_1_to_99_lem :
      (value : ℕ) (ds : List ℕ)
      → AllDigits ds
      → (render (min_1_to_99 value) ≡ build_min_numeric_pattern_1_to_99 value)
        × (full_match (min_1_to_99 value) (digits ds)
            ≡ in_bounds (max 1 (min 99 value)) (value_from 0 ds))
  unfolding min_1_to_99 build_min_numeric_pattern_1_to_99
  min_1_to_99_lem value ds a = (
    min_1_to_99-render value,
    number_regex-full (max 1 (min 99 value)) ds (omega arith) (omega arith) a,
  )

  up_to_two :
      (prev : Option ℕ) (d : ℕ) (ds : List ℕ)
      → AllDigits (d ∷ ds)
      → match_many
          (lit b'0')
          (match_char digit (either (match_char digit at_end_only) at_end_only))
          prev
          (digits (d ∷ ds))
        ≡ in_bounds 0 (value_from 0 (d ∷ ds))
  unfolding match_many match_char
  up_to_two prev d [] (k, _) = ground (arith, digit-Reads d k, zero-Reads d k)
  up_to_two prev d (e ∷ []) (k, (l, _)) =
      ground (arith, digit-Reads d k, zero-Reads d k, digit-Reads e l, zero-Reads e l)
  up_to_two prev zero (e ∷ f ∷ ds) (k, (l, a)) = ground (
    arith,
    digit-Reads 0 k,
    zero-Reads 0 k,
    digit-Reads e l,
    zero-Reads e l,
    up_to_two (some (b'0' + 0)) e (f ∷ ds) (l, a),
  )
  up_to_two prev (suc d) (e ∷ f ∷ ds) (k, (l, a)) =
      ground (arith, digit-Reads (suc d) k, zero-Reads (suc d) k, digit-Reads e l, big d e f 0 ds)

  -- On at least one digit, with any leading zeros, the pattern for a bound that may be 0 matches exactly
  -- the numbers from the bound, taken to 99 at most, to 99; and the text that the code writes is that
  -- of the pattern.
  pub min_0_to_99_lem :
      (value d : ℕ) (ds : List ℕ)
      → AllDigits (d ∷ ds)
      → (render (min_0_to_99 value) ≡ build_min_numeric_pattern_0_to_99 value)
        × (full_match (min_0_to_99 value) (digits (d ∷ ds))
            ≡ in_bounds (min 99 value) (value_from 0 (d ∷ ds)))
  unfolding min_0_to_99 build_min_numeric_pattern_0_to_99 full_match bounded render
  min_0_to_99_lem value d ds a = elim (Bool-cases (leb (bounded true value) 0)) [
    | inl e ↦
        (let z : min 99 value ≡ 0 = ground (arith, e) in
          (min_0_to_99-render value, rw (e, z, matches) (up_to_two none d ds a)))
    | inr e ↦
        (let z : max 1 (min 99 (bounded true value)) ≡ min 99 value = ground (arith, e) in
          let (_, full) = min_1_to_99_lem (bounded true value) (d ∷ ds) a in
          (min_0_to_99-render value, rw e (full ∙ ap (λ n. in_bounds n (value_from 0 (d ∷ ds))) z)))
  ]
