-- ===== src/RuleBuilder/Numbers/Laws.antt =====
-- The patterns for numbers match the numbers from their bound on (app/services/rule_builder.py).
use q_bittorrent_rss_rules.Prelude.{
  ℕ, zero, suc, ◌+◌, ◌*◌, ◌≤◌, ◌<◌, ◌≡◌, refl, inl, inr, Bool, true, false, ◌&&◌, ◌||◌, List, [],
  ◌∷◌, map, arith, leb, ◌=?◌, All, Bool-cases, Option, some, ◌==◌, text_eq,
}
use q_bittorrent_rss_rules.Prelude.Text.{Text}
use q_bittorrent_rss_rules.Prelude.Unicode.{Unicode}
use q_bittorrent_rss_rules.RuleBuilder.Regex.{
  Class, lit, digit, from_to, render, match_char, match_many, at_end_only, in_class,
}
use q_bittorrent_rss_rules.RuleBuilder.Numbers.{number_regex, numeric_pattern}

-- To check every number below a bound by evaluation.
unfoldable pub all_below : ℕ → (ℕ → Bool) → Bool
all_below zero p = true
all_below (suc n) p = p n && all_below n p

pub all_below_sound : (n : ℕ) (p : ℕ → Bool) (k : ℕ) → all_below n p ≡ true → k < n → p k ≡ true
unfolding all_below
all_below_sound zero p k h lt = absurd (omega arith)
all_below_sound (suc n) p k h lt = elim (Bool-cases (k =? n)) [
  | inl e ↦ ground (arith, e)
  | inr e ↦ ground (arith, e, all_below_sound n p k)
]

pub rendered : all_below 100 (λ n. render (number_regex n) == numeric_pattern n) ≡ true
unfolding all_below render number_regex numeric_pattern text_eq
rendered = refl

-- The text of a number: its digits.
abbrev pub digits : List ℕ → Text
digits = map (λ d. b'0' + d)

abbrev pub AllDigits : List ℕ → Type 0
AllDigits = All (λ d. d < 10)

-- The value of the digits behind a number that was read already.
abbrev pub value_from : ℕ → List ℕ → ℕ
value_from acc [] = acc
value_from acc (d ∷ ds) = value_from (10 * acc + d) ds

value_from-ge : (acc : ℕ) (ds : List ℕ) → acc ≤ value_from acc ds
value_from-ge acc [] = omega arith
value_from-ge acc (d ∷ ds) = omega (arith, value_from-ge (10 * acc + d) ds)

-- Leading zeros and one digit, or two, with a test for each.
abbrev pub one : (ℕ → Bool) → List ℕ → Bool
one p [] = false
one p (d ∷ []) = p d
one p (d ∷ e ∷ ds) = d =? 0 && one p (e ∷ ds)

abbrev pub two : (ℕ → Bool) → (ℕ → Bool) → List ℕ → Bool
two p q [] = false
two p q (d ∷ []) = false
two p q (d ∷ e ∷ []) = p d && q e
two p q (d ∷ e ∷ f ∷ ds) = d =? 0 && two p q (e ∷ f ∷ ds)

module _ ⦃u : Unicode⦄ where
  abbrev pub Reads : Class → (ℕ → Bool) → Type 0
  Reads c p = (d : ℕ) → d < 10 → in_class c (b'0' + d) ≡ p d

  pub zero-Reads : Reads (lit b'0') (λ d. d =? 0)
  unfolding in_class
  zero-Reads d h = ground arith

  pub is-Reads : (n : ℕ) → n < 10 → Reads (lit (b'0' + n)) (λ d. d =? n)
  unfolding in_class
  is-Reads n k d h = ground arith

  pub from-Reads : (n : ℕ) → n < 10 → Reads (from_to (b'0' + n) b'9') (λ d. leb n d)
  unfolding in_class
  from-Reads n k d h = ground arith

  pub digit-Reads : Reads digit (λ d. true)
  unfolding in_class
  digit-Reads d h = ground (arith, u.decimal_ascii d h)

  pub matches_one :
      (c : Class) (p : ℕ → Bool) (prev : Option ℕ) (ds : List ℕ)
      → Reads c p
      → AllDigits ds
      → match_many (lit b'0') (match_char c at_end_only) prev (digits ds) ≡ one p ds
  unfolding match_many match_char
  matches_one c p prev [] r h = refl
  matches_one c p prev (d ∷ []) r (h, _) = ground (arith, r d h, zero-Reads d h)
  matches_one c p prev (d ∷ e ∷ ds) r (h, hs) =
      ground (arith, zero-Reads d h, matches_one c p (some (b'0' + d)) (e ∷ ds) r hs)

  pub matches_two :
      (c b : Class) (p q : ℕ → Bool) (prev : Option ℕ) (ds : List ℕ)
      → Reads c p
      → Reads b q
      → AllDigits ds
      → match_many (lit b'0') (match_char c (match_char b at_end_only)) prev (digits ds)
        ≡ two p q ds
  unfolding match_many match_char
  matches_two c b p q prev [] r t h = refl
  matches_two c b p q prev (d ∷ []) r t (h, _) = ground (arith, zero-Reads d h)
  matches_two c b p q prev (d ∷ e ∷ []) r t (h, (k, _)) =
      ground (arith, r d h, t e k, zero-Reads d h, zero-Reads e k)
  matches_two c b p q prev (d ∷ e ∷ f ∷ ds) r t (h, hs) =
      ground (arith, zero-Reads d h, matches_two c b p q (some (b'0' + d)) (e ∷ f ∷ ds) r t hs)

-- Leading zeros and two digits with one test for both.
abbrev pub pair : (ℕ → ℕ → Bool) → List ℕ → Bool
pair t [] = false
pair t (d ∷ []) = false
pair t (d ∷ e ∷ []) = t d e
pair t (d ∷ e ∷ f ∷ ds) = d =? 0 && pair t (e ∷ f ∷ ds)

pub two-or :
    (p q p' q' : ℕ → Bool) (ds : List ℕ)
    → (two p q ds || two p' q' ds) ≡ pair (λ d e. p d && q e || p' d && q' e) ds
two-or p q p' q' [] = refl
two-or p q p' q' (d ∷ []) = refl
two-or p q p' q' (d ∷ e ∷ []) = refl
two-or p q p' q' (d ∷ e ∷ f ∷ ds) = ground (arith, two-or p q p' q' (e ∷ f ∷ ds))

pub two_lem : (p q : ℕ → Bool) (ds : List ℕ) → two p q ds ≡ pair (λ d e. p d && q e) ds
two_lem p q [] = refl
two_lem p q (d ∷ []) = refl
two_lem p q (d ∷ e ∷ []) = refl
two_lem p q (d ∷ e ∷ f ∷ ds) = ground (arith, two_lem p q (e ∷ f ∷ ds))

abbrev pub in_bounds : ℕ → ℕ → Bool
in_bounds n v = leb n v && leb v 99

-- Three digits of which the first is not zero make at least 100.
pub big : (d e f n : ℕ) (ds : List ℕ) → in_bounds n (value_from 0 (suc d ∷ e ∷ f ∷ ds)) ≡ false
big d e f n ds = ground (arith, value_from-ge (10 * (10 * (10 * 0 + suc d) + e) + f) ds)

pub pair_lem :
    (n : ℕ) (t : ℕ → ℕ → Bool) (ds : List ℕ)
    → 10 ≤ n
    → ((d e : ℕ) → d < 10 → e < 10 → t d e ≡ leb n (10 * d + e))
    → AllDigits ds
    → pair t ds ≡ in_bounds n (value_from 0 ds)
pair_lem n t [] b h a = ground arith
pair_lem n t (d ∷ []) b h (k, _) = ground arith
pair_lem n t (d ∷ e ∷ []) b h (k, (l, _)) = ground (arith, h d e k l)
pair_lem n t (zero ∷ e ∷ f ∷ ds) b h (k, a) = pair_lem n t (e ∷ f ∷ ds) b h a
pair_lem n t (suc d ∷ e ∷ f ∷ ds) b h a = rw (big d e f n ds) (ground arith)

pub low_lem :
    (n : ℕ) (ds : List ℕ)
    → 1 ≤ n
    → n ≤ 9
    → AllDigits ds
    → (one (λ d. leb n d) ds || two (λ d. leb 1 d) (λ d. true) ds) ≡ in_bounds n (value_from 0 ds)
low_lem n [] b c a = ground arith
low_lem n (d ∷ []) b c (k, _) = ground arith
low_lem n (d ∷ e ∷ []) b c (k, (l, _)) = ground arith
low_lem n (zero ∷ e ∷ f ∷ ds) b c (k, a) = low_lem n (e ∷ f ∷ ds) b c a
low_lem n (suc d ∷ e ∷ f ∷ ds) b c a = rw (big d e f n ds) (ground arith)
