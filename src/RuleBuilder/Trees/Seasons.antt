-- ===== src/RuleBuilder/Trees/Seasons.antt =====
-- The number of a season in a key such as S01E02: two digits before the letter E
-- (app/services/rule_builder.py).
use q_bittorrent_rss_rules.Prelude.{
  ℕ, ◌+◌, ◌*◌, ◌/◌, ◌%◌, ◌≤◌, ◌<◌, ◌≡◌, ap₂, ◌∙◌, inl, inr, Bool, true, false, ◌&&◌, ◌||◌, Option,
  some, [], ◌∷◌, arith, leb, ltb, ◌=?◌, Bool-cases,
}
use q_bittorrent_rss_rules.Prelude.Text.{Text, show, show_digits}
use q_bittorrent_rss_rules.WatchState.Keys.Laws.{show_digits-two}
use q_bittorrent_rss_rules.Prelude.Unicode.{Unicode}
use q_bittorrent_rss_rules.RuleBuilder.Regex.{
  Class, lit, digit, from_to, Follow, matches, match_char, match_many, in_class,
}
use q_bittorrent_rss_rules.RuleBuilder.Numbers.{number_regex, tens_regex, last_class}
use q_bittorrent_rss_rules.RuleBuilder.Numbers.Laws.{
  Reads, zero-Reads, is-Reads, from-Reads, digit-Reads,
}
use q_bittorrent_rss_rules.RuleBuilder.Numbers.Range.{last_test, last-Reads, tens_test, nines_test}
use q_bittorrent_rss_rules.RuleBuilder.Trees.{exact}
use q_bittorrent_rss_rules.RuleBuilder.Trees.Laws.{E_digit}

pub show_digit : (n : ℕ) → n < 10 → show n ≡ (b'0' + n) ∷ []
unfolding show show_digits
show_digit n h = ground arith

pub show_two : (n : ℕ) → 10 ≤ n → n < 100 → show n ≡ (b'0' + n / 10) ∷ (b'0' + n % 10) ∷ []
unfolding show
show_two n l h = show_digits-two n l h

pub both_parts :
    (p q p' q' r go : Bool)
    → (p && q || p' && q') ≡ r
    → (p && q && go || p' && q' && go) ≡ (r && go)
both_parts p q p' q' r go h = ground (arith, h)

pub one_part : (p q r go : Bool) → (p && q) ≡ r → (p && q && go) ≡ (r && go)
one_part p q r go h = ground (arith, h)

module _ ⦃u : Unicode⦄ where
  -- A class for digits alone.
  abbrev pub StopsAtE : Class → Type 0
  StopsAtE c = in_class c b'E' ≡ false

  pub lit-StopsAtE : (n : ℕ) → n < 10 → StopsAtE (lit (b'0' + n))
  unfolding in_class
  lit-StopsAtE n h = ground arith

  from-StopsAtE : (a : ℕ) → StopsAtE (from_to a b'9')
  unfolding in_class
  from-StopsAtE a = ground arith

  last-StopsAtE : (o : ℕ) → StopsAtE (last_class o)
  last-StopsAtE o = elim (Bool-cases (o =? 0)) [
    | inl e ↦ rw e E_digit
    | inr e ↦ elim (Bool-cases (o =? 9)) [
      | inl f ↦ rw (e, f) (lit-StopsAtE 9 (omega arith))
      | inr f ↦ rw (e, f) (from-StopsAtE (b'0' + o))
    ]
  ]

  -- What follows the number does not begin with a digit, so both digits are read.
  module _ (a b : ℕ) (ha : a < 10) (hb : b < 10) (k : Follow)
      (stops : (prev : Option ℕ) (d : ℕ) (s : Text) → d < 10 → k prev ((b'0' + d) ∷ s) ≡ false)
      (prev : Option ℕ) (rest : Text) where
    abbrev key_rest : Text
    key_rest = (b'0' + a) ∷ (b'0' + b) ∷ b'E' ∷ rest

    abbrev goes_on : Bool
    goes_on = k (some (b'0' + b)) (b'E' ∷ rest)

    zeros_one :
        (c : Class) (p : ℕ → Bool)
        → Reads c p
        → StopsAtE c
        → match_many (lit b'0') (match_char c k) prev key_rest ≡ ((a =? 0) && p b && goes_on)
    unfolding match_many match_char
    zeros_one c p r s = ground (
      arith,
      r a ha,
      r b hb,
      s,
      lit-StopsAtE 0 (omega arith),
      zero-Reads a ha,
      zero-Reads b hb,
      stops (some (b'0' + a)) b (b'E' ∷ rest) hb,
    )

    zeros_two :
        (c e : Class) (p q : ℕ → Bool)
        → Reads c p
        → Reads e q
        → StopsAtE c
        → StopsAtE e
        → match_many (lit b'0') (match_char c (match_char e k)) prev key_rest
          ≡ (p a && q b && goes_on)
    unfolding match_many match_char
    zeros_two c e p q r t s s' = ground (
      arith,
      r a ha,
      r b hb,
      t b hb,
      s,
      s',
      lit-StopsAtE 0 (omega arith),
      zero-Reads a ha,
      zero-Reads b hb,
    )

    tens_season :
        (n t o : ℕ)
        → n ≡ 10 * t + o
        → t < 10
        → o < 10
        → n < 99
        → matches (tens_regex t o) k prev key_rest ≡ (leb n (10 * a + b) && goes_on)
    unfolding matches
    tens_season n t o p h m c =
        let same =
          zeros_two (lit (b'0' + t)) (last_class o) (λ d. d =? t) (last_test o) (is-Reads t h)
            (last-Reads o m) (lit-StopsAtE t h) (last-StopsAtE o) in
        elim (Bool-cases (ltb t 9)) [
          | inl e ↦
              rw (e, matches)
                (ap₂ ◌||◌ same (
                    zeros_two (from_to (b'0' + (t + 1)) b'9') digit (λ d. leb (t + 1) d) (λ d. true)
                      (from-Reads (t + 1) (ground arith)) digit-Reads
                      (from-StopsAtE (b'0' + (t + 1))) E_digit)
                  ∙ both_parts (a =? t) (last_test o b) (leb (t + 1) a) true _ goes_on
                      (tens_test n t o a b p m (ground arith) ha hb))
          | inr e ↦
              rw (e, matches)
                (same
                  ∙ one_part (a =? t) (last_test o b) _ goes_on
                      (nines_test n t o a b p m (ground arith) ha hb))
        ]

    pub number_season :
        (n : ℕ)
        → 1 ≤ n
        → n ≤ 99
        → matches (number_regex n) k prev key_rest ≡ (leb n (10 * a + b) && goes_on)
    unfolding number_regex matches
    number_season n l m = elim (Bool-cases (n =? 99)) [
      | inl e ↦
          rw (e, matches)
            (zeros_two (lit b'9') (lit b'9') (λ d. d =? 9) (λ d. d =? 9) (is-Reads 9 (omega arith))
                (is-Reads 9 (omega arith)) (lit-StopsAtE 9 (omega arith))
                (lit-StopsAtE 9 (omega arith))
              ∙ ground (arith, e))
      | inr e ↦ elim (Bool-cases (leb n 9)) [
        | inl f ↦
            rw (e, f, matches)
              (ap₂ ◌||◌
                  (zeros_one (from_to (b'0' + n) b'9') (λ d. leb n d) (from-Reads n (ground arith))
                    (from-StopsAtE (b'0' + n)))
                  (zeros_two (from_to (b'0' + 1) b'9') digit (λ d. leb 1 d) (λ d. true)
                    (from-Reads 1 (omega arith)) digit-Reads (from-StopsAtE (b'0' + 1)) E_digit)
                ∙ ground arith)
        | inr f ↦
            rw (e, f)
              (tens_season n (n / 10) (n % 10) (omega arith) (ground arith) (omega arith)
                (ground arith))
      ]
    ]

    pub exact_season :
        (n : ℕ) → n < 100 → matches (exact n) k prev key_rest ≡ ((n =? 10 * a + b) && goes_on)
    unfolding matches
    exact_season n h = elim (Bool-cases (ltb n 10)) [
      | inl e ↦
          rw (show_digit n (ground arith), matches)
            (zeros_one (lit (b'0' + n)) (λ d. d =? n) (is-Reads n (ground arith))
                (lit-StopsAtE n (ground arith))
              ∙ ground (arith, e))
      | inr e ↦
          rw (show_two n (ground arith) h, matches)
            (zeros_two (lit (b'0' + n / 10)) (lit (b'0' + n % 10)) (λ d. d =? n / 10)
                (λ d. d =? n % 10) (is-Reads (n / 10) (ground arith))
                (is-Reads (n % 10) (ground arith)) (lit-StopsAtE (n / 10) (ground arith))
                (lit-StopsAtE (n % 10) (ground arith))
              ∙ ground arith)
    ]
