-- ===== src/RuleBuilder/Trees/Laws.antt =====
-- How the pieces of the fragments read a key such as S01E02 (app/services/rule_builder.py).
use q_bittorrent_rss_rules.Prelude.{ℕ, ◌+◌, ◌<◌, ◌≡◌, true, false, Option, some, ◌∷◌, arith}
use q_bittorrent_rss_rules.Prelude.Text.{Text}
use q_bittorrent_rss_rules.Prelude.Unicode.{Unicode}
use q_bittorrent_rss_rules.RuleBuilder.Regex.{
  lit, digit, separator, colon_separator, Follow, matches, match_char, match_many, in_class,
}
use q_bittorrent_rss_rules.RuleBuilder.Trees.{separators, season_prefix, episode_prefix, no_digit}

module _ ⦃u : Unicode⦄ where
  -- A digit is none of the other characters.
  pub digit_class :
      (d : ℕ)
      → d < 10
      → (in_class digit (b'0' + d) ≡ true)
        × (in_class separator (b'0' + d) ≡ false)
        × (in_class colon_separator (b'0' + d) ≡ false)
        × (in_class (lit b'-') (b'0' + d) ≡ false)
        × (in_class (lit b'e') (b'0' + d) ≡ false)
        × (in_class (lit b's') (b'0' + d) ≡ false)
        × (in_class (lit b'p') (b'0' + d) ≡ false)
  unfolding in_class
  digit_class d h = (
    ground (arith, u.decimal_ascii d h),
    ground arith,
    ground arith,
    ground arith,
    ground arith,
    ground arith,
    ground arith,
  )

  pub E_digit : in_class digit b'E' ≡ false
  unfolding in_class
  E_digit = ground (arith, u.decimal_letter b'E' (omega arith) (omega arith))

  pub season_prefix-digit :
      (k : Follow) (prev : Option ℕ) (d : ℕ) (rest : Text)
      → d < 10
      → matches season_prefix k prev (b'S' ∷ (b'0' + d) ∷ rest) ≡ k (some b'S') ((b'0' + d) ∷ rest)
  unfolding matches
  season_prefix-digit k prev d rest h = ground (arith, digit_class d h)

  pub episode_prefix-digit :
      (k : Follow) (prev : Option ℕ) (d : ℕ) (rest : Text)
      → d < 10
      → matches episode_prefix k prev (b'E' ∷ (b'0' + d) ∷ rest) ≡ k (some b'E') ((b'0' + d) ∷ rest)
  unfolding matches
  episode_prefix-digit k prev d rest h = ground (arith, digit_class d h)

  pub separators-E :
      (k : Follow) (prev : Option ℕ) (rest : Text)
      → matches separators k prev (b'E' ∷ rest) ≡ k prev (b'E' ∷ rest)
  unfolding matches match_many in_class
  separators-E k prev rest = ground arith

  pub no_digit-E :
      (k : Follow) (prev : Option ℕ) (rest : Text)
      → matches no_digit k prev (b'E' ∷ rest) ≡ k prev (b'E' ∷ rest)
  unfolding matches match_char
  no_digit-E k prev rest = ground (arith, E_digit)

  pub no_digit-digit :
      (k : Follow) (prev : Option ℕ) (d : ℕ) (rest : Text)
      → d < 10
      → matches no_digit k prev ((b'0' + d) ∷ rest) ≡ false
  unfolding matches match_char
  no_digit-digit k prev d rest h = ground (arith, digit_class d h)
