-- ===== src/RuleBuilder/Trees/Keys.antt =====
-- What the fragments say of a key such as S01E02 (app/services/rule_builder.py).
use q_bittorrent_rss_rules.Prelude.{
  ℕ, ◌+◌, ◌*◌, ◌<◌, ◌≡◌, refl, ap, ◌∙◌, Bool, true, false, ◌&&◌, Option, some, [], ◌∷◌, arith,
}
use q_bittorrent_rss_rules.Prelude.Text.{Text}
use q_bittorrent_rss_rules.Prelude.Unicode.{Unicode}
use q_bittorrent_rss_rules.RuleBuilder.Regex.{
  digit, Regex, Follow, seq, at_least, matches, match_char, match_many, match_at_least, in_class,
  at_boundary, at_end, done,
}
use q_bittorrent_rss_rules.RuleBuilder.Numbers.Laws.{zero-Reads, digit-Reads}
use q_bittorrent_rss_rules.RuleBuilder.Trees.{
  separators, season_prefix, episode_prefix, any_number, no_digit, hyphen, word_end,
}
use q_bittorrent_rss_rules.RuleBuilder.Trees.Laws.{
  digit_class, E_digit, season_prefix-digit, episode_prefix-digit, separators-E, no_digit-E,
  no_digit-digit,
}
use q_bittorrent_rss_rules.RuleBuilder.Trees.Seasons.{lit-StopsAtE}

and_false : (b : Bool) → (b && false) ≡ false
and_false true = refl
and_false false = refl

module _ ⦃u : Unicode⦄ where
  -- Nothing that follows begins with a digit.
  abbrev pub StopsAtDigit : Follow → Type 0
  StopsAtDigit k = (prev : Option ℕ) (d : ℕ) (s : Text) → d < 10 → k prev ((b'0' + d) ∷ s) ≡ false

  pub any_number-E :
      (x : Follow) (prev : Option ℕ) (a b : ℕ) (rest : Text)
      → a < 10
      → b < 10
      → StopsAtDigit x
      → matches any_number x prev ((b'0' + a) ∷ (b'0' + b) ∷ b'E' ∷ rest)
        ≡ x (some (b'0' + b)) (b'E' ∷ rest)
  unfolding matches match_many match_char
  any_number-E x prev a b rest ha hb stops =
      let no_E : in_class digit b'E' ≡ false = E_digit in
      ground (
        arith,
        digit-Reads a ha,
        digit-Reads b hb,
        zero-Reads a ha,
        zero-Reads b hb,
        lit-StopsAtE 0 (omega arith),
        stops (some (b'0' + a)) b (b'E' ∷ rest) hb,
      )

  pub any_number_last :
      (x : Follow) (prev : Option ℕ) (a b : ℕ)
      → a < 10
      → b < 10
      → StopsAtDigit x
      → matches any_number x prev ((b'0' + a) ∷ (b'0' + b) ∷ []) ≡ x (some (b'0' + b)) []
  unfolding matches match_many match_char
  any_number_last x prev a b ha hb stops = ground (
    arith,
    digit-Reads a ha,
    digit-Reads b hb,
    zero-Reads a ha,
    zero-Reads b hb,
    stops (some (b'0' + a)) b [] hb,
  )

  pub any_number-done :
      (prev : Option ℕ) (a b : ℕ)
      → a < 10
      → b < 10
      → matches any_number done prev ((b'0' + a) ∷ (b'0' + b) ∷ []) ≡ true
  unfolding matches match_many match_char
  any_number-done prev a b ha hb = ground (arith, digit-Reads a ha, zero-Reads a ha)

  -- A hyphen, with separators before it.
  pub hyphen-StopsAtDigit : (k : Follow) → StopsAtDigit (matches separators (matches hyphen k))
  unfolding matches match_many match_char
  hyphen-StopsAtDigit k prev d s h = ground (arith, digit_class d h)

  pub episode-StopsAtDigit :
      (k : Follow) → StopsAtDigit (matches separators (matches episode_prefix k))
  unfolding matches match_many match_char
  episode-StopsAtDigit k prev d s h = ground (arith, digit_class d h)

  pub hyphen-E :
      (k : Follow) (prev : Option ℕ) (rest : Text)
      → matches separators (matches hyphen k) prev (b'E' ∷ rest) ≡ false
  unfolding matches match_many match_char in_class
  hyphen-E k prev rest = ground arith

  pub hyphen_last :
      (k : Follow) (prev : Option ℕ) → matches separators (matches hyphen k) prev [] ≡ false
  unfolding matches match_many match_char
  hyphen_last k prev = refl

  pub word_end-E :
      (d e : ℕ) (rest : Text)
      → d < 10
      → matches word_end done (some (b'0' + d)) (b'E' ∷ e ∷ rest) ≡ false
  unfolding matches at_boundary at_end
  word_end-E d e rest h =
      ground
        (arith, u.is_word_of_ascii (b'0' + d) (omega arith), u.is_word_of_ascii b'E' (omega arith))

  pub three_digits :
      (k : Follow) (prev : Option ℕ) (c d : ℕ)
      → matches (at_least 3 digit) k prev ((b'0' + c) ∷ (b'0' + d) ∷ []) ≡ false
  unfolding matches match_at_least match_char
  three_digits k prev c d = ground arith

  -- A season in front of the episode: the tree of its number decides by `v`.
  module _ (season : Regex) (v : ℕ → Bool)
      (number : (a b : ℕ) (k : Follow) (prev : Option ℕ) (rest : Text)
        → a < 10
        → b < 10
        → StopsAtDigit k
        → matches season k prev ((b'0' + a) ∷ (b'0' + b) ∷ b'E' ∷ rest)
          ≡ (v (10 * a + b) && k (some (b'0' + b)) (b'E' ∷ rest)))
      (a b c d : ℕ) (ha : a < 10) (hb : b < 10) (hc : c < 10) (hd : d < 10) (prev : Option ℕ) where
    abbrev episode_text : Text
    episode_text = (b'0' + c) ∷ (b'0' + d) ∷ []

    abbrev key : Text
    key = b'S' ∷ (b'0' + a) ∷ (b'0' + b) ∷ b'E' ∷ episode_text

    pub season_then_episode :
        (r : Regex)
        → matches
            (seq season_prefix (seq season (seq no_digit (seq separators (seq episode_prefix r)))))
            done
            prev
            key
          ≡ (v (10 * a + b) && matches r done (some b'E') ((b'0' + c) ∷ (b'0' + d) ∷ []))
    unfolding matches
    season_then_episode r =
        let after = matches separators (matches episode_prefix (matches r done)) in
        season_prefix-digit (matches season (matches no_digit after)) prev a _ ha
        ∙ number a b (matches no_digit after) (some b'S') _ ha hb
            (λ prev e s h. no_digit-digit after prev e s h)
        ∙ ap (λ t. v (10 * a + b) && t)
            (no_digit-E after (some (b'0' + b)) episode_text
              ∙ separators-E (matches episode_prefix (matches r done)) (some (b'0' + b))
                  episode_text
              ∙ episode_prefix-digit (matches r done) (some (b'0' + b)) c ((b'0' + d) ∷ []) hc)

    pub season_alone :
        matches (seq season_prefix (seq season (seq no_digit word_end))) done prev key ≡ false
    unfolding matches
    season_alone =
        season_prefix-digit (matches season (matches no_digit (matches word_end done))) prev a _ ha
        ∙ number a b (matches no_digit (matches word_end done)) (some b'S') _ ha hb
            (λ prev e s h. no_digit-digit (matches word_end done) prev e s h)
        ∙ ap (λ t. v (10 * a + b) && t)
            (no_digit-E (matches word_end done) (some (b'0' + b)) episode_text
              ∙ word_end-E b (b'0' + c) ((b'0' + d) ∷ []) hb)
        ∙ and_false (v (10 * a + b))
