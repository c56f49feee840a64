-- ===== src/RuleBuilder/Trees/Exact.antt =====
-- The fragment for one episode finds that episode alone (app/services/rule_builder.py).
use q_bittorrent_rss_rules.Prelude.{
  ℕ, ◌+◌, ◌*◌, ◌/◌, ◌%◌, ◌≤◌, ◌<◌, ◌≡◌, refl, ap, ap₂, ◌∙◌, inl, inr, Bool, true, false, ◌&&◌, ◌||◌,
  Option, some, [], ◌∷◌, ◌++◌, arith, ltb, ◌=?◌, Bool-cases,
}
use q_bittorrent_rss_rules.Prelude.Text.{Text}
use q_bittorrent_rss_rules.Prelude.Unicode.{Unicode}
use q_bittorrent_rss_rules.WatchState.Keys.{format_episode_key}
use q_bittorrent_rss_rules.WatchState.Keys.Laws.{key_text}
use q_bittorrent_rss_rules.RuleBuilder.Regex.{
  lit, Follow, seq, not_ahead, matches, match_char, match_many, done, searches,
}
use q_bittorrent_rss_rules.RuleBuilder.Numbers.Laws.{zero-Reads, is-Reads}
use q_bittorrent_rss_rules.RuleBuilder.Trees.{exact, no_digit, separators, hyphen, standalone_tree}
use q_bittorrent_rss_rules.RuleBuilder.Trees.Laws.{no_digit-digit}
use q_bittorrent_rss_rules.RuleBuilder.Trees.Seasons.{show_digit, show_two, exact_season}
use q_bittorrent_rss_rules.RuleBuilder.Trees.Keys.{season_then_episode, StopsAtDigit}
use q_bittorrent_rss_rules.RuleBuilder.Trees.Search.{HasNoS, NeedsS, search-key}

same_number : (a b n : ℕ) → a < 10 → b < 10 → ((a =? n / 10) && (b =? n % 10)) ≡ (n =? 10 * a + b)
same_number a b n ha hb = ground arith

two_tests :
    (p q zero_a tens_b zero_b : Bool)
    → (p && (q && true) || zero_a && (tens_b && false || zero_b && false)) ≡ (p && q)
two_tests p q zero_a tens_b zero_b = ground arith

module _ ⦃u : Unicode⦄ where
  -- Nothing follows the episode.
  module _ (a b : ℕ) (ha : a < 10) (hb : b < 10) (k : Follow) (stops : StopsAtDigit k)
      (at_end : (prev : Option ℕ) → k prev [] ≡ true) (prev : Option ℕ) where
    abbrev two_digits : Text
    two_digits = (b'0' + a) ∷ (b'0' + b) ∷ []

    exact_one :
        (n : ℕ)
        → n < 10
        → match_many (lit b'0') (match_char (lit (b'0' + n)) k) prev two_digits ≡ (n =? 10 * a + b)
    unfolding match_many match_char
    exact_one n h = ground (
      arith,
      is-Reads n h a ha,
      is-Reads n h b hb,
      zero-Reads a ha,
      zero-Reads b hb,
      stops (some (b'0' + a)) b [] hb,
      at_end (some (b'0' + b)),
    )

    exact_two :
        (t o : ℕ)
        → 1 ≤ t
        → t < 10
        → o < 10
        → match_many
            (lit b'0')
            (match_char (lit (b'0' + t)) (match_char (lit (b'0' + o)) k))
            prev
            two_digits
          ≡ ((a =? t) && (b =? o))
    unfolding match_many match_char
    exact_two t o l h m =
        let tens = is-Reads t h a ha in
        let ones = is-Reads o m b hb in
        let no_tens = is-Reads t h b hb in
        rw (tens, zero-Reads a ha, no_tens, ones, zero-Reads b hb, at_end (some (b'0' + b)))
          (two_tests (a =? t) (b =? o) (a =? 0) (b =? t) (b =? 0))

    exact_last : (n : ℕ) → n < 100 → matches (exact n) k prev two_digits ≡ (n =? 10 * a + b)
    unfolding matches
    exact_last n h = elim (Bool-cases (ltb n 10)) [
      | inl e ↦ rw (show_digit n (ground arith), matches) (exact_one n (ground arith))
      | inr e ↦
          rw (show_two n (ground arith) h, matches)
            (exact_two (n / 10) (n % 10) (ground arith) (omega arith) (omega arith)
              ∙ same_number a b n ha hb)
    ]

  pub standalone_at :
      (s e season episode : ℕ) (prev : Option ℕ)
      → s < 100
      → e < 100
      → season < 100
      → episode < 100
      → matches (standalone_tree s e) done prev (key_text season episode)
        ≡ ((s =? season) && (e =? episode))
  unfolding standalone_tree matches key_text
  standalone_at s e season episode prev hs he h k =
      let number =
        λ (a b : ℕ) (k : Follow) (prev : Option ℕ) (rest : Text) (ha : a < 10) (hb : b < 10)
            (stops : StopsAtDigit k).
          exact_season a b ha hb k stops prev rest s hs in
      let last = matches (not_ahead (seq separators hyphen)) done in
      season_then_episode (exact s) (λ v. s =? v) number (season / 10) (season % 10) (episode / 10)
        (episode % 10) (omega arith) (omega arith) (omega arith) (omega arith) prev
        (seq (exact e) (seq no_digit (not_ahead (seq separators hyphen))))
      ∙ ap₂ ◌&&◌ (ap (λ v. s =? v) (omega arith)) (
          exact_last (episode / 10) (episode % 10) (omega arith) (omega arith)
            (matches no_digit last) (λ prev d t h. no_digit-digit last prev d t h) (λ prev. refl)
            (some b'E') e he
          ∙ ap (λ v. e =? v) (omega arith))

  pub standalone-NeedsS : (s e : ℕ) → NeedsS (standalone_tree s e)
  unfolding standalone_tree matches match_char
  standalone-NeedsS s e = (λ prev. refl, λ prev c t n. rw n refl)

  pub standalone_search :
      (s e season episode : ℕ) (before : Text)
      → s < 100
      → e < 100
      → season < 100
      → episode < 100
      → HasNoS before
      → searches (standalone_tree s e) (before ++ format_episode_key season episode)
        ≡ ((s =? season) && (e =? episode))
  standalone_search s e season episode before hs he h k b =
      search-key (standalone_tree s e) _ season episode before h k (standalone-NeedsS s e) b
        (λ prev. standalone_at s e season episode prev hs he h k)
