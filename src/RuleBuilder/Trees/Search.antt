-- ===== src/RuleBuilder/Trees/Search.antt =====
-- The search for an episode in a title that ends in a key (app/services/rule_builder.py).
use q_bittorrent_rss_rules.Prelude.{
  ℕ, ◌+◌, ◌/◌, ◌%◌, ◌<◌, ◌≡◌, refl, ap₂, ◌∙◌, inl, inr, Bool, true, false, ◌||◌, Option, none, some,
  [], ◌∷◌, ◌++◌, arith, Bool-cases, All, ltb,
}
use q_bittorrent_rss_rules.Prelude.Text.{Text}
use q_bittorrent_rss_rules.Prelude.Unicode.{Unicode}
use q_bittorrent_rss_rules.WatchState.Keys.{format_episode_key}
use q_bittorrent_rss_rules.WatchState.Keys.Laws.{key_text, format_episode_key-text}
use q_bittorrent_rss_rules.SelectiveQueue.Plan.{episode_geb}
use q_bittorrent_rss_rules.RuleBuilder.Regex.{
  lit, Regex, matches, match_char, in_class, done, searches, search_from,
}
use q_bittorrent_rss_rules.RuleBuilder.Numbers.{bounded}
use q_bittorrent_rss_rules.RuleBuilder.Trees.{progress_tree}
use q_bittorrent_rss_rules.RuleBuilder.Trees.Laws.{digit_class}
use q_bittorrent_rss_rules.RuleBuilder.Trees.Floor.{progress_at}

or_false : (b : Bool) → (b || false) ≡ b
or_false true = refl
or_false false = refl

module _ ⦃u : Unicode⦄ where
  -- No letter s in either case.
  abbrev pub HasNoS : Text → Type 0
  HasNoS = All (λ c. in_class (lit b's') c ≡ false)

  -- The expression begins with an s.
  abbrev pub NeedsS : Regex → Type 0
  NeedsS r =
      ((prev : Option ℕ) → matches r done prev [] ≡ false)
      × ((prev : Option ℕ) (c : ℕ) (s : Text)
          → in_class (lit b's') c ≡ false
          → matches r done prev (c ∷ s) ≡ false)

  search-HasNoS :
      (r : Regex) (prev : Option ℕ) (s : Text) → NeedsS r → HasNoS s → search_from r prev s ≡ false
  unfolding search_from
  search-HasNoS r prev [] (e, n) h = e prev
  search-HasNoS r prev (c ∷ s) (e, n) (h, hs) =
      ground (arith, n prev c s h, search-HasNoS r (some c) s (e, n) hs)

  -- Text without an s in front changes nothing.
  search-prefix :
      (r : Regex) (v : Bool) (prev : Option ℕ) (before rest : Text)
      → NeedsS r
      → HasNoS before
      → ((prev : Option ℕ) → search_from r prev rest ≡ v)
      → search_from r prev (before ++ rest) ≡ v
  unfolding search_from
  search-prefix r v prev [] rest n h k = k prev
  search-prefix r v prev (c ∷ before) rest (e, n) (h, hs) k =
      ground
        (arith, n prev c (before ++ rest) h, search-prefix r v (some c) before rest (e, n) hs k)

  progress-NeedsS : (s e : ℕ) → NeedsS (progress_tree s e)
  unfolding progress_tree matches match_char
  progress-NeedsS s e = elim (Bool-cases (ltb (bounded false s) 99)) [
    | inl h ↦ (λ prev. rw h refl, λ prev c t n. rw (h, n) refl)
    | inr h ↦ (λ prev. rw h refl, λ prev c t n. rw (h, n) refl)
  ]

  E_not_s : in_class (lit b's') b'E' ≡ false
  unfolding in_class
  E_not_s = refl

  -- A key that is searched for, at its numbers.
  key_search :
      (r : Regex) (season episode : ℕ) (prev : Option ℕ)
      → season < 100
      → episode < 100
      → NeedsS r
      → search_from r prev (key_text season episode) ≡ matches r done prev (key_text season episode)
  unfolding search_from key_text
  key_search r s e prev h k n =
      let E_no : in_class (lit b's') b'E' ≡ false = E_not_s in
      let later =
        search-HasNoS r (some b'S')
          ((b'0' + s / 10) ∷ (b'0' + s % 10) ∷ b'E' ∷ (b'0' + e / 10) ∷ (b'0' + e % 10) ∷ []) n
          (
            (digit_class (s / 10) (omega arith)).5,
            (
              (digit_class (s % 10) (omega arith)).5,
              (
                E_no,
                (
                  (digit_class (e / 10) (omega arith)).5,
                  ((digit_class (e % 10) (omega arith)).5, tt),
                ),
              ),
            ),
          ) in
      rw later (or_false _)

  -- The search for a key behind text without an s is a match at the key.
  pub search-key :
      (r : Regex) (v : Bool) (season episode : ℕ) (before : Text)
      → season < 100
      → episode < 100
      → NeedsS r
      → HasNoS before
      → ((prev : Option ℕ) → matches r done prev (key_text season episode) ≡ v)
      → searches r (before ++ format_episode_key season episode) ≡ v
  unfolding searches
  search-key r v s e before h k n b at_key = rw (format_episode_key-text s e h k) (
      search-prefix r v none before (key_text s e) n b
        (λ prev. key_search r s e prev h k n ∙ at_key prev))

  progress_at_numbers :
      (start_season start_episode season episode : ℕ) (prev : Option ℕ)
      → season < 100
      → episode < 100
      → matches (progress_tree start_season start_episode) done prev (key_text season episode)
        ≡ episode_geb (season, episode) (bounded false start_season, bounded true start_episode)
  unfolding key_text
  progress_at_numbers s e season episode prev h k =
      progress_at (season / 10) (season % 10) (episode / 10) (episode % 10) (omega arith)
        (omega arith) (omega arith) (omega arith) prev s e
      ∙ ap₂ (λ v w. episode_geb (v, w) (bounded false s, bounded true e)) (omega arith)
          (omega arith)

  -- In a title that ends in a canonical key, with no letter s before it, the fragment for a floor is
  -- found exactly if the key is not before the floor, which is taken to seasons from 1 to 99 and
  -- episodes to 99.
  pub progress_search :
      (start_season start_episode season episode : ℕ) (before : Text)
      → season < 100
      → episode < 100
      → HasNoS before
      → searches
          (progress_tree start_season start_episode)
          (before ++ format_episode_key season episode)
        ≡ episode_geb (season, episode) (bounded false start_season, bounded true start_episode)
  progress_search s e season episode before h k b =
      search-key (progress_tree s e) _ season episode before h k (progress-NeedsS s e) b
        (λ prev. progress_at_numbers s e season episode prev h k)
