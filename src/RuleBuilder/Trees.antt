-- ===== src/RuleBuilder/Trees.antt =====
-- The syntax trees of the fragments that pick episodes (app/services/rule_builder.py).
pub mod Laws
pub mod Seasons
pub mod Keys
pub mod Episodes
pub mod Floor
pub mod Search
pub mod Exact
pub mod Excluded
pub mod Rendered
use q_bittorrent_rss_rules.Prelude.{
  ℕ, zero, suc, ◌+◌, min, max, Bool, true, false, Option, none, some, List, [], ◌∷◌, ◌++◌, map, ltb,
  if◌then◌else◌, ◌≡◌, refl,
}
use q_bittorrent_rss_rules.Prelude.Text.{Text, codes, show}
use q_bittorrent_rss_rules.RuleBuilder.Regex.{
  lit, digit, separator, colon_separator, any_char, Regex, char, many, many_lazy, one_or_two,
  at_least, empty, boundary, end_of_text, seq, alt, group, optional, not_ahead, cat, literal, alts,
}
use q_bittorrent_rss_rules.RuleBuilder.Numbers.{bounded, zeros, min_0_to_99, min_1_to_99}

abbrev pub separators : Regex
separators = many separator

abbrev pub season_prefix : Regex
season_prefix =
    group (cat (char (lit b's') ∷ optional (literal (codes "eason")) ∷ many colon_separator ∷ []))

abbrev pub episode_prefix : Regex
episode_prefix = group (
    cat (
      char (lit b'e')
      ∷ optional (cat (char (lit b'p') ∷ optional (literal (codes "isode")) ∷ []))
      ∷ many colon_separator
      ∷ []))

abbrev pub any_number : Regex
any_number = cat (zeros ∷ one_or_two digit ∷ [])

abbrev pub exact : ℕ → Regex
exact value = cat (zeros ∷ literal (show value) ∷ [])

abbrev pub no_digit : Regex
no_digit = not_ahead (char digit)

abbrev pub hyphen : Regex
hyphen = char (lit b'-')

abbrev pub word_end : Regex
word_end = group (alt boundary end_of_text)

-- A season, an episode, and what follows.
abbrev pub season_episode : Regex → List Regex → Regex
season_episode season rest =
    cat (season_prefix ∷ season ∷ no_digit ∷ separators ∷ episode_prefix ∷ rest)

-- `(?:\b|$).*?\bof\b`, separators and a number of three digits.
abbrev pub daily_rest : Regex
daily_rest = cat (
    word_end
    ∷ many_lazy any_char
    ∷ boundary
    ∷ char (lit b'o')
    ∷ char (lit b'f')
    ∷ boundary
    ∷ separators
    ∷ at_least 3 digit
    ∷ [])

abbrev pub floor_trees : ℕ → ℕ → List Regex
floor_trees season episode =
    season_episode (exact season) (min_0_to_99 episode ∷ [])
    ∷ season_episode (exact season) (
        any_number
        ∷ separators
        ∷ hyphen
        ∷ separators
        ∷ optional episode_prefix
        ∷ min_0_to_99 episode
        ∷ [])
    ∷ cat (season_prefix ∷ exact season ∷ no_digit ∷ word_end ∷ [])
    ∷ cat (
        season_prefix
        ∷ any_number
        ∷ separators
        ∷ hyphen
        ∷ separators
        ∷ optional season_prefix
        ∷ min_1_to_99 season
        ∷ no_digit
        ∷ [])
    ∷ cat (
        season_prefix
        ∷ any_number
        ∷ separators
        ∷ episode_prefix
        ∷ at_least 3 digit
        ∷ daily_rest
        ∷ [])
    ∷ []

abbrev pub after_trees : ℕ → List Regex
after_trees season =
    season_episode (min_1_to_99 season) (any_number ∷ [])
    ∷ cat (season_prefix ∷ min_1_to_99 season ∷ no_digit ∷ word_end ∷ [])
    ∷ []

-- The tree of `build_episode_progress_fragment`.
unfoldable pub progress_tree : ℕ → ℕ → Regex
unfolding bounded show
progress_tree start_season start_episode =
    let season = bounded false start_season in
    let episode = bounded true start_episode in
    group (
      alts (
        if ltb season 99
        then after_trees (season + 1) ++ floor_trees season episode
        else floor_trees season episode))

-- The tree of `build_standalone_episode_fragment`, on numbers that are bounded.
unfoldable pub standalone_tree : ℕ → ℕ → Regex
unfolding show
standalone_tree season episode =
    season_episode (exact season)
      (exact episode ∷ no_digit ∷ not_ahead (cat (separators ∷ hyphen ∷ [])) ∷ [])

-- The tree of `build_below_floor_episode_fragment`, on numbers that are bounded.
unfoldable pub below_tree : ℕ → ℕ → Regex
unfolding standalone_tree show
below_tree season episode = group (
    alts (
      standalone_tree season episode
      ∷ season_episode (exact season) (
          any_number
          ∷ separators
          ∷ hyphen
          ∷ separators
          ∷ optional (group episode_prefix)
          ∷ exact episode
          ∷ no_digit
          ∷ [])
      ∷ []))

unfoldable pub below_trees : ℕ → ℕ → ℕ → List Regex
unfolding below_tree
below_trees season episode zero = []
below_trees season episode (suc count) =
    below_tree season episode ∷ below_trees season (suc episode) count

-- The tree of `build_lower_episode_exclusion_fragment` for a floor with an earlier episode.
unfoldable pub lower_tree : ℕ → ℕ → Regex
unfolding below_trees bounded
lower_tree start_season start_episode =
    group (alts (below_trees (bounded false start_season) 0 (bounded true start_episode)))

-- The tree of `build_existing_episode_exclusion_fragment` for some episodes.
unfoldable pub existing_tree : List (ℕ × ℕ) → Regex
unfolding standalone_tree bounded
existing_tree episodes =
    group (alts (map (λ (s, e). standalone_tree (bounded true s) (bounded true e)) episodes))
