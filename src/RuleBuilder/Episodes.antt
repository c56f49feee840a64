-- ===== src/RuleBuilder/Episodes.antt =====
-- The fragments that pick episodes (app/services/rule_builder.py), as the code writes them and as
-- syntax trees.
use q_bittorrent_rss_rules.Prelude.{
  ℕ, zero, suc, ◌+◌, true, false, Option, none, some, List, [], ◌∷◌, ◌++◌, map, ltb, if◌then◌else◌,
}
use q_bittorrent_rss_rules.Prelude.Text.{Text, codes, show}
use q_bittorrent_rss_rules.Prelude.Unicode.{Unicode}
use q_bittorrent_rss_rules.WatchState.Keys.{
  Episode, normalize_watch_state_episode_keys, watch_state_episode_key_tuple,
}
use q_bittorrent_rss_rules.RuleBuilder.Numbers.{
  concat, join, bounded, build_min_numeric_pattern_0_to_99, build_min_numeric_pattern_1_to_99,
}

abbrev pub separators_text : Text
separators_text = codes "[\\s._-]*"

abbrev pub season_prefix_text : Text
season_prefix_text = codes "(?:s(?:eason)?[\\s._:-]*)"

abbrev pub episode_prefix_text : Text
episode_prefix_text = codes "(?:e(?:p(?:isode)?)?[\\s._:-]*)"

abbrev pub any_text : Text
any_text = codes "0*\\d{1,2}"

-- `0*{value}`
abbrev pub exact_text : ℕ → Text
exact_text value = codes "0*" ++ show value

abbrev pub no_digit_text : Text
no_digit_text = codes "(?!\\d)"

-- The fragments of a floor, without those of the later seasons.
abbrev floor_fragments : Text → Text → Text → List Text
floor_fragments season_exact episode_ge season_ge =
    concat (
      season_prefix_text ∷ season_exact ∷ no_digit_text ∷ separators_text ∷ episode_prefix_text
      ∷ episode_ge ∷ [])
    ∷ concat (
        season_prefix_text
        ∷ season_exact
        ∷ no_digit_text
        ∷ separators_text
        ∷ episode_prefix_text
        ∷ any_text
        ∷ separators_text
        ∷ codes "-"
        ∷ separators_text
        ∷ codes "(?:"
        ∷ episode_prefix_text
        ∷ codes ")?"
        ∷ episode_ge
        ∷ [])
    ∷ concat (season_prefix_text ∷ season_exact ∷ no_digit_text ∷ codes "(?:\\b|$)" ∷ [])
    ∷ concat (
        season_prefix_text
        ∷ any_text
        ∷ separators_text
        ∷ codes "-"
        ∷ separators_text
        ∷ codes "(?:"
        ∷ season_prefix_text
        ∷ codes ")?"
        ∷ season_ge
        ∷ no_digit_text
        ∷ [])
    ∷ concat (
        season_prefix_text
        ∷ any_text
        ∷ separators_text
        ∷ episode_prefix_text
        ∷ codes "\\d{3,}(?:\\b|$).*?\\bof\\b"
        ∷ separators_text
        ∷ codes "\\d{3,}"
        ∷ [])
    ∷ []

abbrev after_fragments : Text → List Text
after_fragments season_after =
    concat (
      season_prefix_text ∷ season_after ∷ no_digit_text ∷ separators_text ∷ episode_prefix_text
      ∷ any_text ∷ [])
    ∷ concat (season_prefix_text ∷ season_after ∷ no_digit_text ∷ codes "(?:\\b|$)" ∷ [])
    ∷ []

-- `f"(?:{'|'.join(fragments)})"`
abbrev pub any_of : List Text → Text
any_of fragments = concat (codes "(?:" ∷ join (codes "|") fragments ∷ codes ")" ∷ [])

-- The fragment for a floor that is there.
unfoldable pub progress_text : ℕ → ℕ → Text
unfolding bounded build_min_numeric_pattern_0_to_99 build_min_numeric_pattern_1_to_99 show
progress_text start_season start_episode =
    let season_value = bounded false start_season in
    let episode_value = bounded true start_episode in
    let fragments =
      floor_fragments (exact_text season_value) (build_min_numeric_pattern_0_to_99 episode_value)
        (build_min_numeric_pattern_1_to_99 season_value) in
    any_of (
      if ltb season_value 99
      then after_fragments (build_min_numeric_pattern_1_to_99 (season_value + 1)) ++ fragments
      else fragments)

unfoldable pub build_episode_progress_fragment : Option ℕ → Option ℕ → Text
unfolding progress_text
build_episode_progress_fragment (some season) (some episode) = progress_text season episode
build_episode_progress_fragment (some season) none = []
build_episode_progress_fragment none episode = []

unfoldable pub build_specific_episode_fragment : ℕ → ℕ → Text
unfolding bounded show
build_specific_episode_fragment season_number episode_number =
    let season = exact_text (bounded true season_number) in
    let episode = exact_text (bounded true episode_number) in
    any_of (
      concat (
        season_prefix_text ∷ season ∷ no_digit_text ∷ separators_text ∷ episode_prefix_text
        ∷ episode ∷ no_digit_text ∷ [])
      ∷ concat (
          season_prefix_text
          ∷ season
          ∷ no_digit_text
          ∷ separators_text
          ∷ episode_prefix_text
          ∷ any_text
          ∷ separators_text
          ∷ codes "-"
          ∷ separators_text
          ∷ codes "(?:"
          ∷ episode_prefix_text
          ∷ codes ")?"
          ∷ episode
          ∷ no_digit_text
          ∷ [])
      ∷ concat (
          season_prefix_text
          ∷ season
          ∷ no_digit_text
          ∷ separators_text
          ∷ episode_prefix_text
          ∷ episode
          ∷ no_digit_text
          ∷ separators_text
          ∷ codes "-"
          ∷ separators_text
          ∷ codes "(?:"
          ∷ episode_prefix_text
          ∷ codes ")?"
          ∷ any_text
          ∷ [])
      ∷ [])

-- An episode that is not the start of a range.
abbrev pub standalone_pieces : ℕ → ℕ → List Text
standalone_pieces season_value episode_value =
    season_prefix_text
    ∷ exact_text season_value
    ∷ no_digit_text
    ∷ separators_text
    ∷ episode_prefix_text
    ∷ exact_text episode_value
    ∷ no_digit_text
    ∷ codes "(?!"
    ∷ separators_text
    ∷ codes "-)"
    ∷ []

unfoldable pub build_standalone_episode_fragment : ℕ → ℕ → Text
unfolding bounded show
build_standalone_episode_fragment season_number episode_number =
    concat (standalone_pieces (bounded true season_number) (bounded true episode_number))

unfoldable pub build_below_floor_episode_fragment : ℕ → ℕ → Text
unfolding bounded show
build_below_floor_episode_fragment season_number episode_number =
    let season_value = bounded false season_number in
    let episode_value = bounded true episode_number in
    any_of (
      concat (standalone_pieces season_value episode_value)
      ∷ concat (
          season_prefix_text
          ∷ exact_text season_value
          ∷ no_digit_text
          ∷ separators_text
          ∷ episode_prefix_text
          ∷ any_text
          ∷ separators_text
          ∷ codes "-"
          ∷ separators_text
          ∷ codes "(?:(?:"
          ∷ episode_prefix_text
          ∷ codes "))?"
          ∷ exact_text episode_value
          ∷ no_digit_text
          ∷ [])
      ∷ [])

-- The fragments of the episodes from `episode` on, `count` of them.
unfoldable pub below_from : ℕ → ℕ → ℕ → List Text
unfolding build_below_floor_episode_fragment
below_from season_value episode zero = []
below_from season_value episode (suc count) =
    build_below_floor_episode_fragment season_value episode
    ∷ below_from season_value (suc episode) count

-- Nothing where there is no fragment.
abbrev pub any_of_or_nothing : List Text → Text
any_of_or_nothing [] = []
any_of_or_nothing (f ∷ fragments) = any_of (f ∷ fragments)

unfoldable pub build_lower_episode_exclusion_fragment : Option ℕ → Option ℕ → Text
unfolding below_from bounded
build_lower_episode_exclusion_fragment (some season) (some episode) =
    any_of_or_nothing (below_from (bounded false season) 0 (bounded true episode))
build_lower_episode_exclusion_fragment (some season) none = []
build_lower_episode_exclusion_fragment none episode = []

module _ ⦃u : Unicode⦄ where
  -- The episodes that the keys name.
  unfoldable pub key_tuples : List Text → List Episode
  unfolding watch_state_episode_key_tuple
  key_tuples [] = []
  key_tuples (key ∷ keys) = elim (watch_state_episode_key_tuple key) [
    | none ↦ key_tuples keys
    | some episode ↦ episode ∷ key_tuples keys
  ]

  unfoldable pub build_existing_episode_exclusion_fragment : List Text → Text
  unfolding key_tuples build_standalone_episode_fragment normalize_watch_state_episode_keys
  build_existing_episode_exclusion_fragment existing_episode_keys = any_of_or_nothing (
      map (λ (season, episode). build_standalone_episode_fragment season episode)
        (key_tuples (normalize_watch_state_episode_keys existing_episode_keys)))
