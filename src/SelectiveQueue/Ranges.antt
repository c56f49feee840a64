-- ===== src/SelectiveQueue/Ranges.antt =====
-- Episode ranges in names (app/services/selective_queue.py): the regular expression
-- SEASON_EPISODE_RANGE_RE and the ranges that a text holds.
pub mod Laws
use q_bittorrent_rss_rules.Prelude.{
  ℕ, zero, suc, ◌-◌, Bool, true, false, ◌&&◌, ◌||◌, Option, none, some, List, [], ◌∷◌, leb, ltb,
  ◌=?◌, if◌then◌else◌, length, any,
}
use q_bittorrent_rss_rules.Prelude.Text.{Text, is_space}
use q_bittorrent_rss_rules.Prelude.Unicode.{Unicode}
use q_bittorrent_rss_rules.WatchState.Keys.{is_s, is_e, digits_1_2}

-- (season, first episode, last episode)
abbrev pub Range : Type 0
Range = ℕ × ℕ × ℕ

-- `[\s._-]`
unfoldable pub is_separator : ℕ → Bool
is_separator c = is_space c || c =? b'.' || c =? b'_' || c =? b'-'

-- `[\s._-]*`, greedy.
unfoldable pub skip_separators : Text → Text
unfolding is_separator
skip_separators [] = []
skip_separators (c ∷ s) = let rest = skip_separators s in if is_separator c then rest else c ∷ s

-- A hyphen among the separators at the start, which `(?:-|to)` gets by backtracking.
unfoldable pub has_hyphen : Text → Bool
unfolding is_separator
has_hyphen [] = false
has_hyphen (c ∷ s) = let rest = has_hyphen s in c =? b'-' || is_separator c && rest

-- What is left behind "to", in either case.
unfoldable pub after_to : Text → Option Text
after_to (c ∷ d ∷ s) = if (c =? b't' || c =? b'T') && (d =? b'o' || d =? b'O') then some s else none
after_to _ = none

-- `(?:e)?`
unfoldable pub skip_e : Text → Text
skip_e [] = []
skip_e (c ∷ s) = if is_e c then s else c ∷ s

-- `(season, start, end)` with the two ends swapped where the source swaps them.
unfoldable pub ordered_range : ℕ → ℕ → ℕ → Range
ordered_range season start end =
    if ltb end start then (season, end, start) else (season, start, end)

module _ ⦃u : Unicode⦄ where
  -- The optional group behind the first episode: its number and the rest.
  unfoldable pub match_end : Text → Option (ℕ × Text)
  unfolding after_to skip_separators has_hyphen skip_e digits_1_2
  match_end s = elim (after_to (skip_separators s)) [
    | some rest ↦ digits_1_2 (skip_e (skip_separators rest))
    | none ↦ if has_hyphen s then digits_1_2 (skip_e (skip_separators s)) else none
  ]

  unfoldable pub match_second : ℕ → ℕ → Text → Range × Text
  unfolding match_end ordered_range
  match_second season start rest = elim (match_end rest) [
    | none ↦ (ordered_range season start start, rest)
    | some (end, rest') ↦ (ordered_range season start end, rest')
  ]

  unfoldable pub match_first : ℕ → Text → Option (Range × Text)
  unfolding match_second digits_1_2
  match_first season [] = none
  match_first season (c ∷ s) =
      if is_e c
      then (elim (digits_1_2 s) [
        | none ↦ none
        | some (start, rest) ↦ some (match_second season start rest)
      ])
      else none

  -- A match that starts at the first character, and what follows it. The greedy `\d{1,2}` gives no
  -- digit back: neither a separator, e, a hyphen nor "to" could match it.
  unfoldable pub match_range : Text → Option (Range × Text)
  unfolding match_first skip_separators digits_1_2
  match_range [] = none
  match_range (c ∷ s) =
      if is_s c
      then (elim (digits_1_2 s) [
        | none ↦ none
        | some (season, rest) ↦ match_first season (skip_separators rest)
      ])
      else none

  -- `finditer`: the characters of a match are skipped before the next is looked for.
  unfoldable pub find_ranges : ℕ → Text → List Range
  unfolding match_range
  find_ranges skip [] = []
  find_ranges (suc skip) (c ∷ s) = find_ranges skip s
  find_ranges zero (c ∷ s) = elim (match_range (c ∷ s)) [
    | none ↦ find_ranges zero s
    | some (found, rest) ↦ found ∷ find_ranges (length s - length rest) s
  ]

  unfoldable pub episode_matches_for_path : Text → List Range
  unfolding find_ranges
  episode_matches_for_path path = find_ranges 0 path

  unfoldable pub episode_ranges_from_text : Text → List Range
  unfolding episode_matches_for_path
  episode_ranges_from_text text = episode_matches_for_path text

  -- The test of one range, as `any` has it in three places.
  unfoldable pub range_holds : ℕ → ℕ → Range → Bool
  range_holds season_number episode_number (season, start, end) =
      season =? season_number && leb start episode_number && leb episode_number end

  unfoldable pub text_matches_episode : Text → ℕ → ℕ → Bool
  unfolding episode_ranges_from_text range_holds
  text_matches_episode text season_number episode_number =
      any (range_holds season_number episode_number) (episode_ranges_from_text text)
