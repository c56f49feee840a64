-- ===== src/WatchState/Keys.antt =====
-- Episode keys such as S01E02 (app/services/watch_state.py): the regular expression
-- WATCH_STATE_EPISODE_KEY_RE, the printed form, and the lists of keys without repetition.
pub mod Laws
pub mod Lists
use q_bittorrent_rss_rules.Prelude.{
  ℕ, zero, suc, ◌+◌, ◌*◌, min, max, Bool, true, false, ◌&&◌, ◌||◌, Option, none, some, List, [],
  ◌∷◌, ◌++◌, leb, ltb, ◌=?◌, if◌then◌else◌, contains, text_eq, ◌==◌,
}
use q_bittorrent_rss_rules.Prelude.Text.{Text, codes, strip, show_02d}
use q_bittorrent_rss_rules.Prelude.Unicode.{Unicode}

-- (season, episode)
abbrev pub Episode : Type 0
Episode = ℕ × ℕ

-- `_bounded_season_number` and `_bounded_episode_number` of watch_state.py
unfoldable pub bounded_number : Bool → ℕ → ℕ
bounded_number allow_zero value = max (if allow_zero then 0 else 1) (min 99 value)

unfoldable pub format_episode_key : ℕ → ℕ → Text
unfolding show_02d
format_episode_key season episode = codes "S" ++ show_02d season ++ codes "E" ++ show_02d episode

-- Under IGNORECASE the letter s also matches U+017F.
abbrev pub is_s : ℕ → Bool
is_s c = c =? b's' || c =? b'S' || c =? 0x17f

abbrev pub is_e : ℕ → Bool
is_e c = c =? b'e' || c =? b'E'

-- `$`: the end, or a last line break.
abbrev at_end : Text → Bool
at_end [] = true
at_end (c ∷ []) = c =? 10
at_end (c ∷ d ∷ s) = false

module _ ⦃u : Unicode⦄ where
  -- `\d{1,2}`, greedy, and the value that `int` reads, with the rest of the text.
  abbrev second_digit : ℕ → Text → ℕ × Text
  second_digit d [] = (d, [])
  second_digit d (c ∷ s) = elim (u.decimal c) [ none ↦ (d, c ∷ s) | some d' ↦ (10 * d + d', s) ]

  unfoldable pub digits_1_2 : Text → Option (ℕ × Text)
  digits_1_2 [] = none
  digits_1_2 (c ∷ s) = elim (u.decimal c) [ none ↦ none | some d ↦ some (second_digit d s) ]

  end_key : ℕ → Option (ℕ × Text) → Option Episode
  end_key season none = none
  end_key season (some (episode, rest)) = if at_end rest then some (season, episode) else none

  episode_part : Option (ℕ × Text) → Option Episode
  unfolding end_key digits_1_2
  episode_part none = none
  episode_part (some (season, [])) = none
  episode_part (some (season, c ∷ s)) = if is_e c then end_key season (digits_1_2 s) else none

  -- `WATCH_STATE_EPISODE_KEY_RE.match`, with the two groups as numbers. A second digit is never given
  -- back by the greedy `\d{1,2}`: neither e nor the end could match it.
  unfoldable pub match_episode_key : Text → Option Episode
  unfolding episode_part digits_1_2
  match_episode_key [] = none
  match_episode_key (c ∷ s) = if is_s c then episode_part (digits_1_2 s) else none

  unfoldable pub watch_state_episode_key_tuple : Text → Option Episode
  unfolding match_episode_key strip
  watch_state_episode_key_tuple value = match_episode_key (strip value)

  unfoldable pub watch_state_episode_key_from_tuple : Episode → Text
  unfolding format_episode_key
  watch_state_episode_key_from_tuple (season, episode) = format_episode_key season episode

  -- The key that one item of the list stands for.
  unfoldable pub normalized_key : Text → Option Text
  unfolding match_episode_key strip format_episode_key bounded_number
  normalized_key raw_item = elim (match_episode_key (strip raw_item)) [
    | none ↦ none
    | some (season, episode) ↦
        some (format_episode_key (bounded_number true season) (bounded_number true episode))
  ]

  -- The loop of `normalize_watch_state_episode_keys`, with the keys seen so far.
  unfoldable pub normalize_loop : List Text → List Text → List Text
  unfolding normalized_key text_eq
  normalize_loop seen [] = []
  normalize_loop seen (raw_item ∷ items) =
      let skip = normalize_loop seen items in
      elim (normalized_key raw_item) [
        | none ↦ skip
        | some key ↦
            let take = key ∷ normalize_loop (key ∷ seen) items in
            if contains seen key then skip else take
      ]

  unfoldable pub normalize_watch_state_episode_keys : List Text → List Text
  unfolding normalize_loop
  normalize_watch_state_episode_keys value = normalize_loop [] value
