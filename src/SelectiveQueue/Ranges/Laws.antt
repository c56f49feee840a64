-- ===== src/SelectiveQueue/Ranges/Laws.antt =====
-- What the ranges in a text satisfy (app/services/selective_queue.py).
use q_bittorrent_rss_rules.Prelude.{
  ℕ, zero, suc, ◌+◌, ◌-◌, ◌/◌, ◌%◌, ◌≤◌, ◌<◌, ◌≡◌, inl, inr, ◌&&◌, some, [], ◌∷◌, arith, ◌=?◌,
  length, All, Option-cases,
}
use q_bittorrent_rss_rules.Prelude.Text.{Text}
use q_bittorrent_rss_rules.Prelude.Unicode.{Unicode}
use q_bittorrent_rss_rules.SelectiveQueue.Ranges.{
  Range, ordered_range, match_range, match_first, match_second, match_end, find_ranges,
  episode_matches_for_path, skip_separators, text_matches_episode, episode_ranges_from_text,
  range_holds, is_separator, has_hyphen, after_to,
}
use q_bittorrent_rss_rules.WatchState.Keys.{digits_1_2, format_episode_key}
use q_bittorrent_rss_rules.WatchState.Keys.Laws.{key_text, format_episode_key-text, digits_1_2_two}
use q_bittorrent_rss_rules.Prelude.Text.{is_space}

abbrev pub IsOrdered : Range → Type 0
IsOrdered (season, start, end) = start ≤ end

ordered_range-IsOrdered : (season start end : ℕ) → IsOrdered (ordered_range season start end)
unfolding ordered_range
ordered_range-IsOrdered season start end = ground arith

module _ ⦃u : Unicode⦄ where
  match_second-IsOrdered :
      (season start : ℕ) (rest : Text) → IsOrdered ((match_second season start rest).0)
  unfolding match_second
  match_second-IsOrdered season start rest = elim (Option-cases (match_end rest)) [
    | inl e ↦ rw (e, match_second) (ordered_range-IsOrdered season start start)
    | inr ((end, rest'), e) ↦ rw (e, match_second) (ordered_range-IsOrdered season start end)
  ]

  match_first-IsOrdered :
      (season : ℕ) (s : Text) (r : Range) (rest : Text)
      → match_first season s ≡ some (r, rest)
      → IsOrdered r
  unfolding match_first
  match_first-IsOrdered season [] r rest h = cc
  match_first-IsOrdered season (c ∷ s) r rest h = elim (Option-cases (digits_1_2 s)) [
    | inl e ↦ ground (arith, e)
    | inr ((start, t), e) ↦ ground (arith, e, match_second-IsOrdered season start t)
  ]

  match_range-IsOrdered :
      (s : Text) (r : Range) (rest : Text) → match_range s ≡ some (r, rest) → IsOrdered r
  unfolding match_range
  match_range-IsOrdered [] r rest h = cc
  match_range-IsOrdered (c ∷ s) r rest h = elim (Option-cases (digits_1_2 s)) [
    | inl e ↦ ground (arith, e)
    | inr ((season, t), e) ↦
        ground (arith, e, match_first-IsOrdered season (skip_separators t) r rest)
  ]

  find_ranges-IsOrdered : (skip : ℕ) (s : Text) → All IsOrdered (find_ranges skip s)
  unfolding find_ranges
  find_ranges-IsOrdered skip [] = tt
  find_ranges-IsOrdered (suc skip) (c ∷ s) = find_ranges-IsOrdered skip s
  find_ranges-IsOrdered zero (c ∷ s) = elim (Option-cases (match_range (c ∷ s))) [
    | inl e ↦ rw (e, All) (find_ranges-IsOrdered 0 s)
    | inr ((r, rest), e) ↦
        rw (e, All)
          (match_range-IsOrdered (c ∷ s) r rest e, find_ranges-IsOrdered (length s - length rest) s)
  ]

  -- Every range found in a name goes up from its first episode to its last.
  pub episode_matches-IsOrdered : (path : Text) → All IsOrdered (episode_matches_for_path path)
  unfolding episode_matches_for_path
  episode_matches-IsOrdered path = find_ranges-IsOrdered 0 path

  -- The text of a canonical key names its own episode and no other.
  pub text_matches_key :
      (season episode season' episode' : ℕ)
      → season < 100
      → episode < 100
      → text_matches_episode (format_episode_key season episode) season' episode'
        ≡ (season =? season' && episode =? episode')
  unfolding text_matches_episode key_text episode_ranges_from_text episode_matches_for_path
      range_holds find_ranges match_range match_first match_second skip_separators match_end
      is_separator is_space has_hyphen after_to ordered_range
  text_matches_key s e s' e' h k = rw (format_episode_key-text s e h k) (
      ground (
        arith,
        digits_1_2_two (s / 10) (s % 10) (b'E' ∷ (b'0' + e / 10) ∷ (b'0' + e % 10) ∷ [])
            (omega arith) (omega arith),
        digits_1_2_two (e / 10) (e % 10) [] (omega arith) (omega arith),
      ))
