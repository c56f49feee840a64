-- ===== src/WatchState/Sorting.antt =====
-- Ordered lists of episode keys, the latest episode, and the floor after an episode
-- (app/services/watch_state.py).
pub mod Laws
pub mod Latest
use mathlib.Core.List.{flatten}
use q_bittorrent_rss_rules.Prelude.{
  ℕ, ◌+◌, Bool, true, false, ◌&&◌, ◌||◌, Option, none, some, List, [], ◌∷◌, ◌++◌, map, ltb, leb,
  ◌=?◌, if◌then◌else◌,
}
use q_bittorrent_rss_rules.Prelude.Text.{Text}
use q_bittorrent_rss_rules.Prelude.Unicode.{Unicode}
use q_bittorrent_rss_rules.Prelude.Sort.{sort_by}
use q_bittorrent_rss_rules.WatchState.Keys.{
  Episode, normalize_watch_state_episode_keys, watch_state_episode_key_tuple,
}

-- The order of Python's tuples: `a < b` and `a <= b`.
abbrev pub episode_lt : Episode → Episode → Bool
episode_lt (s, e) (s', e') = ltb s s' || s =? s' && ltb e e'

abbrev pub episode_le : Episode → Episode → Bool
episode_le (s, e) (s', e') = ltb s s' || s =? s' && leb e e'

-- `floor_tuple`
unfoldable pub floor_tuple : Option ℕ → Option ℕ → Option Episode
floor_tuple none e = none
floor_tuple (some s) none = none
floor_tuple (some s) (some e) = some (s, e)

unfoldable pub increment_floor : ℕ → ℕ → Episode
increment_floor season episode =
    if ltb episode 99
    then (season, episode + 1)
    else if ltb season 99
    then (season + 1, 1)
    else (season, episode)

abbrev pub Keyed : Type 0
Keyed = Episode × Text

abbrev pub keyed_le : Keyed → Keyed → Bool
keyed_le (a, x) (b, y) = episode_le a b

module _ ⦃u : Unicode⦄ where
  -- The loop that pairs each key with its numbers.
  unfoldable pub keyed : List Text → List Keyed
  keyed [] = []
  keyed (item ∷ items) =
      let rest = keyed items in
      elim (watch_state_episode_key_tuple item) [
        | none ↦ rest
        | some episode ↦ (episode, item) ∷ rest
      ]

  unfoldable pub sort_watch_state_episode_keys : List Text → List Text
  unfolding normalize_watch_state_episode_keys keyed sort_by
  sort_watch_state_episode_keys values =
      map (λ (k : Keyed). k.1)
        (sort_by keyed_le (keyed (normalize_watch_state_episode_keys values)))

  unfoldable pub merge_watch_state_episode_key_lists : List (List Text) → List Text
  unfolding sort_watch_state_episode_keys
  merge_watch_state_episode_key_lists lists = sort_watch_state_episode_keys (flatten lists)

  -- `if latest is None or episode_tuple > latest`
  abbrev later : Option Episode → Episode → Option Episode
  later none e = some e
  later (some l) e = some (if episode_lt l e then e else l)

  unfoldable pub latest_from : Option Episode → List Text → Option Episode
  latest_from latest [] = latest
  latest_from latest (item ∷ items) =
      latest_from
        (elim (watch_state_episode_key_tuple item) [
          | none ↦ latest
          | some episode ↦ later latest episode
        ])
        items

  unfoldable pub latest_watch_state_episode_tuple : List Text → Option Episode
  unfolding latest_from
  latest_watch_state_episode_tuple values = latest_from none values
