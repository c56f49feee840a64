-- ===== src/WatchState/Floor/Laws.antt =====
-- How the floor of a series rule moves (app/services/watch_state.py).
use q_bittorrent_rss_rules.Prelude.{
  ◌≡◌, ◌≢◌, ◌↔◌, ◌⊎◌, Bool, true, false, Option, none, some, List, arith, All, text_eq,
}
use q_bittorrent_rss_rules.Prelude.Text.{Text}
use q_bittorrent_rss_rules.Prelude.Unicode.{Unicode}
use q_bittorrent_rss_rules.WatchState.Keys.{Episode, watch_state_episode_key_tuple}
use q_bittorrent_rss_rules.WatchState.Sorting.{episode_lt, episode_le}
use q_bittorrent_rss_rules.WatchState.Floor.{
  WatchStateDerivedFloor, WatchStateFloorSelection, is_after, next_floor, settle_floor, select_from,
  Reasoned, is_next_season_bounce, select_watch_state_floor,
}

module _ ⦃u : Unicode⦄ where
  settle_floor-forward :
      (current next : Episode) (source : Text) (correct : Bool) (detail : Text) (e : Episode)
      → (settle_floor current next source correct detail).effective_floor ≡ some e
      → (episode_le current e ≡ true) ⊎ (correct ≡ true) ⊎ (is_next_season_bounce current e ≡ true)
  unfolding settle_floor
  settle_floor-forward current next source correct detail e h = ground arith

  select_from-forward :
      (current : Episode) (r : Reasoned) (source : Text) (correct : Bool) (e : Episode)
      → (select_from (some current) r source correct).effective_floor ≡ some e
      → (episode_le current e ≡ true) ⊎ (correct ≡ true) ⊎ (is_next_season_bounce current e ≡ true)
  unfolding select_from
  select_from-forward current (none, detail) source correct e h = ground arith
  select_from-forward current (some next, detail) source correct e h =
      settle_floor-forward current next source correct detail e h

  abbrev ReportsChange : Option Episode → WatchStateFloorSelection → Type 0
  ReportsChange current s =
      ((s.floor_changed ≡ false) ↔ (s.effective_floor ≡ current))
      × (current ≢ none → s.effective_floor ≢ none)

  settle_floor-changed :
      (current next : Episode) (source : Text) (correct : Bool) (detail : Text)
      → ReportsChange (some current) (settle_floor current next source correct detail)
  unfolding settle_floor
  settle_floor-changed current next source correct detail = ground arith

  select_from-changed :
      (current : Option Episode) (r : Reasoned) (source : Text) (correct : Bool)
      → ReportsChange current (select_from current r source correct)
  unfolding select_from
  select_from-changed current (none, detail) source correct = ground arith
  select_from-changed none (some next, detail) source correct = ground arith
  select_from-changed (some current) (some next, detail) source correct =
      settle_floor-changed current next source correct detail

  -- A selection never moves the floor of a rule back, except where the caller asks for a correction
  -- of a floor that is ahead, or where the current floor is episode 0 of the season after the new
  -- floor's season.
  pub select_floor-forward :
      (derived : WatchStateDerivedFloor) (current e : Episode) (keep : Bool) (source : Text)
      (correct_ahead : Bool)
      → (select_watch_state_floor derived (some current) keep source correct_ahead).effective_floor
        ≡ some e
      → (episode_le current e ≡ true)
        ⊎ (correct_ahead ≡ true)
        ⊎ (is_next_season_bounce current e ≡ true)
  unfolding select_watch_state_floor
  select_floor-forward derived current e keep source correct h =
      select_from-forward current (next_floor derived (some current) keep source) source correct e h

  -- The selection reports a change exactly when its floor differs from the current one, and a rule
  -- that has a floor keeps one.
  pub select_floor-changed :
      (derived : WatchStateDerivedFloor) (current : Option Episode) (keep : Bool) (source : Text)
      (correct_ahead : Bool)
      → let s = select_watch_state_floor derived current keep source correct_ahead in
        ((s.floor_changed ≡ false) ↔ (s.effective_floor ≡ current))
        × (current ≢ none → s.effective_floor ≢ none)
  unfolding select_watch_state_floor
  select_floor-changed derived current keep source correct =
      select_from-changed current (next_floor derived current keep source) source correct

  -- If the text is read as an episode after `last`, then not before `n`.
  abbrev pub NotBefore : Episode → Episode → Text → Type 0
  NotBefore last n item =
      (v : Episode)
      → watch_state_episode_key_tuple item ≡ some v
      → episode_lt last v ≡ true
      → episode_le n v ≡ true

  -- What is found is after `last` and is the least such; nothing is found if there is none.
  abbrev pub IsNext : Episode → List Text → Option Episode → Type 0
  IsNext last items none = All (λ item. is_after last item ≡ false) items
  IsNext last items (some n) = (episode_lt last n ≡ true) × All (NotBefore last n) items
