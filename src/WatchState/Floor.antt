-- ===== src/WatchState/Floor.antt =====
-- The episode floor of a series rule (app/services/watch_state.py). The caller's
-- `next_floor_after_episode` is a parameter. Seasons and episodes of a rule are not negative.
pub mod Laws
use q_bittorrent_rss_rules.Prelude.{
  is_empty, ℕ, suc, ◌+◌, Bool, true, false, ◌&&◌, ◌||◌, not, Option, none, some, List, [], ◌∷◌,
  ◌++◌, ltb, leb, ◌=?◌, if◌then◌else◌, ◌==◌, text_eq,
}
use mathlib.Core.Option
use q_bittorrent_rss_rules.Prelude.Text.{Text, codes}
use q_bittorrent_rss_rules.Prelude.Unicode.{Unicode}
use q_bittorrent_rss_rules.WatchState.Keys.{
  Episode, normalize_watch_state_episode_keys, watch_state_episode_key_tuple, format_episode_key,
}
use q_bittorrent_rss_rules.WatchState.Sorting.{
  episode_lt, episode_le, floor_tuple, sort_watch_state_episode_keys,
  merge_watch_state_episode_key_lists, latest_watch_state_episode_tuple,
}

pub record WatchStateDerivedFloor : Type 0 where
  pub watched_start_season : Option ℕ
  pub watched_start_episode : Option ℕ
  pub known_start_season : Option ℕ
  pub known_start_episode : Option ℕ
  pub last_watched_season : Option ℕ
  pub last_watched_episode : Option ℕ
  pub latest_existing_season : Option ℕ
  pub latest_existing_episode : Option ℕ
  pub latest_known_season : Option ℕ
  pub latest_known_episode : Option ℕ
  pub existing_unseen_episode_numbers : List Text
  pub known_episode_numbers : List Text
  pub watched_episode_numbers : List Text
  pub watched_floor_reason : Text
  pub known_floor_reason : Text

pub record WatchStateFloorSelection : Type 0 where
  pub effective_floor : Option Episode
  pub floor_changed : Bool
  pub floor_detail : Text

abbrev pub season : Option Episode → Option ℕ
season none = none
season (some (s, e)) = some s

abbrev pub episode : Option Episode → Option ℕ
episode none = none
episode (some (s, e)) = some e

-- A floor with the reason for it.
abbrev pub Reasoned : Type 0
Reasoned = Option Episode × Text

module _ ⦃u : Unicode⦄ where
  -- `episode_tuple is not None and episode_tuple > last_watched`
  unfoldable pub is_after : Episode → Text → Bool
  is_after last item = elim (watch_state_episode_key_tuple item) [
    | none ↦ false
    | some e ↦ episode_lt last e
  ]

  -- `next(…, None)`: the first of the keys that lies after the last watched episode.
  unfoldable pub next_after : Episode → List Text → Option Episode
  next_after last [] = none
  next_after last (item ∷ items) =
      let rest = next_after last items in
      elim (watch_state_episode_key_tuple item) [
        | none ↦ rest
        | some e ↦ if episode_lt last e then some e else rest
      ]

  unfoldable pub unseen_after : Option Episode → List Text → List Text
  unfolding is_after
  unseen_after none items = items
  unseen_after (some last) [] = []
  unseen_after (some last) (item ∷ items) =
      let rest = unseen_after (some last) items in if is_after last item then item ∷ rest else rest

  module _ (source_label : Text) (next_floor_after_episode : Episode → Episode × Text) where
    unfoldable pub watched_floor : Option Episode → List Text → Reasoned
    unfolding next_after format_episode_key
    watched_floor none current =
        (none, codes "No watched " ++ source_label ++ codes " episodes were found.")
    watched_floor (some last) current = elim (next_after last current) [
      | some next ↦ (
        some next,
        codes "Advanced to "
            ++ format_episode_key next.0 next.1
            ++ codes " from "
            ++ source_label
            ++ codes " progress through "
            ++ format_episode_key last.0 last.1
            ++ codes ". This rule keeps searching existing unseen "
            ++ source_label
            ++ codes " episodes.",
      )
      | none ↦ (
        some (next_floor_after_episode last).0,
        (next_floor_after_episode last).1
            ++ codes " This rule keeps searching existing unseen "
            ++ source_label
            ++ codes " episodes.",
      )
    ]

    unfoldable pub known_floor : Option Episode → Reasoned
    known_floor none =
        (none, codes "No remembered " ++ source_label ++ codes " episode history was found.")
    known_floor (some latest) =
        (some (next_floor_after_episode latest).0, (next_floor_after_episode latest).1)

    unfoldable pub derive_watch_state_floor :
        (current_episodes current_watched remembered_known remembered_watched : List Text)
        → Option WatchStateDerivedFloor
    unfolding sort_watch_state_episode_keys normalize_watch_state_episode_keys
        merge_watch_state_episode_key_lists latest_watch_state_episode_tuple watched_floor
        known_floor unseen_after
    derive_watch_state_floor current_episodes current_watched remembered_known remembered_watched =
        let current = sort_watch_state_episode_keys current_episodes in
        let watched_now = sort_watch_state_episode_keys current_watched in
        let known =
          merge_watch_state_episode_key_lists
            (normalize_watch_state_episode_keys remembered_known ∷ current ∷ []) in
        let watched =
          merge_watch_state_episode_key_lists
            (normalize_watch_state_episode_keys remembered_watched ∷ watched_now ∷ []) in
        let last_watched = latest_watch_state_episode_tuple watched in
        let latest_existing = latest_watch_state_episode_tuple current in
        let latest_known = latest_watch_state_episode_tuple known in
        let (watched_next, watched_reason) = watched_floor last_watched current in
        let (known_next, known_reason) = known_floor latest_known in
        if is_empty known
        then none
        else some (record {
          watched_start_season = season watched_next;
          watched_start_episode = episode watched_next;
          known_start_season = season known_next;
          known_start_episode = episode known_next;
          last_watched_season = season last_watched;
          last_watched_episode = episode last_watched;
          latest_existing_season = season latest_existing;
          latest_existing_episode = episode latest_existing;
          latest_known_season = season latest_known;
          latest_known_episode = episode latest_known;
          existing_unseen_episode_numbers =
              sort_watch_state_episode_keys (unseen_after last_watched current);
          known_episode_numbers = known;
          watched_episode_numbers = watched;
          watched_floor_reason = watched_reason;
          known_floor_reason = known_reason;
        })

  abbrev known_start : WatchStateDerivedFloor → Option Episode
  known_start d = floor_tuple d.known_start_season d.known_start_episode

  abbrev watched_start : WatchStateDerivedFloor → Option Episode
  watched_start d = floor_tuple d.watched_start_season d.watched_start_episode

  or_known : WatchStateDerivedFloor → Option Episode → Reasoned → Reasoned
  or_known d current (some next, detail) = (some next, detail)
  or_known d current (none, detail) = elim (known_start d) [
    | some next ↦ (some next, detail)
    | none ↦ (current, d.known_floor_reason)
  ]

  -- The floor that the derived progress asks for.
  unfoldable pub next_floor : WatchStateDerivedFloor → Option Episode → Bool → Text → Reasoned
  unfolding or_known floor_tuple text_eq
  next_floor d current keep_searching source_label = or_known d current (
      if not keep_searching && not (u.casefold source_label == codes "stremio")
      then (known_start d, d.known_floor_reason)
      else (watched_start d, d.watched_floor_reason))

  -- `next_floor[1] > 0 and current[0] == next_floor[0] + 1 and current[1] == 0`
  unfoldable pub is_next_season_bounce : Episode → Episode → Bool
  is_next_season_bounce current next = ltb 0 next.1 && current.0 =? next.0 + 1 && current.1 =? 0

  unfoldable pub settle_floor : Episode → Episode → Text → Bool → Text → WatchStateFloorSelection
  unfolding is_next_season_bounce
  settle_floor current next source_label correct_ahead detail =
      if episode_le next current && not (correct_ahead && episode_lt next current)
      then (if is_next_season_bounce current next
          then record {
            effective_floor = some next;
            floor_changed = true;
            floor_detail =
                codes "Corrected previous next-season floor back to "
                ++ source_label
                ++ codes "-derived progress.";
          }
          else record {
            effective_floor = some current;
            floor_changed = false;
            floor_detail =
                if episode_lt next current
                then codes "Current rule floor is already ahead of "
                  ++ source_label
                  ++ codes "-derived progress."
                else codes "Current rule floor already matches "
                  ++ source_label
                  ++ codes "-derived progress.";
          })
      else record {
        effective_floor = some next;
        floor_changed = not (current.0 =? next.0 && current.1 =? next.1);
        floor_detail = detail;
      }

  select_from : Option Episode → Reasoned → Text → Bool → WatchStateFloorSelection
  unfolding settle_floor
  select_from current (none, detail) source_label correct_ahead = record {
    effective_floor = current;
    floor_changed = false;
    floor_detail = detail;
  }
  select_from none (some next, detail) source_label correct_ahead = record {
    effective_floor = some next;
    floor_changed = true;
    floor_detail = detail;
  }
  select_from (some current) (some next, detail) source_label correct_ahead =
      settle_floor current next source_label correct_ahead detail

  unfoldable pub select_watch_state_floor :
      (derived : WatchStateDerivedFloor) (current_floor : Option Episode)
      (keep_searching_existing_unseen : Bool) (source_label : Text) (correct_ahead_floor : Bool)
      → WatchStateFloorSelection
  unfolding next_floor select_from
  select_watch_state_floor derived current keep source_label correct_ahead =
      select_from current (next_floor derived current keep source_label) source_label correct_ahead
