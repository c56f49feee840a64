-- ===== src/SelectiveQueue/Plan.antt =====
-- Which episode files a rule still wants (app/services/selective_queue.py, with MediaType of
-- app/models.py and normalize_jellyfin_episode_keys of app/services/rule_builder.py).
pub mod Laws
use q_bittorrent_rss_rules.Prelude.{
  ℕ, zero, suc, ◌+◌, ◌-◌, Bool, true, false, ◌&&◌, ◌||◌, not, Option, none, some, List, [], ◌∷◌,
  ◌++◌, leb, ltb, ◌=?◌, if◌then◌else◌, contains, text_eq, any,
}
use q_bittorrent_rss_rules.Prelude.Text.{Text}
use q_bittorrent_rss_rules.Prelude.Unicode.{Unicode}
use q_bittorrent_rss_rules.WatchState.Keys.{
  Episode, format_episode_key, normalize_watch_state_episode_keys,
}
use q_bittorrent_rss_rules.SelectiveQueue.Ranges.{Range, episode_matches_for_path}
use q_bittorrent_rss_rules.SelectiveQueue.Files.{TorrentFileEntry, is_video_file}

pub data MediaType : Type 0 where
  series movie audiobook music other : MediaType

-- The columns of `Rule` that the queue reads; a list that is not set is empty.
pub record Rule : Type 0 where
  pub media_type : MediaType
  pub start_season : Option ℕ
  pub start_episode : Option ℕ
  pub jellyfin_search_existing_unseen : Bool
  pub jellyfin_watched_episode_numbers : List Text
  pub jellyfin_known_episode_numbers : List Text
  pub jellyfin_existing_episode_numbers : List Text

-- The excluded keys are a set: only membership is asked.
pub record EpisodeFileSelectionPlan : Type 0 where
  pub floor : Episode
  pub excluded_episode_keys : List Text

pub record EpisodeFileSelectionResult : Type 0 where
  pub selected_file_ids : List ℕ
  pub parsed_episode_file_count : ℕ
  pub skipped_episode_file_count : ℕ

-- `(a, b) >= (c, d)`
unfoldable pub episode_geb : Episode → Episode → Bool
episode_geb (a, b) (c, d) = ltb c a || a =? c && leb d b

-- The loop over the episodes of a range: `count` of them from `episode` on.
unfoldable pub accepts_from : EpisodeFileSelectionPlan → ℕ → ℕ → ℕ → Bool
unfolding episode_geb format_episode_key text_eq
accepts_from plan season episode zero = false
accepts_from plan season episode (suc count) =
    let rest = accepts_from plan season (suc episode) count in
    if contains plan.excluded_episode_keys (format_episode_key season episode)
    then rest
    else if episode_geb (season, episode) plan.floor
    then true
    else rest

unfoldable pub selection_plan_accepts_episode_range : EpisodeFileSelectionPlan → Range → Bool
unfolding accepts_from
selection_plan_accepts_episode_range plan (season, start, end) =
    accepts_from plan season start (end + 1 - start)

module _ ⦃u : Unicode⦄ where
  unfoldable pub normalize_jellyfin_episode_keys : List Text → List Text
  unfolding normalize_watch_state_episode_keys
  normalize_jellyfin_episode_keys value = normalize_watch_state_episode_keys value

  -- The three cases of the excluded keys.
  unfoldable pub excluded_keys : Rule → Bool → List Text
  unfolding normalize_jellyfin_episode_keys
  excluded_keys rule include_existing_unwatched =
      if include_existing_unwatched
      then normalize_jellyfin_episode_keys rule.jellyfin_watched_episode_numbers
      else if rule.jellyfin_search_existing_unseen
      then normalize_jellyfin_episode_keys rule.jellyfin_watched_episode_numbers
      else normalize_jellyfin_episode_keys
          (rule.jellyfin_known_episode_numbers ++ rule.jellyfin_existing_episode_numbers)

  -- The plan for a floor that may be missing.
  unfoldable pub plan_for_floor :
      Rule → Bool → Option ℕ → Option ℕ → Option EpisodeFileSelectionPlan
  unfolding excluded_keys
  plan_for_floor rule existing (some season) (some episode) =
      some
        (record { floor = (season, episode); excluded_episode_keys = excluded_keys rule existing })
  plan_for_floor rule existing none episode = none
  plan_for_floor rule existing (some season) none = none

  unfoldable pub plan_for_media : Rule → Bool → MediaType → Option EpisodeFileSelectionPlan
  unfolding plan_for_floor
  plan_for_media rule existing series =
      plan_for_floor rule existing rule.start_season rule.start_episode
  plan_for_media rule existing _ = none

  unfoldable pub episode_file_selection_plan : Rule → Bool → Option EpisodeFileSelectionPlan
  unfolding plan_for_media
  episode_file_selection_plan rule include_existing_unwatched =
      plan_for_media rule include_existing_unwatched rule.media_type

  unfoldable pub build_episode_file_selection_plan : Rule → Option EpisodeFileSelectionPlan
  unfolding episode_file_selection_plan
  build_episode_file_selection_plan rule = episode_file_selection_plan rule false

  -- One round of the loop, given what the later files add.
  unfoldable pub select_entry :
      EpisodeFileSelectionPlan
      → TorrentFileEntry
      → List Range
      → EpisodeFileSelectionResult
      → EpisodeFileSelectionResult
  unfolding selection_plan_accepts_episode_range
  select_entry plan entry [] rest = rest
  select_entry plan entry (m ∷ matches) rest =
      if any (selection_plan_accepts_episode_range plan) (m ∷ matches)
      then record {
        selected_file_ids = entry.file_id ∷ rest.selected_file_ids;
        parsed_episode_file_count = suc rest.parsed_episode_file_count;
        skipped_episode_file_count = rest.skipped_episode_file_count;
      }
      else record {
        selected_file_ids = rest.selected_file_ids;
        parsed_episode_file_count = suc rest.parsed_episode_file_count;
        skipped_episode_file_count = suc rest.skipped_episode_file_count;
      }

  unfoldable pub select_missing_episode_file_ids :
      List TorrentFileEntry → EpisodeFileSelectionPlan → EpisodeFileSelectionResult
  unfolding select_entry episode_matches_for_path is_video_file
  select_missing_episode_file_ids [] plan = record {
    selected_file_ids = [];
    parsed_episode_file_count = 0;
    skipped_episode_file_count = 0;
  }
  select_missing_episode_file_ids (entry ∷ files) plan =
      let rest = select_missing_episode_file_ids files plan in
      if is_video_file entry.path
      then select_entry plan entry (episode_matches_for_path entry.path) rest
      else rest
