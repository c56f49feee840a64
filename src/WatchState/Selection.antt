-- ===== src/WatchState/Selection.antt =====
-- `select_movie_watch_state` and `select_finished_series_watch_state` (app/services/watch_state.py):
-- whether a rule is enabled, and whether watch state is what disabled it.
pub mod Laws
use q_bittorrent_rss_rules.Prelude.{
  is_empty, Bool, true, false, ◌&&◌, ◌||◌, not, Option, none, some, List, [], ◌∷◌, ◌++◌,
  if◌then◌else◌, ◌==◌, text_eq, keep_if, Eq,
}
use q_bittorrent_rss_rules.Prelude.Text.{Text, codes}
use q_bittorrent_rss_rules.Prelude.Unicode.{Unicode}
use q_bittorrent_rss_rules.WatchState.Keys.{normalize_watch_state_episode_keys}
use q_bittorrent_rss_rules.WatchState.Labels.{
  normalize_source_label, normalize_watch_state_source_labels, format_watch_state_source_labels,
}
use q_bittorrent_rss_rules.WatchState.Progress.{differ}

pub record MovieWatchStateSelection : Type 0 where
  pub completed_sources : List Text
  pub completion_changed : Bool
  pub effective_enabled : Bool
  pub enabled_changed : Bool
  pub effective_auto_disabled : Bool
  pub auto_disabled_changed : Bool
  pub detail : Text

-- The property `changed`.
unfoldable pub changed : MovieWatchStateSelection → Bool
changed s = s.completion_changed || s.enabled_changed || s.auto_disabled_changed

-- What is decided of a rule: enabled, disabled by watch state, and the text for the log.
pub record Decision : Type 0 where
  pub enabled : Bool
  pub auto_disabled : Bool
  pub detail : Text

-- `a != b` on lists of texts
unfoldable pub lists_differ : List Text → List Text → Bool
unfolding text_eq
lists_differ [] [] = false
lists_differ (x ∷ xs) (y ∷ ys) = not (x == y) || lists_differ xs ys
lists_differ _ _ = true

abbrev without : Option Text → List Text → List Text
without none labels = labels
without (some label) labels = keep_if (λ x. not (x == label)) labels

-- The branches that the two selections share: `sources` report a completed state.
unfoldable pub decide_completed :
    (enabled auto_disabled : Bool) (disabled remains unset : Text) → Decision
decide_completed true auto_disabled disabled remains unset = record {
  enabled = false;
  auto_disabled = true;
  detail = disabled;
}
decide_completed false true disabled remains unset = record {
  enabled = false;
  auto_disabled = true;
  detail = remains;
}
decide_completed false false disabled remains unset = record {
  enabled = false;
  auto_disabled = false;
  detail = unset;
}

-- And those in which none does.
unfoldable pub decide_open :
    (enabled auto_disabled : Bool) (enabled_again unchanged : Text) → Decision
decide_open enabled true again unchanged = record {
  enabled = true;
  auto_disabled = false;
  detail = again;
}
decide_open enabled false again unchanged = record {
  enabled = enabled;
  auto_disabled = false;
  detail = unchanged;
}

not_set : Text
not_set = codes "but the current disabled state was not set by watch-state sync."

unfoldable pub decide_movie :
    (keep_searching enabled auto_disabled completed : Bool) (display : Text) → Decision
unfolding decide_completed decide_open not_set
decide_movie true enabled auto_disabled completed display =
    let effective = if auto_disabled then true else enabled in
    record {
      enabled = effective;
      auto_disabled = false;
      detail =
          if not completed
          then codes "No connected source currently reports this movie as completed."
          else if effective
          then codes "Completed watch state is reported by "
            ++ display
            ++ codes ". Keep-search is enabled, so watch-state sync leaves this rule active."
          else codes "Completed watch state is reported by "
            ++ display
            ++ codes
                ". Keep-search is enabled, so watch-state sync leaves the current disabled state unchanged.";
    }
decide_movie false enabled auto_disabled true display =
    decide_completed enabled auto_disabled
      (codes "Disabled because completed watch state is reported by " ++ display ++ codes ".")
      (codes "Movie remains auto-disabled because completed watch state is reported by "
        ++ display
        ++ codes ".")
      (codes "Completed watch state is reported by " ++ display ++ codes ", " ++ not_set)
decide_movie false enabled auto_disabled false display =
    decide_open enabled auto_disabled
      (codes "Re-enabled because no connected source currently reports this movie as completed.")
      (codes "No connected source currently reports this movie as completed.")

unfoldable pub decide_series :
    (keep_unseen enabled auto_disabled completed : Bool) (display : Text) → Decision
unfolding decide_completed decide_open not_set
decide_series true enabled auto_disabled completed display = record {
  enabled = if auto_disabled then true else enabled;
  auto_disabled = false;
  detail =
      codes
        "Finished-series watch state is not applied because keep-search existing unseen episodes still has remaining episode inventory.";
}
decide_series false enabled auto_disabled true display =
    decide_completed enabled auto_disabled
      (codes "Disabled because finished-series watch state is reported by " ++ display ++ codes ".")
      (codes "Series remains auto-disabled because finished-series watch state is reported by "
        ++ display
        ++ codes ".")
      (codes "Finished-series watch state is reported by " ++ display ++ codes ", " ++ not_set)
decide_series false enabled auto_disabled false display =
    decide_open enabled auto_disabled
      (codes
        "Re-enabled because no connected source currently proves this series is finished and fully watched.")
      (codes "No connected source currently proves this series is finished and fully watched.")

module _ ⦃u : Unicode⦄ where
  -- `next_completed_sources`: the source's own label goes, and comes back if it reports completion.
  unfoldable pub next_completed_sources :
      (label : Option Text) (completed : Bool) → List Text → List Text
  unfolding normalize_watch_state_source_labels
  next_completed_sources none completed previous = normalize_watch_state_source_labels previous
  next_completed_sources (some label) completed previous = normalize_watch_state_source_labels (
      if completed
      then without (some label) previous ++ label ∷ []
      else without (some label) previous)

  unfoldable pub selection :
      (previous next : List Text) (enabled auto_disabled : Bool)
      → Decision
      → MovieWatchStateSelection
  unfolding lists_differ
  selection previous next enabled auto_disabled d = record {
    completed_sources = next;
    completion_changed = lists_differ next previous;
    effective_enabled = d.enabled;
    enabled_changed = differ d.enabled enabled;
    effective_auto_disabled = d.auto_disabled;
    auto_disabled_changed = differ d.auto_disabled auto_disabled;
    detail = d.detail;
  }

  unfoldable pub select_movie_watch_state :
      (source_label : Text) (source_present source_completed : Bool)
      (current_completed_sources : List Text)
      (current_enabled current_auto_disabled keep_searching : Bool)
      → MovieWatchStateSelection
  unfolding normalize_source_label normalize_watch_state_source_labels next_completed_sources
      format_watch_state_source_labels decide_movie selection
  select_movie_watch_state source present completed sources enabled auto_disabled keep =
      let previous = normalize_watch_state_source_labels sources in
      let next =
        next_completed_sources (normalize_source_label source) (present && completed) previous in
      selection previous next enabled auto_disabled (
        decide_movie keep enabled auto_disabled (not (is_empty next))
          (format_watch_state_source_labels next))

  unfoldable pub select_finished_series_watch_state :
      (source_label : Text) (source_present source_completed : Bool)
      (current_completed_sources : List Text)
      (current_enabled current_auto_disabled keep_searching_existing_unseen : Bool)
      (existing_unseen_episode_numbers : List Text)
      → MovieWatchStateSelection
  unfolding normalize_source_label normalize_watch_state_source_labels next_completed_sources
      format_watch_state_source_labels normalize_watch_state_episode_keys decide_series selection
  select_finished_series_watch_state source present completed sources enabled auto_disabled keep
        unseen =
      let previous = normalize_watch_state_source_labels sources in
      let next =
        next_completed_sources (normalize_source_label source) (present && completed) previous in
      let has_unseen = not (is_empty (normalize_watch_state_episode_keys unseen)) in
      selection previous next enabled auto_disabled (
        decide_series (keep && has_unseen) enabled auto_disabled (not (is_empty next))
          (format_watch_state_source_labels next))
