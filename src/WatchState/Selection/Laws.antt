-- ===== src/WatchState/Selection/Laws.antt =====
-- What the selections may do to a rule (app/services/watch_state.py).
use q_bittorrent_rss_rules.Prelude.{◌≡◌, ◌≢◌, Bool, true, false, List, [], arith}
use q_bittorrent_rss_rules.Prelude.Text.{Text}
use q_bittorrent_rss_rules.Prelude.Unicode.{Unicode}
use q_bittorrent_rss_rules.WatchState.Selection.{
  MovieWatchStateSelection, select_movie_watch_state, select_finished_series_watch_state,
}

-- The relation between a rule's two flags before and after a selection.
pub record Respects (enabled auto_disabled : Bool) (s : MovieWatchStateSelection) : Type 0 where
  -- A rule that the user disabled stays disabled.
  pub user_off : enabled ≡ false → auto_disabled ≡ false → s.effective_enabled ≡ false
  -- What watch state disabled is not enabled.
  pub auto_is_off : s.effective_auto_disabled ≡ true → s.effective_enabled ≡ false
  -- A rule is disabled only because of a source that reports completion.
  pub off_completed :
      enabled ≡ true
      → s.effective_enabled ≡ false
      → (s.effective_auto_disabled ≡ true) × (s.completed_sources ≢ [])
  -- Without such a source nothing stays disabled by watch state.
  pub open_not_auto : s.completed_sources ≡ [] → s.effective_auto_disabled ≡ false

module _ ⦃u : Unicode⦄ (source : Text) (present completed : Bool) (sources : List Text) where
  -- A movie selection never enables a rule that the user disabled; it disables an enabled rule only
  -- if some source reports completion, and then marks it; with no such source no mark is left.
  pub select_movie-Respects :
      (enabled auto_disabled keep : Bool)
      → Respects enabled auto_disabled
          (select_movie_watch_state source present completed sources enabled auto_disabled keep)
  unfolding select_movie_watch_state
  select_movie-Respects enabled auto_disabled keep = ground arith

  -- Applying a movie selection to its own result changes neither flag.
  pub select_movie_twice :
      (enabled auto_disabled keep : Bool)
      → let s =
          select_movie_watch_state source present completed sources enabled auto_disabled keep in
        let t =
          select_movie_watch_state source present completed sources s.effective_enabled
            s.effective_auto_disabled keep in
        (t.enabled_changed ≡ false) × (t.auto_disabled_changed ≡ false)
  unfolding select_movie_watch_state
  select_movie_twice enabled auto_disabled keep = ground arith

  -- A selection for a finished series never enables a rule that the user disabled; it disables an
  -- enabled rule only if some source reports completion, and then marks it; with no such source no
  -- mark is left.
  pub select_series-Respects :
      (enabled auto_disabled keep : Bool) (unseen : List Text)
      → Respects enabled auto_disabled (
          select_finished_series_watch_state source present completed sources enabled auto_disabled
            keep unseen)
  unfolding select_finished_series_watch_state
  select_series-Respects enabled auto_disabled keep unseen = ground arith
