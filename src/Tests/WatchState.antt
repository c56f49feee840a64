-- ===== src/Tests/WatchState.antt =====
-- app/services/watch_state.py on concrete watch states.
use mathlib.Core.List.{Perm}
use q_bittorrent_rss_rules.Prelude.{
  ◌≡◌, refl, ◌⊎◌, Bool, true, false, none, some, List, [], ◌∷◌, arith, text_eq, Nodup, All,
}
use q_bittorrent_rss_rules.Prelude.Int.{pos, negsuc}
use q_bittorrent_rss_rules.Prelude.Text.{Text, codes, is_space}
use q_bittorrent_rss_rules.WatchState.Keys.{
  normalize_watch_state_episode_keys, watch_state_episode_key_tuple,
  watch_state_episode_key_from_tuple,
}
use q_bittorrent_rss_rules.WatchState.Keys.Laws.{episode_key_roundtrip}
use q_bittorrent_rss_rules.WatchState.Keys.Lists.{AllKeys, normalize_lem}
use q_bittorrent_rss_rules.WatchState.Sorting.{
  episode_le, sort_watch_state_episode_keys, latest_watch_state_episode_tuple,
}
use q_bittorrent_rss_rules.WatchState.Sorting.Laws.{Ascending, sort_keys_lem}
use q_bittorrent_rss_rules.WatchState.Sorting.Latest.{latest_lem, UpTo, Attained}
use q_bittorrent_rss_rules.WatchState.Labels.{
  normalize_source_label, normalize_watch_state_source_labels,
}
use q_bittorrent_rss_rules.WatchState.Progress.{
  WatchProgressRecord, WatchProgressSelection, choose_newer_watch_progress,
}
use q_bittorrent_rss_rules.WatchState.Progress.Laws.{Decided, choose_newer_lem}
use q_bittorrent_rss_rules.WatchState.Floor.{
  WatchStateDerivedFloor, is_next_season_bounce, select_watch_state_floor,
}
use q_bittorrent_rss_rules.WatchState.Floor.Laws.{select_floor-forward}
use q_bittorrent_rss_rules.WatchState.Selection.{
  select_movie_watch_state, select_finished_series_watch_state,
}
use q_bittorrent_rss_rules.WatchState.Selection.Laws.{
  Respects, select_movie-Respects, select_series-Respects,
}
use q_bittorrent_rss_rules.Tests.Ascii.{ascii}

abbrev raw_keys : List Text
raw_keys = codes " s2e5" ∷ codes "S01E02" ∷ codes "s1e2 " ∷ codes "S1E100" ∷ codes "special" ∷ []

normalized : normalize_watch_state_episode_keys raw_keys ≡ codes "S02E05" ∷ codes "S01E02" ∷ []
unfolding normalize_watch_state_episode_keys is_space
normalized = refl

sorted : sort_watch_state_episode_keys raw_keys ≡ codes "S01E02" ∷ codes "S02E05" ∷ []
unfolding sort_watch_state_episode_keys watch_state_episode_key_tuple is_space
sorted = refl

latest : latest_watch_state_episode_tuple raw_keys ≡ some (2, 5)
unfolding latest_watch_state_episode_tuple watch_state_episode_key_tuple is_space
latest = refl

episode_key_roundtrip_example :
    watch_state_episode_key_tuple (watch_state_episode_key_from_tuple (3, 14)) ≡ some (3, 14)
episode_key_roundtrip_example = episode_key_roundtrip 3 14 (omega arith) (omega arith)

normalize_lem_example :
    let keys = normalize_watch_state_episode_keys raw_keys in
    AllKeys keys × Nodup keys × (normalize_watch_state_episode_keys keys ≡ keys)
normalize_lem_example = normalize_lem raw_keys

sort_keys_lem_example :
    Ascending (sort_watch_state_episode_keys raw_keys)
    × Perm (sort_watch_state_episode_keys raw_keys) (normalize_watch_state_episode_keys raw_keys)
sort_keys_lem_example = sort_keys_lem raw_keys

latest_lem_example : All (UpTo (2, 5)) raw_keys × Attained (2, 5) raw_keys
latest_lem_example = latest_lem raw_keys (2, 5) latest

abbrev labels : List Text
labels = codes "Stremio" ∷ codes " Jellyfin-Server " ∷ codes "stremio" ∷ codes "--" ∷ []

labels_normalized :
    normalize_watch_state_source_labels labels ≡ codes "jellyfin_server" ∷ codes "stremio" ∷ []
unfolding normalize_watch_state_source_labels normalize_source_label is_space text_eq
labels_normalized = refl

abbrev seen : WatchProgressRecord
seen = record {
  source = codes "jellyfin";
  media_type = codes "movie";
  item_key = codes "tt1";
  provider_item_id = codes "1";
  position_ms = pos 90000;
  duration_ms = none;
  completed = false;
  updated_at = some 10;
}

abbrev rewound : WatchProgressRecord
rewound = record seen { source = codes "stremio"; position_ms = negsuc 0; updated_at = some 11 }

abbrev chosen : WatchProgressSelection
chosen = record {
  winner = rewound;
  loser = seen;
  delta_ms = 90001;
  reason = codes "newer progress";
}

seen-rewound : choose_newer_watch_progress seen rewound 30000 ≡ some chosen
unfolding choose_newer_watch_progress
seen-rewound = refl

choose_newer_lem_example :
    Decided seen rewound 30000 (choose_newer_watch_progress seen rewound 30000)
choose_newer_lem_example = choose_newer_lem seen rewound 30000

abbrev derived : WatchStateDerivedFloor
derived = record {
  watched_start_season = some 1;
  watched_start_episode = some 3;
  known_start_season = some 2;
  known_start_episode = some 6;
  last_watched_season = some 1;
  last_watched_episode = some 2;
  latest_existing_season = some 2;
  latest_existing_episode = some 5;
  latest_known_season = some 2;
  latest_known_episode = some 5;
  existing_unseen_episode_numbers = codes "S02E05" ∷ [];
  known_episode_numbers = codes "S01E02" ∷ codes "S02E05" ∷ [];
  watched_episode_numbers = codes "S01E02" ∷ [];
  watched_floor_reason = codes "w";
  known_floor_reason = codes "k";
}

abbrev jellyfin : Text
jellyfin = codes "Jellyfin"

corrected :
    (select_watch_state_floor derived (some (2, 0)) true jellyfin false).effective_floor
    ≡ some (1, 3)
unfolding select_watch_state_floor
corrected = refl

select_floor-forward_example :
    (episode_le (2, 0) (1, 3) ≡ true)
    ⊎ (◌≡◌ {A = Bool} false true)
    ⊎ (is_next_season_bounce (2, 0) (1, 3) ≡ true)
select_floor-forward_example =
    select_floor-forward derived (2, 0) (1, 3) true jellyfin false corrected

select_movie-Respects_example :
    Respects true false (select_movie_watch_state jellyfin true true [] true false false)
select_movie-Respects_example = select_movie-Respects jellyfin true true [] true false false

select_series-Respects_example :
    Respects true false
      (select_finished_series_watch_state jellyfin true true [] true false true [])
select_series-Respects_example = select_series-Respects jellyfin true true [] true false true []
