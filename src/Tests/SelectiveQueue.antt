-- ===== src/Tests/SelectiveQueue.antt =====
-- Runs and applications for app/services/selective_queue.py.
use q_bittorrent_rss_rules.Prelude.{
  ℕ, ◌+◌, ◌≤◌, ◌≡◌, refl, ◌⊎◌, ◌↔◌, Bool, true, false, ◌&&◌, none, some, List, [], ◌∷◌, ◌=?◌, arith,
  All, Nodup, contains, text_eq, ltb, length, keep_if, map,
}
use q_bittorrent_rss_rules.Prelude.Text.{Text, codes, strip, is_space}
use q_bittorrent_rss_rules.Tests.Ascii.{ascii, lower_text}
use q_bittorrent_rss_rules.WatchState.Keys.{format_episode_key}
use q_bittorrent_rss_rules.SelectiveQueue.Ranges.{episode_matches_for_path, text_matches_episode}
use q_bittorrent_rss_rules.SelectiveQueue.Ranges.Laws.{text_matches_key}
use q_bittorrent_rss_rules.SelectiveQueue.Files.{
  TorrentFileEntry, find_episode_file_entry, is_candidate,
}
use q_bittorrent_rss_rules.SelectiveQueue.Files.Laws.{IsBest, IsAmong, find_entry-IsBest}
use q_bittorrent_rss_rules.SelectiveQueue.Plan.{
  Rule, EpisodeFileSelectionPlan, EpisodeFileSelectionResult, series,
  selection_plan_accepts_episode_range, select_missing_episode_file_ids,
}
use q_bittorrent_rss_rules.SelectiveQueue.Plan.Laws.{
  Wants, accepts_range_lem, select_missing_lem, is_wanted_file, is_episode_file,
}
use q_bittorrent_rss_rules.SelectiveQueue.Trackers.{is_blank, dedupe_tracker_urls}
use q_bittorrent_rss_rules.SelectiveQueue.Trackers.Laws.{dedupe_tracker_urls_lem}
use q_bittorrent_rss_rules.SelectiveQueue.Client.{
  Result, ok, raised, http_error, M, Options, Call, Webui, set_file_priority, get_torrent,
  wait_for_qb_torrent,
}
use q_bittorrent_rss_rules.SelectiveQueue.Client.Laws.{IsQuiet, wait_for_qb_torrent-IsQuiet}
use q_bittorrent_rss_rules.SelectiveQueue.Client.Once.{SubmitsOnce}
use q_bittorrent_rss_rules.SelectiveQueue.Submit.{
  ParsedTorrentInfo, QueueResult, Links, apply_priorities, selected_result,
  queue_result_with_optional_file_selection, resolve_link, fetch_torrent, must_not_hand_off,
}
use q_bittorrent_rss_rules.SelectiveQueue.Submit.Laws.{queue_result-SubmitsOnce}
use q_bittorrent_rss_rules.SelectiveQueue.Submit.Local.{
  KeepsLinks, StopsOn, local_link-not_handed_off,
}
use q_bittorrent_rss_rules.SelectiveQueue.Submit.Priorities.{apply_priorities-sets}
use q_bittorrent_rss_rules.SelectiveQueue.Grouped.{queue_grouped_search_results}
use q_bittorrent_rss_rules.SelectiveQueue.Grouped.Laws.{queue_grouped-SubmitsOnce}

abbrev range_text : Text
range_text = codes "Show.S01E03-E01.1080p s02 e5 to 07.mkv"

ranges : episode_matches_for_path range_text ≡ (1, 1, 3) ∷ (2, 5, 7) ∷ []
unfolding episode_matches_for_path is_space
ranges = refl

text_matches_key_example : text_matches_episode (format_episode_key 1 2) 1 3 ≡ (1 =? 1 && 2 =? 3)
text_matches_key_example = text_matches_key 1 2 1 3 (omega arith) (omega arith)

abbrev file : ℕ → Text → TorrentFileEntry
file i path = record { file_id = i; path = path; size_bytes = none }

abbrev files : List TorrentFileEntry
files =
    file 0 (codes "Show/S01E01-E03.mkv")
    ∷ file 1 (codes "Show/S01E02.mkv")
    ∷ file 2 (codes "Show/S01E02.nfo")
    ∷ []

found : find_episode_file_entry files 1 2 ≡ some (file 1 (codes "Show/S01E02.mkv"))
unfolding find_episode_file_entry is_space
found = refl

find_entry-IsBest_example :
    (is_candidate 1 2 (file 1 (codes "Show/S01E02.mkv")) ≡ true)
    × IsAmong (file 1 (codes "Show/S01E02.mkv")) files
    × All (λ f. is_candidate 1 2 f ≡ true → IsBest 1 2 (file 1 (codes "Show/S01E02.mkv")) f) files
find_entry-IsBest_example = find_entry-IsBest 1 2 files (file 1 (codes "Show/S01E02.mkv")) found

abbrev plan : EpisodeFileSelectionPlan
plan = record { floor = (1, 2); excluded_episode_keys = codes "S01E03" ∷ [] }

accepts_range_lem_example :
    (selection_plan_accepts_episode_range plan (1, 1, 3) ≡ true)
    ↔ ((n : ℕ) × (1 ≤ n) × (n ≤ 3) × Wants plan 1 n)
accepts_range_lem_example = accepts_range_lem plan 1 1 3 (omega arith)

select_missing_lem_example :
    let r = select_missing_episode_file_ids files plan in
    (r.selected_file_ids ≡ map (λ f. f.file_id) (keep_if (is_wanted_file plan) files))
    × (r.parsed_episode_file_count ≡ length (keep_if is_episode_file files))
    × (length r.selected_file_ids + r.skipped_episode_file_count ≡ r.parsed_episode_file_count)
select_missing_lem_example = select_missing_lem files plan

abbrev addresses : List Text
addresses = codes " udp://a " ∷ codes "UDP://A" ∷ [] ∷ codes "http://b" ∷ []

deduped : dedupe_tracker_urls addresses ≡ codes "udp://a" ∷ codes "http://b" ∷ []
unfolding dedupe_tracker_urls is_space
deduped = refl

dedupe_tracker_urls_lem_example :
    let keys = map lower_text (dedupe_tracker_urls addresses) in
    Nodup keys
    × All
        (λ url. (is_blank (strip url) ≡ true) ⊎ (contains keys (lower_text (strip url)) ≡ true))
        addresses
dedupe_tracker_urls_lem_example = dedupe_tracker_urls_lem addresses

-- A qBittorrent that accepts everything and lists a torrent from the second request on.
abbrev asked : List Call → ℕ
asked [] = 0
asked (get_torrent h ∷ calls) = 1 + asked calls
asked (_ ∷ calls) = asked calls

abbrev qb : Webui
qb = record {
  refuses = λ calls c. none;
  has_torrent = λ calls h. ltb 1 (asked calls);
  hashes = λ calls. [];
  trackers = λ calls h. [];
}

abbrev options : Options
options = record {
  category = [];
  save_path = [];
  paused = true;
  sequential_download = false;
  first_last_piece_prio = false;
}

abbrev parsed : ParsedTorrentInfo
parsed = record {
  info_hash = codes "ab";
  filename = codes "show.torrent";
  files = files;
  tracker_urls = [];
}

-- Links of which the given one is fetched and the others cannot be.
abbrev links_with : Result (List ℕ × Text) → Bool → Links
links_with answer is_local = record {
  parse_magnet_info_hash = λ link. none;
  normalize_http_url = λ link. link;
  rewrite_jackett_download_link_for_app_fetch = λ link. link;
  should_require_app_side_torrent_fetch = λ link. is_local;
  can_qb_remote_fetch_local_url = λ link. false;
  resolve_local_jackett_redirect_magnet_link = λ link. none;
  download_torrent_bytes = λ link. answer;
  parse_torrent_info = λ torrent_bytes name. ok parsed;
}

abbrev good_links : Links
good_links = links_with (ok (1 ∷ [], codes "a.torrent")) false

abbrev dead_links : Links
dead_links = links_with (raised (http_error (codes "404"))) true

abbrev rule : Rule
rule = record {
  media_type = series;
  start_season = some 1;
  start_episode = some 2;
  jellyfin_search_existing_unseen = false;
  jellyfin_watched_episode_numbers = [];
  jellyfin_known_episode_numbers = codes "S01E03" ∷ [];
  jellyfin_existing_episode_numbers = [];
}

selected :
    (queue_result_with_optional_file_selection good_links qb options
      (codes "http://x")
      (some rule)
      false
      []).0
    ≡ ok (
        selected_result false (record {
          selected_file_ids = 0 ∷ 1 ∷ [];
          parsed_episode_file_count = 2;
          skipped_episode_file_count = 0;
        }))
unfolding queue_result_with_optional_file_selection is_space
selected = refl

wait_for_qb_torrent-IsQuiet_example : IsQuiet 12 (wait_for_qb_torrent qb (codes "ab"))
wait_for_qb_torrent-IsQuiet_example = wait_for_qb_torrent-IsQuiet qb (codes "ab")

queue_result-SubmitsOnce_example : SubmitsOnce (
    queue_result_with_optional_file_selection good_links qb options
      (codes "http://x")
      (some rule)
      false)
queue_result-SubmitsOnce_example =
    queue_result-SubmitsOnce good_links qb options (codes "http://x") (some rule) false

queue_grouped-SubmitsOnce_example : SubmitsOnce (
    queue_grouped_search_results good_links
      (λ link. [])
      qb
      options
      (codes "http://x" ∷ codes "http://y" ∷ [])
      []
      addresses
      (some rule)
      false)
queue_grouped-SubmitsOnce_example =
    queue_grouped-SubmitsOnce good_links (λ link. []) qb options
      (codes "http://x" ∷ codes "http://y" ∷ []) [] addresses (some rule) false

resolved :
    resolve_link dead_links (codes "http://10.0.0.1/t")
    ≡ (codes "http://10.0.0.1/t", codes "http://10.0.0.1/t", none)
unfolding resolve_link
resolved = refl

not_fetched :
    fetch_torrent dead_links (codes "http://10.0.0.1/t") ≡ raised (http_error (codes "404"))
unfolding fetch_torrent
not_fetched = refl

kept : must_not_hand_off dead_links (codes "http://10.0.0.1/t") ≡ true
unfolding must_not_hand_off
kept = refl

abbrev local_run : M QueueResult
local_run =
    queue_result_with_optional_file_selection dead_links qb options (codes "http://10.0.0.1/t")
      (some rule) true

local_link-not_handed_off_example :
    KeepsLinks local_run × StopsOn (fetch_torrent dead_links (codes "http://10.0.0.1/t")) local_run
local_link-not_handed_off_example =
    local_link-not_handed_off dead_links qb options (some rule) true (codes "http://10.0.0.1/t")
      (codes "http://10.0.0.1/t") (codes "http://10.0.0.1/t") resolved kept

abbrev chosen : EpisodeFileSelectionResult
chosen = record {
  selected_file_ids = 1 ∷ [];
  parsed_episode_file_count = 2;
  skipped_episode_file_count = 1;
}

applied :
    (apply_priorities good_links qb options false parsed chosen []).0
    ≡ ok (selected_result false chosen)
unfolding apply_priorities is_space
applied = refl

apply_priorities-sets_example :
    ((wait_for_qb_torrent qb (codes "ab") []).0 ≡ ok true)
    × ((apply_priorities good_links qb options false parsed chosen []).1
        ≡ set_file_priority (codes "ab") (1 ∷ []) 1
          ∷ set_file_priority (codes "ab") (0 ∷ 1 ∷ 2 ∷ []) 0
          ∷ (wait_for_qb_torrent qb (codes "ab") []).1)
apply_priorities-sets_example =
    apply_priorities-sets good_links qb options false parsed chosen (selected_result false chosen)
      [] refl refl applied
