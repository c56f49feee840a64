-- ===== src/SelectiveQueue/Submit.antt =====
-- `queue_result_with_optional_file_selection` (app/services/selective_queue.py): one result link is
-- queued, whole or with a selection of its files. Reading links and torrent files is an interface
-- here, `Links`, as urllib, httpx, ipaddress, hashlib and the bencode decoder stand behind it.
pub mod Laws
pub mod Local
pub mod Priorities
use q_bittorrent_rss_rules.Prelude.{
  ℕ, zero, suc, Bool, true, false, ◌&&◌, ◌||◌, not, Option, none, some, List, [], ◌∷◌, ◌++◌, map,
  if◌then◌else◌, length, ltb,
}
use q_bittorrent_rss_rules.Prelude.Text.{Text, codes, show}
use q_bittorrent_rss_rules.Prelude.Unicode.{Unicode}
use q_bittorrent_rss_rules.SelectiveQueue.Files.{TorrentFileEntry}
use q_bittorrent_rss_rules.SelectiveQueue.Plan.{
  Rule, EpisodeFileSelectionPlan, EpisodeFileSelectionResult, episode_file_selection_plan,
  select_missing_episode_file_ids,
}
use q_bittorrent_rss_rules.SelectiveQueue.Client.{
  Failure, selective_queue_error, client_error, http_error, Result, ok, raised, Options,
  add_torrent_file, add_torrent_url, start_deferred_file_selection_worker, Webui, M, pure, raise,
  ◌>>=◌, ◌>>◌, request, client_set_file_priority, wait_for_qb_torrent,
  add_torrent_url_with_optional_verification,
}

pub record ParsedTorrentInfo : Type 0 where
  pub info_hash : Text
  pub filename : Text
  pub files : List TorrentFileEntry
  pub tracker_urls : List Text

pub record QueueResult : Type 0 where
  pub message : Text
  pub selected_file_count : ℕ
  pub skipped_file_count : ℕ
  pub deferred_file_selection : Bool
  pub queued_via_torrent_file : Bool

-- The module's functions on links and torrent files, by their names.
pub record Links : Type 0 where
  pub parse_magnet_info_hash : Text → Option Text
  pub normalize_http_url : Text → Text
  -- The two base addresses are those of the request.
  pub rewrite_jackett_download_link_for_app_fetch : Text → Text
  pub should_require_app_side_torrent_fetch : Text → Bool
  -- The address of qBittorrent is that of the request.
  pub can_qb_remote_fetch_local_url : Text → Bool
  pub resolve_local_jackett_redirect_magnet_link : Text → Option Text
  pub download_torrent_bytes : Text → Result (List ℕ × Text)
  pub parse_torrent_info : List ℕ → Text → Result ParsedTorrentInfo

-- `QueueResult()`
abbrev pub plain_result : QueueResult
plain_result = record {
  message = [];
  selected_file_count = 0;
  skipped_file_count = 0;
  deferred_file_selection = false;
  queued_via_torrent_file = false;
}

abbrev pub could_not_fetch : Failure
could_not_fetch = selective_queue_error (
    codes "Could not fetch a valid torrent file from the local Jackett-style URL, "
    ++ codes "so the app did not hand it off to qBittorrent for remote fetching.")

abbrev pub not_visible : Failure
not_visible = selective_queue_error (
    codes "The torrent was submitted to qBittorrent but did not appear in its list; "
    ++ codes "selective file priorities were not applied. Check qBittorrent before retrying.")

abbrev pub no_missing_files : Failure
no_missing_files =
    selective_queue_error (codes "No missing/unseen episode files were detected in this torrent.")

abbrev pub some_parsed : EpisodeFileSelectionResult → Bool
some_parsed selection = ltb 0 selection.parsed_episode_file_count

abbrev pub some_selected : EpisodeFileSelectionResult → Bool
some_selected selection = ltb 0 (length selection.selected_file_ids)

abbrev pub unselected_result : QueueResult
unselected_result = record plain_result {
  message =
      codes
        "Queued full torrent because the torrent file did not expose episode-level files safely.";
  queued_via_torrent_file = true;
}

abbrev pub selected_result : Bool → EpisodeFileSelectionResult → QueueResult
selected_result retry_existing_unwatched selection = record {
  message =
      codes "Queued only "
      ++ (if retry_existing_unwatched then codes "existing unwatched" else codes "missing/unseen")
      ++ codes " episode files ("
      ++ show (length selection.selected_file_ids)
      ++ codes " selected, "
      ++ show selection.skipped_episode_file_count
      ++ codes " skipped).";
  selected_file_count = length selection.selected_file_ids;
  skipped_file_count = selection.skipped_episode_file_count;
  deferred_file_selection = false;
  queued_via_torrent_file = true;
}

-- The link, the link that the app fetches, and the hash of a magnet link.
abbrev pub Resolved : Type 0
Resolved = Text × Text × Option Text

module _ ⦃u : Unicode⦄ where
  -- The plan, if there is a rule.
  abbrev pub plan_of : Option Rule → Bool → Option EpisodeFileSelectionPlan
  plan_of none retry = none
  plan_of (some rule) retry = episode_file_selection_plan rule retry

module _ ⦃u : Unicode⦄ (l : Links) where
  redirected : Text → Text → Option Text → Resolved
  redirected link effective_link none = (link, effective_link, none)
  redirected link effective_link (some magnet) = (magnet, magnet, l.parse_magnet_info_hash magnet)

  resolve_hash : Text → Text → Option Text → Resolved
  unfolding redirected
  resolve_hash link effective_link (some h) = (link, effective_link, some h)
  resolve_hash link effective_link none =
      if l.should_require_app_side_torrent_fetch effective_link
      then redirected link effective_link
          (l.resolve_local_jackett_redirect_magnet_link effective_link)
      else (link, effective_link, none)

  -- The first statements of the function: a local redirect to a magnet link replaces the link.
  unfoldable pub resolve_link : Text → Resolved
  unfolding resolve_hash
  resolve_link link =
      resolve_hash link (l.normalize_http_url (l.rewrite_jackett_download_link_for_app_fetch link))
        (l.parse_magnet_info_hash link)

  -- The download and the parse, whichever fails first.
  unfoldable pub parse_fetched : Result (List ℕ × Text) → Result (List ℕ × Text × ParsedTorrentInfo)
  parse_fetched (raised e) = raised e
  parse_fetched (ok (torrent_bytes, source_name)) =
      elim (l.parse_torrent_info torrent_bytes source_name) [
        | raised e ↦ raised e
        | ok parsed ↦ ok (torrent_bytes, source_name, parsed)
      ]

  unfoldable pub fetch_torrent : Text → Result (List ℕ × Text × ParsedTorrentInfo)
  unfolding parse_fetched
  fetch_torrent effective_link = parse_fetched (l.download_torrent_bytes effective_link)

  -- The link must not be left to qBittorrent.
  unfoldable pub must_not_hand_off : Text → Bool
  must_not_hand_off effective_link =
      l.should_require_app_side_torrent_fetch effective_link
      && not (l.can_qb_remote_fetch_local_url effective_link)

  unfoldable pub must_verify : Text → Bool
  must_verify effective_link =
      l.should_require_app_side_torrent_fetch effective_link
      && l.can_qb_remote_fetch_local_url effective_link

  module _ (w : Webui) (options : Options) where
    -- The link as it is goes to qBittorrent.
    unfoldable pub add_whole_url : Text → Text → QueueResult → M QueueResult
    unfolding must_verify add_torrent_url_with_optional_verification
    add_whole_url link effective_link result = do
      add_torrent_url_with_optional_verification w link options (must_verify effective_link)
      pure result

    -- No plan and no magnet link: the file if it can be had.
    unfoldable pub queue_fetched :
        Text → Text → Result (List ℕ × Text × ParsedTorrentInfo) → M QueueResult
    unfolding add_whole_url must_not_hand_off request
    queue_fetched link effective_link (ok (torrent_bytes, source_name, parsed)) = do
      request w (add_torrent_file torrent_bytes source_name options)
      pure (record plain_result { queued_via_torrent_file = true })
    queue_fetched link effective_link (raised (client_error e)) = raise (client_error e)
    queue_fetched link effective_link (raised e) =
        if must_not_hand_off effective_link
        then raise could_not_fetch
        else add_whole_url (l.normalize_http_url link) effective_link plain_result

    -- The function where there is no plan.
    unfoldable pub queue_whole : Resolved → M QueueResult
    unfolding queue_fetched add_whole_url fetch_torrent
    queue_whole (link, effective_link, none) =
        queue_fetched link effective_link (fetch_torrent effective_link)
    queue_whole (link, effective_link, some h) =
        add_whole_url (l.normalize_http_url link) effective_link plain_result

    -- No file is loaded, then the selected ones are; an error if the torrent was not seen.
    unfoldable pub set_priorities :
        Bool → ParsedTorrentInfo → EpisodeFileSelectionResult → Bool → M QueueResult
    unfolding client_set_file_priority
    set_priorities retry parsed selection false = raise not_visible
    set_priorities retry parsed selection true = do
      client_set_file_priority w parsed.info_hash (map (λ f. f.file_id) parsed.files) 0
      client_set_file_priority w parsed.info_hash selection.selected_file_ids 1
      pure (selected_result retry selection)

    unfoldable pub apply_priorities :
        Bool → ParsedTorrentInfo → EpisodeFileSelectionResult → M QueueResult
    unfolding wait_for_qb_torrent set_priorities
    apply_priorities retry parsed selection =
        wait_for_qb_torrent w parsed.info_hash >>= set_priorities retry parsed selection

    -- What follows the submission of the torrent file.
    unfoldable pub finish_selected :
        Bool → ParsedTorrentInfo → EpisodeFileSelectionResult → M QueueResult
    unfolding apply_priorities
    finish_selected retry parsed selection =
        if some_parsed selection && some_selected selection
        then apply_priorities retry parsed selection
        else pure unselected_result

    -- The function from the selection on.
    unfoldable pub add_selected :
        Bool → List ℕ → ParsedTorrentInfo → EpisodeFileSelectionResult → M QueueResult
    unfolding finish_selected request
    add_selected retry torrent_bytes parsed selection =
        if some_parsed selection && not (some_selected selection)
        then raise no_missing_files
        else (do
          request w (add_torrent_file torrent_bytes parsed.filename options)
          finish_selected retry parsed selection)

    -- A plan, and no magnet link.
    unfoldable pub select_fetched :
        Bool
        → EpisodeFileSelectionPlan
        → Text
        → Text
        → Result (List ℕ × Text × ParsedTorrentInfo)
        → M QueueResult
    unfolding add_selected add_whole_url must_not_hand_off select_missing_episode_file_ids
    select_fetched retry plan link effective_link (ok (torrent_bytes, source_name, parsed)) =
        add_selected retry torrent_bytes parsed (select_missing_episode_file_ids parsed.files plan)
    select_fetched retry plan link effective_link (raised (client_error e)) = raise (client_error e)
    select_fetched retry plan link effective_link (raised e) =
        if must_not_hand_off effective_link
        then raise could_not_fetch
        else add_whole_url link effective_link (record plain_result {
          message =
              codes "Queued full torrent because selective missing/unseen file inspection was not "
              ++ codes "available for this result.";
        })

    -- The function where there is a plan. A hash that was parsed is never empty.
    unfoldable pub queue_selected : Bool → EpisodeFileSelectionPlan → Resolved → M QueueResult
    unfolding select_fetched fetch_torrent request
    queue_selected retry plan (link, effective_link, none) =
        select_fetched retry plan link effective_link (fetch_torrent effective_link)
    queue_selected retry plan (link, effective_link, some h) = do
      request w (add_torrent_url (l.normalize_http_url link) options)
      λ calls. (ok tt, start_deferred_file_selection_worker h plan ∷ calls)
      pure (record plain_result {
        message =
            codes "Queued in qBittorrent. Missing/unseen file selection will be applied when "
            ++ codes "torrent metadata becomes available.";
        deferred_file_selection = true;
      })

    unfoldable pub queue_by_plan : Bool → Option EpisodeFileSelectionPlan → Text → M QueueResult
    unfolding queue_selected queue_whole resolve_link
    queue_by_plan true none link = raise (
        selective_queue_error (
          codes
            "Retry existing unwatched files requires a series rule with a saved episode floor."))
    queue_by_plan false none link = queue_whole (resolve_link link)
    queue_by_plan retry (some plan) link = queue_selected retry plan (resolve_link link)

    unfoldable pub queue_result_with_optional_file_selection :
        Text → Option Rule → Bool → M QueueResult
    unfolding queue_by_plan episode_file_selection_plan
    queue_result_with_optional_file_selection link rule retry_existing_unwatched =
        queue_by_plan retry_existing_unwatched (plan_of rule retry_existing_unwatched) link
