-- ===== src/SelectiveQueue/Client.antt =====
-- The calls that reach qBittorrent and how they fail. A run is a list of calls, the latest first;
-- what the WebUI answers may depend on all calls before it, and is a parameter. The methods of
-- QbittorrentClient are those of app/services/qbittorrent.py, less the shape of their requests.
pub mod Laws
pub mod Once
use q_bittorrent_rss_rules.Prelude.{
  ℕ, zero, suc, Bool, true, false, ◌&&◌, ◌||◌, not, Option, none, some, List, [], ◌∷◌, ◌++◌,
  if◌then◌else◌, contains, text_eq, ltb,
}
use q_bittorrent_rss_rules.Prelude.Text.{Text, codes, strip}
use q_bittorrent_rss_rules.Prelude.Unicode.{Unicode}
use q_bittorrent_rss_rules.SelectiveQueue.Plan.{EpisodeFileSelectionPlan}
use q_bittorrent_rss_rules.SelectiveQueue.Trackers.{is_blank, dedupe_tracker_urls}

-- The exceptions SelectiveQueueError, QbittorrentClientError and httpx.HTTPError.
pub data Failure : Type 0 where
  selective_queue_error client_error http_error : Text → Failure

pub data Result (A : Type 0) : Type 0 where
  ok : A → Result A
  raised : Failure → Result A

-- The options that every submission carries.
pub record Options : Type 0 where
  pub category : Text
  pub save_path : Text
  pub paused : Bool
  pub sequential_download : Bool
  pub first_last_piece_prio : Bool

pub data Call : Type 0 where
  add_torrent_file : List ℕ → Text → Options → Call
  add_torrent_url : Text → Options → Call
  set_file_priority : Text → List ℕ → ℕ → Call
  add_trackers : Text → List Text → Call
  get_torrent : Text → Call
  get_torrents : Call
  get_torrent_trackers : Text → Call
  sleep : Call
  start_deferred_file_selection_worker : Text → EpisodeFileSelectionPlan → Call

-- The answers: whether a command fails, and what the lists hold.
pub record Webui : Type 0 where
  pub refuses : List Call → Call → Option Failure
  pub has_torrent : List Call → Text → Bool
  pub hashes : List Call → List Text
  pub trackers : List Call → Text → List Text

abbrev pub M : Type 0 → Type 0
M A = List Call → Result A × List Call

abbrev pub pure : {A : Type 0} → A → M A
pure a calls = (ok a, calls)

abbrev pub raise : {A : Type 0} → Failure → M A
raise e calls = (raised e, calls)

abbrev pub continue : {A B : Type 0} → Result A → (A → M B) → M B
continue (ok a) f calls = f a calls
continue (raised e) f calls = (raised e, calls)

infixl 5 ◌>>=◌ ◌>>◌
abbrev pub ◌>>=◌ : {A B : Type 0} → M A → (A → M B) → M B
◌>>=◌ m f calls = let (r, calls') = m calls in continue r f calls'

abbrev pub ◌>>◌ : {B : Type 0} → M (Unit {0}) → M B → M B
m >> k = m >>= λ _. k

abbrev pub remote_url_add_verify_attempts : ℕ
remote_url_add_verify_attempts = 6

abbrev pub torrent_add_visibility_attempts : ℕ
torrent_add_visibility_attempts = 6

module _ ⦃u : Unicode⦄ (w : Webui) where
  -- A request: it is sent, and the answer may be an error.
  unfoldable pub request : Call → M (Unit {0})
  request c calls = elim (w.refuses calls c) [
    | none ↦ (ok tt, c ∷ calls)
    | some e ↦ (raised e, c ∷ calls)
  ]

  -- `QbittorrentClient.set_file_priority`
  unfoldable pub client_set_file_priority : Text → List ℕ → ℕ → M (Unit {0})
  unfolding request
  client_set_file_priority info_hash [] priority = pure tt
  client_set_file_priority info_hash (i ∷ ids) priority =
      request (set_file_priority info_hash (i ∷ ids) priority)

  -- `QbittorrentClient.add_trackers`
  unfoldable pub client_add_trackers : Text → List Text → M (Unit {0})
  unfolding request dedupe_tracker_urls
  client_add_trackers info_hash tracker_urls = elim (dedupe_tracker_urls tracker_urls) [
    | [] ↦ pure tt
    | url ∷ urls ↦ request (add_trackers info_hash (url ∷ urls))
  ]

  -- `QbittorrentClient.get_torrent(…) is not None`
  unfoldable pub client_get_torrent : Text → M Bool
  unfolding request strip
  client_get_torrent info_hash =
      let cleaned_hash = strip info_hash in
      if is_blank cleaned_hash then pure false else (do
        request (get_torrent cleaned_hash)
        λ calls. (ok (w.has_torrent calls cleaned_hash), calls))

  -- The folded hashes of the list, less the empty ones.
  unfoldable pub clean_hashes : List Text → List Text
  unfolding strip
  clean_hashes [] = []
  clean_hashes (value ∷ values) =
      let rest = clean_hashes values in
      let cleaned = u.casefold (strip value) in if is_blank cleaned then rest else cleaned ∷ rest

  unfoldable pub current_qb_hashes : M (List Text)
  unfolding request clean_hashes
  current_qb_hashes = do request get_torrents; λ calls. (ok (clean_hashes (w.hashes calls)), calls)

  -- The pause between two attempts, none after the last.
  unfoldable pub pause_before : ℕ → M (Unit {0})
  pause_before zero calls = (ok tt, calls)
  pause_before (suc left) calls = (ok tt, sleep ∷ calls)

  -- The loop of `_wait_for_qb_torrent`, with the attempts that are left.
  unfoldable pub wait_loop : ℕ → Text → M Bool
  unfolding client_get_torrent pause_before
  wait_loop zero info_hash = pure false
  wait_loop (suc left) info_hash =
      let again = wait_loop left info_hash in
      client_get_torrent info_hash >>= λ found.
      if found then pure true else (pause_before left >>= λ _. again)

  unfoldable pub wait_for_qb_torrent : Text → M Bool
  unfolding wait_loop
  wait_for_qb_torrent info_hash = wait_loop torrent_add_visibility_attempts info_hash

  -- `current_hashes - existing_hashes` is not empty.
  unfoldable pub has_new : List Text → List Text → Bool
  unfolding text_eq
  has_new existing [] = false
  has_new existing (h ∷ hs) = not (contains existing h) || has_new existing hs

  -- The loop that waits for a new torrent, with the attempts that are left.
  unfoldable pub verify_loop : ℕ → List Text → M (Unit {0})
  unfolding current_qb_hashes has_new pause_before
  verify_loop zero existing_hashes = raise (
      selective_queue_error (
        codes
          "qBittorrent accepted the remote URL fetch request, but no torrent appeared in the list."))
  verify_loop (suc left) existing_hashes =
      let again = verify_loop left existing_hashes in
      current_qb_hashes >>= λ current_hashes.
      if has_new existing_hashes current_hashes then pure tt else (pause_before left >>= λ _. again)

  unfoldable pub add_torrent_url_with_optional_verification : Text → Options → Bool → M (Unit {0})
  unfolding verify_loop request current_qb_hashes
  add_torrent_url_with_optional_verification link options false =
      request (add_torrent_url link options)
  add_torrent_url_with_optional_verification link options true = do
    existing_hashes ← current_qb_hashes
    request (add_torrent_url link options)
    verify_loop remote_url_add_verify_attempts existing_hashes
