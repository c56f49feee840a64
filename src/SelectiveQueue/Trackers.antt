-- ===== src/SelectiveQueue/Trackers.antt =====
-- Lists of tracker addresses and magnet links (app/services/selective_queue.py). What urllib makes
-- of a name in a link, `quote`, is a parameter.
pub mod Laws
use q_bittorrent_rss_rules.Prelude.{
  ℕ, Bool, true, false, ◌&&◌, ◌||◌, not, Option, none, some, List, [], ◌∷◌, ◌++◌, leb, ◌=?◌,
  if◌then◌else◌, contains, text_eq, length, all,
}
use q_bittorrent_rss_rules.Prelude.Text.{Text, codes, strip}
use q_bittorrent_rss_rules.Prelude.Unicode.{Unicode}

abbrev pub is_blank : Text → Bool
is_blank [] = true
is_blank (c ∷ s) = false

-- `char in "0123456789abcdef"`
unfoldable pub is_lower_hex : ℕ → Bool
is_lower_hex c = leb b'0' c && leb c b'9' || leb b'a' c && leb c b'f'

-- `"&".join(parts)`, where the first part is there.
unfoldable pub join_rest : Text → List Text → Text
join_rest separator [] = []
join_rest separator (p ∷ ps) = separator ++ p ++ join_rest separator ps

module _ ⦃u : Unicode⦄ where
  -- The loop of `_dedupe_tracker_urls`, with the folded addresses seen so far.
  unfoldable pub dedupe_loop : List Text → List Text → List Text
  unfolding strip text_eq
  dedupe_loop seen_urls [] = []
  dedupe_loop seen_urls (raw_url ∷ urls) =
      let candidate = strip raw_url in
      let key = u.casefold candidate in
      let skip = dedupe_loop seen_urls urls in
      let take = candidate ∷ dedupe_loop (key ∷ seen_urls) urls in
      if is_blank candidate || contains seen_urls key then skip else take

  unfoldable pub dedupe_tracker_urls : List Text → List Text
  unfolding dedupe_loop
  dedupe_tracker_urls tracker_urls = dedupe_loop [] tracker_urls

  -- The `dn` part, empty where the name is.
  name_part : (Text → Text) → Text → List Text
  name_part quote cleaned_name =
      if is_blank cleaned_name then [] else (codes "dn=" ++ quote cleaned_name) ∷ []

  -- The loop over the trackers: its guards are those of `_dedupe_tracker_urls`.
  unfoldable pub tracker_parts : (Text → Text) → List Text → List Text → List Text
  unfolding strip text_eq
  tracker_parts quote_all seen_trackers [] = []
  tracker_parts quote_all seen_trackers (tracker_url ∷ urls) =
      let cleaned_tracker = strip tracker_url in
      let normalized_tracker = u.casefold cleaned_tracker in
      let skip = tracker_parts quote_all seen_trackers urls in
      let take =
        (codes "tr=" ++ quote_all cleaned_tracker)
        ∷ tracker_parts quote_all (normalized_tracker ∷ seen_trackers) urls in
      if is_blank cleaned_tracker
      then skip
      else if contains seen_trackers normalized_tracker
      then skip
      else take

  -- `quote` keeps slashes and `quote_all` is `quote(…, safe='')`. No value: the code raises
  -- SelectiveQueueError.
  unfoldable pub build_magnet_link :
      (Text → Text) → (Text → Text) → Text → List Text → Text → Option Text
  unfolding tracker_parts name_part join_rest is_lower_hex strip
  build_magnet_link quote quote_all info_hash tracker_urls display_name =
      let cleaned_hash = u.casefold (strip info_hash) in
      if not (length cleaned_hash =? 40) || not (all is_lower_hex cleaned_hash)
      then none
      else some (
          codes "magnet:?xt=urn:btih:"
          ++ cleaned_hash
          ++ join_rest (codes "&")
              (name_part quote (strip display_name) ++ tracker_parts quote_all [] tracker_urls))
