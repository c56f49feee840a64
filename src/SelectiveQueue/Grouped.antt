-- ===== src/SelectiveQueue/Grouped.antt =====
-- `queue_grouped_search_results` (app/services/selective_queue.py): results with the same hash are
-- queued once, and the trackers of all of them are added to the torrent.
pub mod Laws
use q_bittorrent_rss_rules.Prelude.{
  ℕ, zero, suc, Bool, true, false, ◌&&◌, ◌||◌, not, Option, none, some, List, [], ◌∷◌, ◌++◌, map,
  if◌then◌else◌, length, ltb, contains, text_eq, ◌==◌, keep_if,
}
use q_bittorrent_rss_rules.Prelude.Text.{Text, codes, strip, show}
use q_bittorrent_rss_rules.Prelude.Unicode.{Unicode}
use q_bittorrent_rss_rules.SelectiveQueue.Plan.{Rule}
use q_bittorrent_rss_rules.SelectiveQueue.Trackers.{is_blank, dedupe_tracker_urls, join_rest}
use q_bittorrent_rss_rules.SelectiveQueue.Client.{
  Failure, selective_queue_error, client_error, Result, ok, raised, Options, get_torrent_trackers,
  Webui, M, pure, raise, ◌>>=◌, ◌>>◌, request, client_get_torrent, client_add_trackers,
}
use q_bittorrent_rss_rules.SelectiveQueue.Submit.{
  ParsedTorrentInfo, QueueResult, Links, parse_fetched, queue_result_with_optional_file_selection,
}

-- What the loop over the links carries.
pub record Merge : Type 0 where
  pub effective_info_hash : Option Text
  pub merged_tracker_urls : List Text
  pub inspected_variant_count : ℕ

-- `" ".join(message_parts).strip()`, where the parts are there or not.
abbrev pub join_parts : List Text → Text
join_parts [] = []
join_parts (p ∷ ps) = strip (p ++ join_rest (codes " ") ps)

abbrev pub part_if : Bool → Text → List Text
part_if b text = if b then text ∷ [] else []

module _ ⦃u : Unicode⦄ where
  -- One round of the loop over the links.
  unfoldable pub merge_link : Option Text × List Text → Merge → Merge
  unfolding dedupe_tracker_urls text_eq
  merge_link (none, candidate_trackers) m = record m {
    merged_tracker_urls = dedupe_tracker_urls (m.merged_tracker_urls ++ candidate_trackers);
  }
  merge_link (some candidate_hash, candidate_trackers) m =
      let counted = suc m.inspected_variant_count in
      let merged = dedupe_tracker_urls (m.merged_tracker_urls ++ candidate_trackers) in
      elim m.effective_info_hash [
        | none ↦ record {
          effective_info_hash = some candidate_hash;
          merged_tracker_urls = merged;
          inspected_variant_count = counted;
        }
        | some effective ↦ record {
          effective_info_hash = some effective;
          merged_tracker_urls =
              if candidate_hash == effective then merged else m.merged_tracker_urls;
          inspected_variant_count = counted;
        }
      ]

  unfoldable pub missing_trackers : List Text → List Text → List Text
  unfolding text_eq
  missing_trackers merged existing_tracker_keys =
      keep_if (λ url. not (contains existing_tracker_keys (u.casefold url))) merged

  module _ (l : Links) (tracker_urls_of_magnet : Text → List Text) where
    -- `_inspect_same_hash_link`; `_tracker_urls_from_magnet` gets what `parse_qs` finds under "tr".
    -- An error of the client cannot come from a download; the code would let it pass.
    unfoldable pub inspect_same_hash_link : Text → Result (Option Text × List Text)
    unfolding dedupe_tracker_urls parse_fetched
    inspect_same_hash_link link = elim (l.parse_magnet_info_hash link) [
      | some h ↦ ok (some h, dedupe_tracker_urls (tracker_urls_of_magnet link))
      | none ↦
          elim (parse_fetched l (
            l.download_torrent_bytes
              (l.normalize_http_url (l.rewrite_jackett_download_link_for_app_fetch link)))) [
                | ok (torrent_bytes, source_name, parsed) ↦
                    ok (some parsed.info_hash, dedupe_tracker_urls parsed.tracker_urls)
                | raised e ↦ elim e [
                  | client_error text ↦ raised (client_error text)
                  | _ ↦ ok (none, [])
                ]
              ]
    ]

    unfoldable pub merge_links : List Text → Merge → Result Merge
    unfolding inspect_same_hash_link merge_link
    merge_links [] m = ok m
    merge_links (link ∷ links) m = elim (inspect_same_hash_link link) [
      | raised e ↦ raised e
      | ok found ↦ merge_links links (merge_link found m)
    ]

    module _ (w : Webui) (options : Options) where
      -- The trackers that the torrent lacks, and how many were added.
      add_missing : Text → List Text → M ℕ
      unfolding client_add_trackers
      add_missing info_hash [] = pure 0
      add_missing info_hash (url ∷ urls) = do
        client_add_trackers w info_hash (url ∷ urls)
        pure (length (url ∷ urls))

      -- The trackers of the torrent, and then what they lack.
      unfoldable pub add_to_present : Text → List Text → M ℕ
      unfolding request add_missing missing_trackers dedupe_tracker_urls
      add_to_present info_hash merged = do
        request w (get_torrent_trackers info_hash)
        existing ← (λ calls. (ok (dedupe_tracker_urls (w.trackers calls info_hash)), calls))
        add_missing info_hash (missing_trackers merged (map u.casefold existing))

      unfoldable pub merge_if_present : Text → List Text → Bool → M ℕ
      unfolding add_to_present
      merge_if_present info_hash merged false = pure 0
      merge_if_present info_hash merged true = add_to_present info_hash merged

      unfoldable pub merge_into_torrent : Text → List Text → M ℕ
      unfolding client_get_torrent merge_if_present
      merge_into_torrent info_hash merged =
          client_get_torrent w info_hash >>= merge_if_present info_hash merged

      add_merged : Option Text → List Text → M ℕ
      unfolding merge_into_torrent
      add_merged (some h) (url ∷ urls) = merge_into_torrent h (url ∷ urls)
      add_merged (some h) [] = pure 0
      add_merged none merged = pure 0

      -- The last `if` chain and the result.
      group_result : QueueResult → ℕ → Merge → ℕ → QueueResult
      group_result primary link_count m added =
          let many = ltb 1 link_count in
          record primary {
            message = join_parts (
                part_if (not (is_blank primary.message)) primary.message
                ++ part_if many (
                    codes "Processed "
                    ++ show link_count
                    ++ codes " same-hash variants for tracker merge.")
                ++ (if ltb 0 added
                    then (codes "Added "
                        ++ show added
                        ++ codes " missing trackers to the qB torrent.")
                      ∷ []
                    else if many && ltb 0 (length m.merged_tracker_urls)
                    then codes "No new trackers needed to be added to the qB torrent." ∷ []
                    else part_if (many && not (ltb 0 m.inspected_variant_count)) (
                        codes "Additional variants could not be inspected for tracker metadata.")));
          }

      finish_group : List Text → QueueResult → Result Merge → M QueueResult
      unfolding add_merged group_result
      finish_group links primary (raised e) = raise e
      finish_group links primary (ok m) = do
        added ← add_merged m.effective_info_hash m.merged_tracker_urls
        pure (group_result primary (length links) m added)

      queue_normalized : List Text → Option Text → List Text → Option Rule → Bool → M QueueResult
      unfolding queue_result_with_optional_file_selection merge_links finish_group
          dedupe_tracker_urls
      queue_normalized [] info_hash tracker_urls rule retry =
          raise (selective_queue_error (codes "No queueable result links were provided."))
      queue_normalized (link ∷ links) info_hash tracker_urls rule retry = do
        primary ← queue_result_with_optional_file_selection l w options link rule retry
        finish_group (link ∷ links) primary (
            merge_links (link ∷ links) (record {
              effective_info_hash = info_hash;
              merged_tracker_urls = dedupe_tracker_urls tracker_urls;
              inspected_variant_count = 0;
            }))

      -- `str(info_hash or "").strip().casefold() or None`
      unfoldable pub given_hash : Text → Option Text
      unfolding strip
      given_hash info_hash =
          let cleaned = u.casefold (strip info_hash) in
          if is_blank cleaned then none else some cleaned

      unfoldable pub queue_grouped_search_results :
          List Text → Text → List Text → Option Rule → Bool → M QueueResult
      unfolding queue_normalized dedupe_tracker_urls given_hash
      queue_grouped_search_results links info_hash tracker_urls rule retry_existing_unwatched =
          queue_normalized (dedupe_tracker_urls links) (given_hash info_hash) tracker_urls rule
            retry_existing_unwatched
