-- ===== src/SelectiveQueue/Grouped/Laws.antt =====
-- What the queueing of a group of results satisfies (app/services/selective_queue.py).
use q_bittorrent_rss_rules.Prelude.{
  refl, Bool, true, false, Option, none, some, List, [], ◌∷◌, map, arith, length,
}
use q_bittorrent_rss_rules.Prelude.Text.{Text}
use q_bittorrent_rss_rules.Prelude.Unicode.{Unicode}
use q_bittorrent_rss_rules.SelectiveQueue.Plan.{Rule}
use q_bittorrent_rss_rules.SelectiveQueue.Trackers.{dedupe_tracker_urls}
use q_bittorrent_rss_rules.SelectiveQueue.Client.{
  Result, ok, raised, Options, add_trackers, get_torrent_trackers, Webui, pure, request,
  client_get_torrent, client_add_trackers,
}
use q_bittorrent_rss_rules.SelectiveQueue.Client.Laws.{
  IsQuiet, request-IsQuiet, get_torrent-IsQuiet, bind-IsQuiet,
}
use q_bittorrent_rss_rules.SelectiveQueue.Client.Once.{SubmitsOnce, once_then}
use q_bittorrent_rss_rules.SelectiveQueue.Submit.{
  QueueResult, Links, queue_result_with_optional_file_selection,
}
use q_bittorrent_rss_rules.SelectiveQueue.Submit.Laws.{queue_result-SubmitsOnce}
use q_bittorrent_rss_rules.SelectiveQueue.Grouped.{
  Merge, missing_trackers, add_missing, merge_into_torrent, merge_if_present, add_to_present,
  add_merged, finish_group, queue_normalized, queue_grouped_search_results,
}

module _ ⦃u : Unicode⦄ (l : Links) (tracker_urls_of_magnet : Text → List Text) (w : Webui)
    (options : Options) where
  add_trackers-IsQuiet : (h : Text) (urls : List Text) → IsQuiet 1 (client_add_trackers w h urls)
  unfolding client_add_trackers
  add_trackers-IsQuiet h urls calls = cleaned-IsQuiet (dedupe_tracker_urls urls) calls
    where
      cleaned-IsQuiet :
          (cleaned : List Text)
          → IsQuiet 1
              (elim cleaned [ [] ↦ pure tt | url ∷ urls ↦ request w (add_trackers h (url ∷ urls)) ])
      cleaned-IsQuiet [] calls = (refl, omega arith)
      cleaned-IsQuiet (url ∷ urls) calls =
          request-IsQuiet w (add_trackers h (url ∷ urls)) refl calls

  add_missing-IsQuiet :
      (h : Text) (urls : List Text)
      → IsQuiet 1 (add_missing l tracker_urls_of_magnet w options h urls)
  unfolding add_missing
  add_missing-IsQuiet h [] calls = (refl, omega arith)
  add_missing-IsQuiet h (url ∷ urls) calls =
      bind-IsQuiet w (client_add_trackers w h (url ∷ urls)) (λ _. pure (length (url ∷ urls))) 1 0
        (add_trackers-IsQuiet h (url ∷ urls)) (λ _ calls. (refl, omega arith)) calls

  add_to_present-IsQuiet :
      (h : Text) (merged : List Text)
      → IsQuiet 2 (add_to_present l tracker_urls_of_magnet w options h merged)
  unfolding add_to_present
  add_to_present-IsQuiet h merged =
      bind-IsQuiet w (request w (get_torrent_trackers h)) _ 1 1
        (request-IsQuiet w (get_torrent_trackers h) refl)
        (λ _ calls.
          add_missing-IsQuiet h
            (missing_trackers merged (map u.casefold (dedupe_tracker_urls (w.trackers calls h))))
            calls)

  merge_if_present-IsQuiet :
      (h : Text) (merged : List Text) (present : Bool)
      → IsQuiet 2 (merge_if_present l tracker_urls_of_magnet w options h merged present)
  unfolding merge_if_present
  merge_if_present-IsQuiet h merged false calls = (refl, omega arith)
  merge_if_present-IsQuiet h merged true calls = add_to_present-IsQuiet h merged calls

  add_merged-IsQuiet :
      (h : Option Text) (merged : List Text)
      → IsQuiet 3 (add_merged l tracker_urls_of_magnet w options h merged)
  unfolding add_merged merge_into_torrent
  add_merged-IsQuiet none merged calls = (refl, omega arith)
  add_merged-IsQuiet (some h) [] calls = (refl, omega arith)
  add_merged-IsQuiet (some h) (url ∷ urls) calls =
      bind-IsQuiet w (client_get_torrent w h)
        (merge_if_present l tracker_urls_of_magnet w options h (url ∷ urls)) 1 2
        (get_torrent-IsQuiet w h) (merge_if_present-IsQuiet h (url ∷ urls)) calls

  finish_group-IsQuiet :
      (links : List Text) (primary : QueueResult) (m : Result Merge)
      → IsQuiet 3 (finish_group l tracker_urls_of_magnet w options links primary m)
  unfolding finish_group
  finish_group-IsQuiet links primary (raised e) calls = (refl, omega arith)
  finish_group-IsQuiet links primary (ok m) calls =
      bind-IsQuiet w
        (add_merged l tracker_urls_of_magnet w options m.effective_info_hash m.merged_tracker_urls)
        _ 3 0 (add_merged-IsQuiet m.effective_info_hash m.merged_tracker_urls)
        (λ _ calls. (refl, omega arith)) calls

  queue_normalized-once :
      (links : List Text) (h : Option Text) (urls : List Text) (rule : Option Rule) (retry : Bool)
      → SubmitsOnce (queue_normalized l tracker_urls_of_magnet w options links h urls rule retry)
  unfolding queue_normalized
  queue_normalized-once [] h urls rule retry calls = omega arith
  queue_normalized-once (link ∷ links) h urls rule retry calls =
      once_then (queue_result_with_optional_file_selection l w options link rule retry) _ 3
        (queue_result-SubmitsOnce l w options link rule retry)
        (λ primary. finish_group-IsQuiet (link ∷ links) primary _) calls

  -- A group of results is submitted as one torrent: a run that succeeds makes exactly one
  -- submission, however many links and trackers it has, and a run that raises at most one.
  pub queue_grouped-SubmitsOnce :
      (links : List Text) (info_hash : Text) (urls : List Text) (rule : Option Rule) (retry : Bool)
      → SubmitsOnce (
          queue_grouped_search_results l tracker_urls_of_magnet w options links info_hash urls rule
            retry)
  unfolding queue_grouped_search_results
  queue_grouped-SubmitsOnce links info_hash urls rule retry =
      queue_normalized-once (dedupe_tracker_urls links) _ urls rule retry
