-- ===== src/SelectiveQueue/Submit/Laws.antt =====
-- What every way through the queueing of a link has in common (app/services/selective_queue.py).
use q_bittorrent_rss_rules.Prelude.{
  ℕ, refl, Bool, true, false, ◌&&◌, not, Option, none, some, List, map, arith, if◌then◌else◌,
}
use q_bittorrent_rss_rules.Prelude.Text.{Text}
use q_bittorrent_rss_rules.Prelude.Unicode.{Unicode}
use q_bittorrent_rss_rules.SelectiveQueue.Plan.{
  Rule, EpisodeFileSelectionPlan, EpisodeFileSelectionResult, select_missing_episode_file_ids,
}
use q_bittorrent_rss_rules.SelectiveQueue.Client.{
  Failure, selective_queue_error, client_error, http_error, Result, ok, raised, Options,
  add_torrent_file, add_torrent_url, Webui, M, pure, raise, ◌>>=◌, request,
  client_set_file_priority, wait_for_qb_torrent, add_torrent_url_with_optional_verification,
}
use q_bittorrent_rss_rules.SelectiveQueue.Client.Laws.{
  IsQuiet, wait_for_qb_torrent-IsQuiet, set_priority-IsQuiet, bind-IsQuiet,
}
use q_bittorrent_rss_rules.SelectiveQueue.Client.Once.{
  SubmitsOnce, submit_request, once_then, pure-IsQuiet, add_url-once,
}
use q_bittorrent_rss_rules.SelectiveQueue.Submit.{
  ParsedTorrentInfo, QueueResult, Links, Resolved, resolve_link, fetch_torrent, must_verify,
  must_not_hand_off, add_whole_url, queue_fetched, queue_whole, apply_priorities, set_priorities,
  add_selected, select_fetched, queue_selected, queue_by_plan,
  queue_result_with_optional_file_selection, plan_of, could_not_fetch, plain_result,
  finish_selected, some_parsed, some_selected, no_missing_files, unselected_result,
}

module _ ⦃u : Unicode⦄ (l : Links) (w : Webui) (options : Options) where
  raise-once : (e : Failure) → SubmitsOnce {A = QueueResult} (raise e)
  raise-once e calls = omega arith

  add_whole-once :
      (link effective_link : Text) (result : QueueResult)
      → SubmitsOnce (add_whole_url l w options link effective_link result)
  unfolding add_whole_url
  add_whole-once link effective_link result =
      once_then
        (add_torrent_url_with_optional_verification w link options (must_verify l effective_link))
        (λ _. pure result) 0 (add_url-once w link options (must_verify l effective_link))
        (λ _. pure-IsQuiet w result)

  hand_off-once :
      (b : Bool) (link effective_link : Text) (result : QueueResult)
      → SubmitsOnce (
          if b then raise could_not_fetch else add_whole_url l w options link effective_link result)
  hand_off-once true link effective_link result = raise-once could_not_fetch
  hand_off-once false link effective_link result = add_whole-once link effective_link result

  queue_fetched-once :
      (link effective_link : Text) (fetched : Result (List ℕ × Text × ParsedTorrentInfo))
      → SubmitsOnce (queue_fetched l w options link effective_link fetched)
  unfolding queue_fetched
  queue_fetched-once link eff (ok (b, name, parsed)) =
      once_then (request w (add_torrent_file b name options)) _ 0
        (submit_request w (add_torrent_file b name options) refl) (λ _ calls. (refl, omega arith))
  queue_fetched-once link eff (raised (client_error e)) = raise-once (client_error e)
  queue_fetched-once link eff (raised (http_error e)) =
      hand_off-once (must_not_hand_off l eff) (l.normalize_http_url link) eff plain_result
  queue_fetched-once link eff (raised (selective_queue_error e)) =
      hand_off-once (must_not_hand_off l eff) (l.normalize_http_url link) eff plain_result

  queue_whole-once : (r : Resolved) → SubmitsOnce (queue_whole l w options r)
  unfolding queue_whole
  queue_whole-once (link, eff, none) = queue_fetched-once link eff (fetch_torrent l eff)
  queue_whole-once (link, eff, some h) = add_whole-once (l.normalize_http_url link) eff plain_result

  if-IsQuiet :
      (b : Bool) (m k : M QueueResult) (n : ℕ)
      → IsQuiet n m
      → IsQuiet n k
      → IsQuiet n (if b then m else k)
  if-IsQuiet true m k n h q = h
  if-IsQuiet false m k n h q = q

  if-once :
      (b : Bool) (m k : M QueueResult)
      → SubmitsOnce m
      → SubmitsOnce k
      → SubmitsOnce (if b then m else k)
  if-once true m k h q = h
  if-once false m k h q = q

  set_priorities-IsQuiet :
      (retry : Bool) (parsed : ParsedTorrentInfo) (s : EpisodeFileSelectionResult) (visible : Bool)
      → IsQuiet 2 (set_priorities l w options retry parsed s visible)
  unfolding set_priorities
  set_priorities-IsQuiet retry parsed s false calls = (refl, omega arith)
  set_priorities-IsQuiet retry parsed s true calls =
      bind-IsQuiet w
        (client_set_file_priority w parsed.info_hash (map (λ f. f.file_id) parsed.files) 0) _ 1 1
        (set_priority-IsQuiet w parsed.info_hash (map (λ f. f.file_id) parsed.files) 0)
        (λ _.
          bind-IsQuiet w (client_set_file_priority w parsed.info_hash s.selected_file_ids 1) _ 1 0
            (set_priority-IsQuiet w parsed.info_hash s.selected_file_ids 1)
            (λ _ calls. (refl, omega arith)))
        calls

  apply_priorities-IsQuiet :
      (retry : Bool) (parsed : ParsedTorrentInfo) (s : EpisodeFileSelectionResult)
      → IsQuiet 14 (apply_priorities l w options retry parsed s)
  unfolding apply_priorities
  apply_priorities-IsQuiet retry parsed s =
      bind-IsQuiet w (wait_for_qb_torrent w parsed.info_hash)
        (set_priorities l w options retry parsed s) 12 2
        (wait_for_qb_torrent-IsQuiet w parsed.info_hash) (set_priorities-IsQuiet retry parsed s)

  finish_selected-IsQuiet :
      (retry : Bool) (parsed : ParsedTorrentInfo) (s : EpisodeFileSelectionResult)
      → IsQuiet 14 (finish_selected l w options retry parsed s)
  unfolding finish_selected
  finish_selected-IsQuiet retry parsed s =
      if-IsQuiet (some_parsed s && some_selected s) (apply_priorities l w options retry parsed s)
        (pure unselected_result) 14 (apply_priorities-IsQuiet retry parsed s)
        (λ calls. (refl, omega arith))

  add_selected-once :
      (retry : Bool) (b : List ℕ) (parsed : ParsedTorrentInfo) (s : EpisodeFileSelectionResult)
      → SubmitsOnce (add_selected l w options retry b parsed s)
  unfolding add_selected
  add_selected-once retry b parsed s =
      let add = request w (add_torrent_file b parsed.filename options) in
      if-once (some_parsed s && not (some_selected s)) (raise no_missing_files)
        (add >>= λ _. finish_selected l w options retry parsed s) (raise-once no_missing_files)
        (once_then add (λ _. finish_selected l w options retry parsed s) 14
          (submit_request w (add_torrent_file b parsed.filename options) refl)
          (λ _. finish_selected-IsQuiet retry parsed s))

  select_fetched-once :
      (retry : Bool) (plan : EpisodeFileSelectionPlan) (link eff : Text)
      (fetched : Result (List ℕ × Text × ParsedTorrentInfo))
      → SubmitsOnce (select_fetched l w options retry plan link eff fetched)
  unfolding select_fetched
  select_fetched-once retry plan link eff (ok (b, name, parsed)) =
      add_selected-once retry b parsed (select_missing_episode_file_ids parsed.files plan)
  select_fetched-once retry plan link eff (raised (client_error e)) = raise-once (client_error e)
  select_fetched-once retry plan link eff (raised (http_error e)) =
      hand_off-once (must_not_hand_off l eff) link eff _
  select_fetched-once retry plan link eff (raised (selective_queue_error e)) =
      hand_off-once (must_not_hand_off l eff) link eff _

  queue_selected-once :
      (retry : Bool) (plan : EpisodeFileSelectionPlan) (r : Resolved)
      → SubmitsOnce (queue_selected l w options retry plan r)
  unfolding queue_selected
  queue_selected-once retry plan (link, eff, none) =
      select_fetched-once retry plan link eff (fetch_torrent l eff)
  queue_selected-once retry plan (link, eff, some h) =
      once_then (request w (add_torrent_url (l.normalize_http_url link) options)) _ 1
        (submit_request w (add_torrent_url (l.normalize_http_url link) options) refl)
        (λ _ calls. (omega arith, omega arith))

  queue_by_plan-once :
      (retry : Bool) (plan : Option EpisodeFileSelectionPlan) (link : Text)
      → SubmitsOnce (queue_by_plan l w options retry plan link)
  unfolding queue_by_plan
  queue_by_plan-once true none link = λ calls. omega arith
  queue_by_plan-once false none link = queue_whole-once (resolve_link l link)
  queue_by_plan-once true (some plan) link = queue_selected-once true plan (resolve_link l link)
  queue_by_plan-once false (some plan) link = queue_selected-once false plan (resolve_link l link)

  -- Whatever the link, the rule and the answers of qBittorrent: a run that succeeds submits exactly
  -- one torrent, and a run that raises submits at most one.
  pub queue_result-SubmitsOnce :
      (link : Text) (rule : Option Rule) (retry : Bool)
      → SubmitsOnce (queue_result_with_optional_file_selection l w options link rule retry)
  unfolding queue_result_with_optional_file_selection
  queue_result-SubmitsOnce link rule retry = queue_by_plan-once retry (plan_of rule retry) link
