-- ===== src/SelectiveQueue/Submit/Local.antt =====
-- Links into the local network (app/services/selective_queue.py).
use q_bittorrent_rss_rules.Prelude.{
  ℕ, zero, suc, ◌+◌, ◌≡◌, refl, ◌∙◌, inl, inr, Bool, true, false, ◌&&◌, not, Option, none, some,
  List, [], ◌∷◌, map, if◌then◌else◌, Option-cases, arith,
}
use q_bittorrent_rss_rules.Prelude.Text.{Text, strip}
use q_bittorrent_rss_rules.Prelude.Unicode.{Unicode}
use q_bittorrent_rss_rules.SelectiveQueue.Plan.{
  Rule, EpisodeFileSelectionPlan, EpisodeFileSelectionResult, select_missing_episode_file_ids,
}
use q_bittorrent_rss_rules.SelectiveQueue.Client.{
  Failure, client_error, http_error, selective_queue_error, Result, ok, raised, Options, Call,
  add_torrent_file, add_torrent_url, set_file_priority, get_torrent, Webui, M, pure, raise, ◌>>=◌,
  continue, request, client_set_file_priority, client_get_torrent, pause_before, wait_loop,
  wait_for_qb_torrent,
}
use q_bittorrent_rss_rules.SelectiveQueue.Submit.{
  ParsedTorrentInfo, QueueResult, Links, resolve_link, fetch_torrent, must_not_hand_off,
  could_not_fetch, queue_fetched, queue_whole, set_priorities, apply_priorities, finish_selected,
  add_selected, select_fetched, queue_selected, queue_by_plan, plan_of, some_parsed, some_selected,
  no_missing_files, unselected_result, queue_result_with_optional_file_selection,
}

-- A call that leaves a link to qBittorrent.
abbrev pub is_hand_off : Call → Bool
is_hand_off (add_torrent_url link options) = true
is_hand_off _ = false

abbrev pub hand_offs : List Call → ℕ
hand_offs [] = 0
hand_offs (c ∷ calls) = (if is_hand_off c then 1 else 0) + hand_offs calls

-- The run leaves no link to qBittorrent.
abbrev pub KeepsLinks : {A : Type 0} → M A → Type 0
KeepsLinks m = (calls : List Call) → hand_offs ((m calls).1) ≡ hand_offs calls

-- Where the download fails, the run raises and makes no call at all.
abbrev pub StopsOn : Result (List ℕ × Text × ParsedTorrentInfo) → M QueueResult → Type 0
StopsOn (ok fetched) m = Unit
StopsOn (raised e) m = (calls : List Call) → (e' : Failure) × (m calls ≡ (raised e', calls))

module _ ⦃u : Unicode⦄ (w : Webui) where
  request-keeps : (c : Call) → is_hand_off c ≡ false → KeepsLinks (request w c)
  unfolding request
  request-keeps c h calls = elim (Option-cases (w.refuses calls c)) [
    | inl e ↦ ground (arith, e)
    | inr (x, e) ↦ ground (arith, e)
  ]

  continue-keeps :
      {A B : Type 0} (r : Result A) (f : A → M B) (calls : List Call)
      → ((x : A) → KeepsLinks (f x))
      → hand_offs ((continue r f calls).1) ≡ hand_offs calls
  continue-keeps (ok x) f calls q = q x calls
  continue-keeps (raised e) f calls q = refl

  bind-keeps :
      {A B : Type 0} (m : M A) (f : A → M B)
      → KeepsLinks m
      → ((x : A) → KeepsLinks (f x))
      → KeepsLinks (m >>= f)
  bind-keeps m f q r calls = continue-keeps ((m calls).0) f ((m calls).1) r ∙ q calls

  if-keeps :
      {A : Type 0} (b : Bool) (m k : M A)
      → KeepsLinks m
      → KeepsLinks k
      → KeepsLinks (if b then m else k)
  if-keeps true m k h q = h
  if-keeps false m k h q = q

  pause-keeps : (left : ℕ) → KeepsLinks (pause_before w left)
  unfolding pause_before
  pause-keeps zero calls = refl
  pause-keeps (suc left) calls = omega arith

  get_torrent-keeps : (h : Text) → KeepsLinks (client_get_torrent w h)
  unfolding client_get_torrent
  get_torrent-keeps h calls = ground (arith, request-keeps (get_torrent (strip h)) refl calls)

  wait_loop-keeps : (left : ℕ) (h : Text) → KeepsLinks (wait_loop w left h)
  unfolding wait_loop
  wait_loop-keeps zero h calls = refl
  wait_loop-keeps (suc left) h calls =
      bind-keeps (client_get_torrent w h) _ (get_torrent-keeps h)
        (λ found.
          if-keeps found (pure true) (pause_before w left >>= λ _. wait_loop w left h) (λ _. refl)
            (bind-keeps (pause_before w left) (λ _. wait_loop w left h) (pause-keeps left)
              (λ _. wait_loop-keeps left h)))
        calls

  set_priority-keeps :
      (h : Text) (ids : List ℕ) (priority : ℕ)
      → KeepsLinks (client_set_file_priority w h ids priority)
  unfolding client_set_file_priority
  set_priority-keeps h [] priority calls = refl
  set_priority-keeps h (i ∷ ids) priority calls =
      request-keeps (set_file_priority h (i ∷ ids) priority) refl calls

module _ ⦃u : Unicode⦄ (l : Links) (w : Webui) (options : Options) where
  set_priorities-keeps :
      (retry : Bool) (parsed : ParsedTorrentInfo) (s : EpisodeFileSelectionResult) (visible : Bool)
      → KeepsLinks (set_priorities l w options retry parsed s visible)
  unfolding set_priorities
  set_priorities-keeps retry parsed s false calls = refl
  set_priorities-keeps retry parsed s true calls =
      bind-keeps w
        (client_set_file_priority w parsed.info_hash (map (λ f. f.file_id) parsed.files) 0) _
        (set_priority-keeps w parsed.info_hash (map (λ f. f.file_id) parsed.files) 0)
        (λ _.
          bind-keeps w (client_set_file_priority w parsed.info_hash s.selected_file_ids 1) _
            (set_priority-keeps w parsed.info_hash s.selected_file_ids 1) (λ _ calls. refl))
        calls

  finish_selected-keeps :
      (retry : Bool) (parsed : ParsedTorrentInfo) (s : EpisodeFileSelectionResult)
      → KeepsLinks (finish_selected l w options retry parsed s)
  unfolding finish_selected apply_priorities wait_for_qb_torrent
  finish_selected-keeps retry parsed s =
      if-keeps w (some_parsed s && some_selected s) (apply_priorities l w options retry parsed s)
        (pure unselected_result)
        (bind-keeps w (wait_for_qb_torrent w parsed.info_hash)
          (set_priorities l w options retry parsed s) (wait_loop-keeps w 6 parsed.info_hash)
          (set_priorities-keeps retry parsed s))
        (λ calls. refl)

  add_selected-keeps :
      (retry : Bool) (b : List ℕ) (parsed : ParsedTorrentInfo) (s : EpisodeFileSelectionResult)
      → KeepsLinks (add_selected l w options retry b parsed s)
  unfolding add_selected
  add_selected-keeps retry b parsed s =
      let add = request w (add_torrent_file b parsed.filename options) in
      if-keeps w (some_parsed s && not (some_selected s)) (raise no_missing_files)
        (add >>= λ _. finish_selected l w options retry parsed s) (λ calls. refl)
        (bind-keeps w add (λ _. finish_selected l w options retry parsed s)
          (request-keeps w (add_torrent_file b parsed.filename options) refl)
          (λ _. finish_selected-keeps retry parsed s))

  queue_fetched-local :
      (link eff : Text) (fetched : Result (List ℕ × Text × ParsedTorrentInfo))
      → must_not_hand_off l eff ≡ true
      → KeepsLinks (queue_fetched l w options link eff fetched)
        × StopsOn fetched (queue_fetched l w options link eff fetched)
  unfolding queue_fetched
  queue_fetched-local link eff (ok (b, name, parsed)) m = (
    bind-keeps w (request w (add_torrent_file b name options)) _
        (request-keeps w (add_torrent_file b name options) refl) (λ _ calls. refl),
    tt,
  )
  queue_fetched-local link eff (raised (client_error e)) m =
      (λ calls. refl, λ calls. (client_error e, refl))
  queue_fetched-local link eff (raised (http_error e)) m =
      rw m (λ calls. refl, λ calls. (could_not_fetch, refl))
  queue_fetched-local link eff (raised (selective_queue_error e)) m =
      rw m (λ calls. refl, λ calls. (could_not_fetch, refl))

  select_fetched-local :
      (retry : Bool) (plan : EpisodeFileSelectionPlan) (link eff : Text)
      (fetched : Result (List ℕ × Text × ParsedTorrentInfo))
      → must_not_hand_off l eff ≡ true
      → KeepsLinks (select_fetched l w options retry plan link eff fetched)
        × StopsOn fetched (select_fetched l w options retry plan link eff fetched)
  unfolding select_fetched
  select_fetched-local retry plan link eff (ok (b, name, parsed)) m =
      (add_selected-keeps retry b parsed (select_missing_episode_file_ids parsed.files plan), tt)
  select_fetched-local retry plan link eff (raised (client_error e)) m =
      (λ calls. refl, λ calls. (client_error e, refl))
  select_fetched-local retry plan link eff (raised (http_error e)) m =
      rw m (λ calls. refl, λ calls. (could_not_fetch, refl))
  select_fetched-local retry plan link eff (raised (selective_queue_error e)) m =
      rw m (λ calls. refl, λ calls. (could_not_fetch, refl))

  stops_at_once :
      (fetched : Result (List ℕ × Text × ParsedTorrentInfo)) (e : Failure)
      → StopsOn fetched (raise e)
  stops_at_once (ok fetched) e = tt
  stops_at_once (raised e') e = λ calls. (e, refl)

  by_plan-local :
      (retry : Bool) (plan : Option EpisodeFileSelectionPlan) (link link' eff : Text)
      → resolve_link l link ≡ (link', eff, none)
      → must_not_hand_off l eff ≡ true
      → KeepsLinks (queue_by_plan l w options retry plan link)
        × StopsOn (fetch_torrent l eff) (queue_by_plan l w options retry plan link)
  unfolding queue_by_plan queue_whole queue_selected
  by_plan-local true none link link' eff r m =
      (λ calls. refl, stops_at_once (fetch_torrent l eff) _)
  by_plan-local false none link link' eff r m =
      rw r (queue_fetched-local link' eff (fetch_torrent l eff) m)
  by_plan-local true (some plan) link link' eff r m =
      rw r (select_fetched-local true plan link' eff (fetch_torrent l eff) m)
  by_plan-local false (some plan) link link' eff r m =
      rw r (select_fetched-local false plan link' eff (fetch_torrent l eff) m)

  -- If a link, with its redirect followed, is no magnet link, and the app must fetch it itself, as it
  -- leads into the local network and qBittorrent runs elsewhere, then no link is left to qBittorrent,
  -- with or without a rule, on a first run or a retry, whatever the download gives and qBittorrent
  -- answers; and if the download or the parse fails, the run raises without any call.
  pub local_link-not_handed_off :
      (rule : Option Rule) (retry : Bool) (link link' eff : Text)
      → resolve_link l link ≡ (link', eff, none)
      → must_not_hand_off l eff ≡ true
      → KeepsLinks (queue_result_with_optional_file_selection l w options link rule retry)
        × StopsOn
            (fetch_torrent l eff)
            (queue_result_with_optional_file_selection l w options link rule retry)
  unfolding queue_result_with_optional_file_selection
  local_link-not_handed_off rule retry = by_plan-local retry (plan_of rule retry)
