-- ===== src/SelectiveQueue/Submit/Priorities.antt =====
-- The priorities of a torrent whose files were selected (app/services/selective_queue.py).
use q_bittorrent_rss_rules.Prelude.{
  ℕ, ◌≡◌, refl, inl, inr, Bool, true, false, List, [], ◌∷◌, map, arith, Option-cases, ltb, length,
}
use q_bittorrent_rss_rules.Prelude.Text.{Text}
use q_bittorrent_rss_rules.Prelude.Unicode.{Unicode}
use q_bittorrent_rss_rules.SelectiveQueue.Plan.{EpisodeFileSelectionResult}
use q_bittorrent_rss_rules.SelectiveQueue.Client.{
  Result, ok, raised, Options, Call, set_file_priority, Webui, M, pure, continue, ◌>>◌, request,
  client_set_file_priority, wait_for_qb_torrent,
}
use q_bittorrent_rss_rules.SelectiveQueue.Submit.{
  ParsedTorrentInfo, QueueResult, Links, apply_priorities, set_priorities, selected_result,
}

abbrev pub all_file_ids : ParsedTorrentInfo → List ℕ
all_file_ids parsed = map (λ f. f.file_id) parsed.files

module _ ⦃u : Unicode⦄ (l : Links) (w : Webui) (options : Options) where
  abbrev set_both : Text → List ℕ → List ℕ → QueueResult → M QueueResult
  set_both h ids js done =
      client_set_file_priority w h js 0 >> (client_set_file_priority w h ids 1 >> pure done)

  -- The two commands after the wait, and what they leave if neither is refused.
  set_both_lem :
      (h : Text) (ids js : List ℕ) (done r : QueueResult) (calls : List Call)
      → ltb 0 (length ids) ≡ true
      → ltb 0 (length js) ≡ true
      → (set_both h ids js done calls).0 ≡ ok r
      → (set_both h ids js done calls).1
        ≡ set_file_priority h ids 1 ∷ set_file_priority h js 0 ∷ calls
  unfolding client_set_file_priority request
  set_both_lem h [] js done r calls p q e = cc
  set_both_lem h (i ∷ ids) [] done r calls p q e = cc
  set_both_lem h (i ∷ ids) (j ∷ js) done r calls p q e =
      elim (Option-cases (w.refuses calls (set_file_priority h (j ∷ js) 0))) [
        | inr (x, a) ↦ ground (arith, a, e)
        | inl a ↦
            elim (Option-cases (
              w.refuses (set_file_priority h (j ∷ js) 0 ∷ calls)
                (set_file_priority h (i ∷ ids) 1))) [
                  | inr (x, b) ↦ ground (arith, a, b, e)
                  | inl b ↦ ground (arith, a, b, e)
                ]
      ]

  -- After the wait.
  after_wait :
      (retry : Bool) (parsed : ParsedTorrentInfo) (s : EpisodeFileSelectionResult) (r : QueueResult)
      (v : Result Bool) (calls : List Call)
      → ltb 0 (length s.selected_file_ids) ≡ true
      → ltb 0 (length (all_file_ids parsed)) ≡ true
      → (continue v (set_priorities l w options retry parsed s) calls).0 ≡ ok r
      → (v ≡ ok true)
        × ((continue v (set_priorities l w options retry parsed s) calls).1
            ≡ set_file_priority parsed.info_hash s.selected_file_ids 1
              ∷ set_file_priority parsed.info_hash (all_file_ids parsed) 0
              ∷ calls)
  unfolding set_priorities
  after_wait retry parsed s r (raised x) calls p q e = ground (arith, e)
  after_wait retry parsed s r (ok false) calls p q e = ground (arith, e)
  after_wait retry parsed s r (ok true) calls p q e = (
    refl,
    set_both_lem parsed.info_hash s.selected_file_ids (all_file_ids parsed)
        (selected_result retry s) r calls p q e,
  )

  -- Where a selection that is not empty is applied to a torrent with files and no error is raised,
  -- the wait has seen the torrent, and the last two commands switch all of its files off and then
  -- the selected ones on.
  pub apply_priorities-sets :
      (retry : Bool) (parsed : ParsedTorrentInfo) (s : EpisodeFileSelectionResult) (r : QueueResult)
      (calls : List Call)
      → ltb 0 (length s.selected_file_ids) ≡ true
      → ltb 0 (length (all_file_ids parsed)) ≡ true
      → (apply_priorities l w options retry parsed s calls).0 ≡ ok r
      → ((wait_for_qb_torrent w parsed.info_hash calls).0 ≡ ok true)
        × ((apply_priorities l w options retry parsed s calls).1
            ≡ set_file_priority parsed.info_hash s.selected_file_ids 1
              ∷ set_file_priority parsed.info_hash (all_file_ids parsed) 0
              ∷ (wait_for_qb_torrent w parsed.info_hash calls).1)
  unfolding apply_priorities
  apply_priorities-sets retry parsed s r calls =
      after_wait retry parsed s r ((wait_for_qb_torrent w parsed.info_hash calls).0)
        ((wait_for_qb_torrent w parsed.info_hash calls).1)
