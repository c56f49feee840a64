-- ===== src/SelectiveQueue/Plan/Laws.antt =====
-- What the selection of episode files satisfies (app/services/selective_queue.py).
use q_bittorrent_rss_rules.Prelude.{
  is_empty, ℕ, zero, suc, ◌+◌, ◌-◌, ◌≤◌, ◌<◌, ◌≡◌, refl, inl, inr, ◌⊎◌, ◌↔◌, Bool, true, false,
  ◌&&◌, not, List, [], ◌∷◌, arith, ◌=?◌, contains, text_eq, length, any, keep_if, Bool-cases, map,
}
use q_bittorrent_rss_rules.Prelude.Unicode.{Unicode}
use q_bittorrent_rss_rules.WatchState.Keys.{format_episode_key}
use q_bittorrent_rss_rules.SelectiveQueue.Ranges.{episode_matches_for_path}
use q_bittorrent_rss_rules.SelectiveQueue.Files.{TorrentFileEntry, is_video_file}
use q_bittorrent_rss_rules.SelectiveQueue.Plan.{
  EpisodeFileSelectionPlan, episode_geb, accepts_from, selection_plan_accepts_episode_range,
  select_missing_episode_file_ids, select_entry,
}

-- The plan wants the episode: it is not excluded and not before the floor.
abbrev pub Wants : EpisodeFileSelectionPlan → ℕ → ℕ → Type 0
Wants plan season episode =
    (contains plan.excluded_episode_keys (format_episode_key season episode) ≡ false)
    × (episode_geb (season, episode) plan.floor ≡ true)

accepts_from-Wants :
    (plan : EpisodeFileSelectionPlan) (season episode count : ℕ)
    → accepts_from plan season episode count ≡ true
    → (n : ℕ) × (episode ≤ n) × (n < episode + count) × Wants plan season n
unfolding accepts_from
accepts_from-Wants plan season episode zero h = cc
accepts_from-Wants plan season episode (suc count) h =
    elim (Bool-cases (accepts_from plan season (suc episode) count)) [
      | inl e ↦
          let (n, lo, hi, w) = accepts_from-Wants plan season (suc episode) count e in
          (n, omega (arith, lo), omega (arith, hi), w)
      | inr e ↦ (episode, omega arith, omega arith, ground (arith, e))
    ]

Wants-accepts_from :
    (plan : EpisodeFileSelectionPlan) (season episode count n : ℕ)
    → episode ≤ n
    → n < episode + count
    → Wants plan season n
    → accepts_from plan season episode count ≡ true
unfolding accepts_from
Wants-accepts_from plan season episode zero n lo hi w = ground arith
Wants-accepts_from plan season episode (suc count) n lo hi (fresh, ge) =
    elim (Bool-cases (n =? episode)) [
      | inl e ↦ ground (arith, e)
      | inr e ↦ ground (
        arith,
        Wants-accepts_from plan season (suc episode) count n (ground (arith, e)) (omega arith)
            (fresh, ge),
      )
    ]

-- A range is accepted exactly when the plan wants an episode of it.
pub accepts_range_lem :
    (plan : EpisodeFileSelectionPlan) (season start end : ℕ)
    → start ≤ end
    → (selection_plan_accepts_episode_range plan (season, start, end) ≡ true)
      ↔ ((n : ℕ) × (start ≤ n) × (n ≤ end) × Wants plan season n)
unfolding selection_plan_accepts_episode_range
accepts_range_lem plan season start end h = (
  λ e.
      (let (n, lo, hi, w) = accepts_from-Wants plan season start (end + 1 - start) e in
        (n, lo, omega (arith, hi), w)),
  λ (n, lo, hi, w). Wants-accepts_from plan season start (end + 1 - start) n lo (omega arith) w,
)

List-cases {ℓ} : {A : Type ℓ} (xs : List A) → (xs ≡ []) ⊎ ((y : A) × (ys : List A) × (xs ≡ y ∷ ys))
List-cases [] = inl refl
List-cases (x ∷ xs) = inr (x, xs, refl)

module _ ⦃u : Unicode⦄ where
  -- A file that the program reads as episodes.
  unfoldable pub is_episode_file : TorrentFileEntry → Bool
  unfolding is_video_file episode_matches_for_path
  is_episode_file entry =
      is_video_file entry.path && not (is_empty (episode_matches_for_path entry.path))

  -- A file that is loaded: some range of its name is accepted.
  unfoldable pub is_wanted_file : EpisodeFileSelectionPlan → TorrentFileEntry → Bool
  unfolding is_video_file episode_matches_for_path selection_plan_accepts_episode_range
  is_wanted_file plan entry =
      is_video_file entry.path
      && any (selection_plan_accepts_episode_range plan) (episode_matches_for_path entry.path)

  select_missing_ids :
      (files : List TorrentFileEntry) (plan : EpisodeFileSelectionPlan)
      → let r = select_missing_episode_file_ids files plan in
        (r.selected_file_ids ≡ map (λ f. f.file_id) (keep_if (is_wanted_file plan) files))
  unfolding select_missing_episode_file_ids select_entry is_wanted_file
  select_missing_ids [] plan = refl
  select_missing_ids (f ∷ files) plan = elim (List-cases (episode_matches_for_path f.path)) [
    | inl e ↦ ground (arith, e, select_missing_ids files plan)
    | inr (m, ms, e) ↦ ground (arith, e, select_missing_ids files plan)
  ]

  select_missing_parsed :
      (files : List TorrentFileEntry) (plan : EpisodeFileSelectionPlan)
      → let r = select_missing_episode_file_ids files plan in
        (r.parsed_episode_file_count ≡ length (keep_if is_episode_file files))
  unfolding select_missing_episode_file_ids select_entry is_episode_file
  select_missing_parsed [] plan = refl
  select_missing_parsed (f ∷ files) plan = elim (List-cases (episode_matches_for_path f.path)) [
    | inl e ↦ ground (arith, e, select_missing_parsed files plan)
    | inr (m, ms, e) ↦ ground (arith, e, select_missing_parsed files plan)
  ]

  select_missing_counts :
      (files : List TorrentFileEntry) (plan : EpisodeFileSelectionPlan)
      → let r = select_missing_episode_file_ids files plan in
        (length r.selected_file_ids + r.skipped_episode_file_count ≡ r.parsed_episode_file_count)
  unfolding select_missing_episode_file_ids select_entry
  select_missing_counts [] plan = refl
  select_missing_counts (f ∷ files) plan = elim (List-cases (episode_matches_for_path f.path)) [
    | inl e ↦ ground (arith, e, select_missing_counts files plan)
    | inr (m, ms, e) ↦ ground (arith, e, select_missing_counts files plan)
  ]

  -- The selected ids are those of the wanted files in the order of the torrent, the parsed count is
  -- that of the files read as episodes, and every such file is either selected or skipped.
  pub select_missing_lem :
      (files : List TorrentFileEntry) (plan : EpisodeFileSelectionPlan)
      → let r = select_missing_episode_file_ids files plan in
        (r.selected_file_ids ≡ map (λ f. f.file_id) (keep_if (is_wanted_file plan) files))
        × (r.parsed_episode_file_count ≡ length (keep_if is_episode_file files))
        × (length r.selected_file_ids + r.skipped_episode_file_count ≡ r.parsed_episode_file_count)
  select_missing_lem files plan = (
    select_missing_ids files plan,
    select_missing_parsed files plan,
    select_missing_counts files plan,
  )
