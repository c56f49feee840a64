-- ===== src/RuleBuilder/Fragments.antt =====
-- What the fragments that pick episodes mean (app/services/rule_builder.py). A title is some text
-- without the letter s, in either case, and a canonical key behind it.
use q_bittorrent_rss_rules.Prelude.{
  ℕ, ◌≤◌, ◌<◌, ◌≡◌, refl, sym, ap, ap₂, ◌∙◌, true, false, ◌&&◌, ◌||◌, some, List, [], ◌∷◌, ◌++◌,
  arith, ltb, ◌=?◌, contains, text_eq, min, max, ◌==◌,
}
use q_bittorrent_rss_rules.Prelude.Text.{Text}
use q_bittorrent_rss_rules.Prelude.Unicode.{Unicode}
use q_bittorrent_rss_rules.WatchState.Keys.{
  Episode, format_episode_key, normalize_watch_state_episode_keys,
}
use q_bittorrent_rss_rules.WatchState.Keys.Laws.{canonical_tuple}
use q_bittorrent_rss_rules.WatchState.Keys.Lists.{AllKeys, normalize_lem}
use q_bittorrent_rss_rules.SelectiveQueue.Plan.{episode_geb}
use q_bittorrent_rss_rules.RuleBuilder.Regex.{render, searches}
use q_bittorrent_rss_rules.RuleBuilder.Numbers.{bounded}
use q_bittorrent_rss_rules.RuleBuilder.Episodes.{
  key_tuples, build_episode_progress_fragment, build_lower_episode_exclusion_fragment,
  build_existing_episode_exclusion_fragment,
}
use q_bittorrent_rss_rules.RuleBuilder.Trees.{progress_tree, lower_tree, existing_tree}
use q_bittorrent_rss_rules.RuleBuilder.Trees.Rendered.{
  progress-render, lower-render, existing-render,
}
use q_bittorrent_rss_rules.RuleBuilder.Trees.Search.{HasNoS, progress_search}
use q_bittorrent_rss_rules.RuleBuilder.Trees.Excluded.{
  has_episode, bounded_episodes, lower_search, existing_search,
}

module _ ⦃u : Unicode⦄ where
  format-eq :
      (s e season episode : ℕ)
      → s < 100
      → e < 100
      → season < 100
      → episode < 100
      → (format_episode_key season episode == format_episode_key s e)
        ≡ ((s =? season) && (e =? episode))
  format-eq s e season episode hs he h k =
      ground (arith, canonical_tuple s e hs he, canonical_tuple season episode h k)

  key_tuples-cons :
      (s e : ℕ) (keys : List Text)
      → s < 100
      → e < 100
      → key_tuples (format_episode_key s e ∷ keys) ≡ (s, e) ∷ key_tuples keys
  unfolding key_tuples
  key_tuples-cons s e keys h k = rw (canonical_tuple s e h k, key_tuples) refl

  key_tuples-contains :
      (keys : List Text) (season episode : ℕ)
      → AllKeys keys
      → season < 100
      → episode < 100
      → has_episode season episode (bounded_episodes (key_tuples keys))
        ≡ contains keys (format_episode_key season episode)
  unfolding key_tuples has_episode bounded
  key_tuples-contains [] season episode a h k = refl
  key_tuples-contains (key ∷ keys) season episode ((s, e, hs, he, p), a) h k =
      let same_season : max 0 (min 99 s) ≡ s = omega arith in
      let same_episode : max 0 (min 99 e) ≡ e = omega arith in
      rw (p, key_tuples-cons s e keys hs he, same_season, same_episode)
        (ap₂ ◌||◌ (sym (format-eq s e season episode hs he h k))
          (key_tuples-contains keys season episode a h k))

  -- For a floor, the expression that `build_episode_progress_fragment` writes is found in a title
  -- that ends in the key of an episode below S100E100, with no letter s before it, exactly if the
  -- episode is not before the floor, whose season is taken to 1 to 99 and whose episode to 0 to 99.
  pub progress_fragment_lem :
      (start_season start_episode season episode : ℕ) (before : Text)
      → season < 100
      → episode < 100
      → HasNoS before
      → let tree = progress_tree start_season start_episode in
        (build_episode_progress_fragment (some start_season) (some start_episode) ≡ render tree)
        × (searches tree (before ++ format_episode_key season episode)
            ≡ episode_geb
                (season, episode)
                (bounded false start_season, bounded true start_episode))
  unfolding build_episode_progress_fragment
  progress_fragment_lem s e season episode before h k b =
      (sym (progress-render s e), progress_search s e season episode before h k b)

  -- For a floor with an earlier episode in its season, the expression that
  -- `build_lower_episode_exclusion_fragment` writes is found in a title that ends in the key of an
  -- episode below S100E100, with no letter s before it, exactly if the episode is in the season of
  -- the floor and before it; then the expression for the floor is not found.
  pub lower_fragment_lem :
      (start_season start_episode season episode : ℕ) (before : Text)
      → 1 ≤ start_episode
      → season < 100
      → episode < 100
      → HasNoS before
      → let tree = lower_tree start_season start_episode in
        let title = before ++ format_episode_key season episode in
        (build_lower_episode_exclusion_fragment (some start_season) (some start_episode)
          ≡ render tree)
        × (searches tree title
            ≡ ((bounded false start_season =? season) && ltb episode (bounded true start_episode)))
        × ((searches tree title && searches (progress_tree start_season start_episode) title)
            ≡ false)
  unfolding episode_geb
  lower_fragment_lem s e season episode before l h k b =
      let lower = lower_search s e season episode before l h k b in
      (
        sym (lower-render s e l),
        lower,
        ap₂ ◌&&◌ lower (progress_search s e season episode before h k b) ∙ ground arith,
      )

  -- Where the normalized keys name some episode, the expression that
  -- `build_existing_episode_exclusion_fragment` writes is found in a title that ends in the key of
  -- an episode below S100E100, with no letter s before it, exactly if that key is among them.
  pub existing_fragment_lem :
      (existing_episode_keys : List Text) (e : Episode) (es : List Episode) (season episode : ℕ)
      (before : Text)
      → key_tuples (normalize_watch_state_episode_keys existing_episode_keys) ≡ e ∷ es
      → season < 100
      → episode < 100
      → HasNoS before
      → (build_existing_episode_exclusion_fragment existing_episode_keys
          ≡ render (existing_tree (e ∷ es)))
        × (searches (existing_tree (e ∷ es)) (before ++ format_episode_key season episode)
            ≡ contains
                (normalize_watch_state_episode_keys existing_episode_keys)
                (format_episode_key season episode))
  existing_fragment_lem value e es season episode before named h k b =
      let keys = normalize_watch_state_episode_keys value in
      (
        sym (existing-render value e es named),
        existing_search e es season episode before h k b
            ∙ ap (λ episodes. has_episode season episode (bounded_episodes episodes)) (sym named)
            ∙ key_tuples-contains keys season episode (normalize_lem value).0 h k,
      )
