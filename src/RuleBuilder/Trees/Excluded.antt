-- ===== src/RuleBuilder/Trees/Excluded.antt =====
-- The fragments that keep earlier and existing episodes out (app/services/rule_builder.py).
use q_bittorrent_rss_rules.Prelude.{
  ℕ, zero, suc, ◌+◌, ◌/◌, ◌%◌, ◌≤◌, ◌<◌, ◌≡◌, refl, ap, ap₂, ◌∙◌, Bool, true, false, ◌&&◌, ◌||◌,
  Option, List, [], ◌∷◌, ◌++◌, arith, leb, ltb, ◌=?◌, All, map,
}
use q_bittorrent_rss_rules.Prelude.Text.{Text}
use q_bittorrent_rss_rules.Prelude.Unicode.{Unicode}
use q_bittorrent_rss_rules.WatchState.Keys.{Episode, format_episode_key}
use q_bittorrent_rss_rules.WatchState.Keys.Laws.{key_text}
use q_bittorrent_rss_rules.RuleBuilder.Regex.{
  Regex, Follow, seq, group, optional, matches, match_char, done, alts, searches,
}
use q_bittorrent_rss_rules.RuleBuilder.Numbers.{bounded}
use q_bittorrent_rss_rules.RuleBuilder.Trees.{
  exact, no_digit, separators, hyphen, any_number, episode_prefix, standalone_tree, below_tree,
  below_trees, lower_tree, existing_tree,
}
use q_bittorrent_rss_rules.RuleBuilder.Trees.Seasons.{exact_season}
use q_bittorrent_rss_rules.RuleBuilder.Trees.Keys.{season_then_episode, StopsAtDigit}
use q_bittorrent_rss_rules.RuleBuilder.Trees.Floor.{range_fails}
use q_bittorrent_rss_rules.RuleBuilder.Trees.Search.{HasNoS, NeedsS, search-key}
use q_bittorrent_rss_rules.RuleBuilder.Trees.Exact.{standalone_at, standalone-NeedsS}

-- One of the episodes is this one.
unfoldable pub has_episode : ℕ → ℕ → List Episode → Bool
has_episode season episode [] = false
has_episode season episode ((s, e) ∷ episodes) =
    (s =? season) && (e =? episode) || has_episode season episode episodes

same_season : (s v : ℕ) (p : Bool) → ((s =? v) && p || (s =? v) && false) ≡ ((s =? v) && p)
same_season s v p = ground arith

module _ ⦃u : Unicode⦄ where
  below_at :
      (s e season episode : ℕ) (prev : Option ℕ)
      → s < 100
      → e < 100
      → season < 100
      → episode < 100
      → matches (below_tree s e) done prev (key_text season episode)
        ≡ ((s =? season) && (e =? episode))
  unfolding below_tree matches key_text
  below_at s e season episode prev hs he h k =
      let number =
        λ (a b : ℕ) (k : Follow) (prev : Option ℕ) (rest : Text) (ha : a < 10) (hb : b < 10)
            (stops : StopsAtDigit k).
          exact_season a b ha hb k stops prev rest s hs in
      let rest : Regex =
        seq separators (seq (optional (group episode_prefix)) (seq (exact e) no_digit)) in
      ap₂ ◌||◌ (standalone_at s e season episode prev hs he h k) (
        season_then_episode (exact s) (λ v. s =? v) number (season / 10) (season % 10)
          (episode / 10) (episode % 10) (omega arith) (omega arith) (omega arith) (omega arith) prev
          (seq any_number (seq separators (seq hyphen rest)))
        ∙ ap₂ ◌&&◌ (ap (λ v. s =? v) (omega arith)) (
            range_fails (season / 10) (season % 10) (episode / 10) (episode % 10) (omega arith)
              (omega arith) (omega arith) (omega arith) prev rest))
      ∙ same_season s season (e =? episode)

  below-NeedsS : (s e : ℕ) → NeedsS (below_tree s e)
  unfolding below_tree standalone_tree matches match_char
  below-NeedsS s e = (λ prev. refl, λ prev c t n. rw n refl)

  -- An alternative more.
  alts-NeedsS : (r : Regex) (rs : List Regex) → NeedsS r → All NeedsS rs → NeedsS (alts (r ∷ rs))
  unfolding matches
  alts-NeedsS r [] n ns = n
  alts-NeedsS r (s ∷ rs) (e, n) (m, ns) =
      let (f, o) = alts-NeedsS s rs m ns in
      (λ prev. ap₂ ◌||◌ (e prev) (f prev), λ prev c t h. ap₂ ◌||◌ (n prev c t h) (o prev c t h))

  group-NeedsS :
      (r : Regex) (rs : List Regex) → NeedsS r → All NeedsS rs → NeedsS (group (alts (r ∷ rs)))
  unfolding matches
  group-NeedsS r rs n ns = alts-NeedsS r rs n ns

  below_trees-NeedsS : (s e n : ℕ) → All NeedsS (below_trees s e n)
  unfolding below_trees
  below_trees-NeedsS s e zero = tt
  below_trees-NeedsS s e (suc n) = (below-NeedsS s e, below_trees-NeedsS s (suc e) n)

  below_trees_at :
      (s e n season episode : ℕ) (prev : Option ℕ)
      → s < 100
      → e + n < 100
      → season < 100
      → episode < 100
      → matches (alts (below_trees s e (suc n))) done prev (key_text season episode)
        ≡ ((s =? season) && (leb e episode && leb episode (e + n)))
  unfolding below_trees matches
  below_trees_at s e zero season episode prev hs he h k =
      below_at s e season episode prev hs (omega arith) h k ∙ ground arith
  below_trees_at s e (suc n) season episode prev hs he h k =
      ap₂ ◌||◌ (below_at s e season episode prev hs (omega arith) h k)
        (below_trees_at s (suc e) n season episode prev hs (omega arith) h k)
      ∙ ground arith

  lower_trees_search :
      (s n season episode : ℕ) (before : Text)
      → s < 100
      → 1 ≤ n
      → n < 100
      → season < 100
      → episode < 100
      → HasNoS before
      → searches (group (alts (below_trees s 0 n))) (before ++ format_episode_key season episode)
        ≡ ((s =? season) && ltb episode n)
  unfolding below_trees matches
  lower_trees_search s zero season episode before hs l m h k b = ground (arith, l)
  lower_trees_search s (suc n) season episode before hs l m h k b =
      search-key (group (alts (below_trees s 0 (suc n)))) _ season episode before h k
        (group-NeedsS (below_tree s 0) (below_trees s 1 n) (below-NeedsS s 0)
          (below_trees-NeedsS s 1 n))
        b (λ prev. below_trees_at s 0 n season episode prev hs (omega arith) h k ∙ ground arith)

  -- The earlier episodes of the season, and no others.
  pub lower_search :
      (start_season start_episode season episode : ℕ) (before : Text)
      → 1 ≤ start_episode
      → season < 100
      → episode < 100
      → HasNoS before
      → searches
          (lower_tree start_season start_episode)
          (before ++ format_episode_key season episode)
        ≡ ((bounded false start_season =? season) && ltb episode (bounded true start_episode))
  unfolding lower_tree bounded
  lower_search s e season episode before l h k b =
      lower_trees_search (bounded false s) (bounded true e) season episode before (omega arith)
        (omega arith) (omega arith) h k b

  abbrev bounded_tree : Episode → Regex
  bounded_tree (s, e) = standalone_tree (bounded true s) (bounded true e)

  abbrev pub bounded_episodes : List Episode → List Episode
  bounded_episodes episodes = map (λ (s, e). (bounded true s, bounded true e)) episodes

  standalone_trees-NeedsS : (es : List Episode) → All NeedsS (map bounded_tree es)
  standalone_trees-NeedsS [] = tt
  standalone_trees-NeedsS ((s, e) ∷ es) =
      (standalone-NeedsS (bounded true s) (bounded true e), standalone_trees-NeedsS es)

  existing_at :
      (e : Episode) (es : List Episode) (season episode : ℕ) (prev : Option ℕ)
      → season < 100
      → episode < 100
      → matches (alts (map bounded_tree (e ∷ es))) done prev (key_text season episode)
        ≡ has_episode season episode (bounded_episodes (e ∷ es))
  unfolding matches has_episode bounded
  existing_at (s, e) [] season episode prev h k =
      standalone_at (bounded true s) (bounded true e) season episode prev (omega arith)
        (omega arith) h k
      ∙ ground arith
  existing_at (s, e) (f ∷ es) season episode prev h k =
      ap₂ ◌||◌
        (standalone_at (bounded true s) (bounded true e) season episode prev (omega arith)
          (omega arith) h k)
        (existing_at f es season episode prev h k)

  -- The existing episodes, and no others.
  pub existing_search :
      (e : Episode) (es : List Episode) (season episode : ℕ) (before : Text)
      → season < 100
      → episode < 100
      → HasNoS before
      → searches (existing_tree (e ∷ es)) (before ++ format_episode_key season episode)
        ≡ has_episode season episode (bounded_episodes (e ∷ es))
  unfolding existing_tree matches
  existing_search (s, e) es season episode before h k b =
      search-key (existing_tree ((s, e) ∷ es)) _ season episode before h k
        (group-NeedsS (standalone_tree (bounded true s) (bounded true e)) (map bounded_tree es)
          (standalone-NeedsS (bounded true s) (bounded true e)) (standalone_trees-NeedsS es))
        b (λ prev. existing_at (s, e) es season episode prev h k)
