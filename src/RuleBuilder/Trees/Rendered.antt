-- ===== src/RuleBuilder/Trees/Rendered.antt =====
-- The trees of the fragments are written as the code writes them (app/services/rule_builder.py).
use q_bittorrent_rss_rules.Prelude.{
  ℕ, ◌+◌, ◌≤◌, ◌∙◌, zero, suc, map, ◌≡◌, refl, inl, inr, true, false, ap₂, some, List, [], ◌∷◌,
  ◌++◌, ap, ltb, Bool-cases, arith, max, min,
}
use q_bittorrent_rss_rules.Prelude.Text.{Text, show, codes}
use q_bittorrent_rss_rules.Prelude.Unicode.{Unicode}
use q_bittorrent_rss_rules.WatchState.Keys.{Episode, normalize_watch_state_episode_keys}
use q_bittorrent_rss_rules.RuleBuilder.Regex.{Regex, group, render, render_class, literal, alts}
use q_bittorrent_rss_rules.RuleBuilder.Numbers.{bounded, concat, join}
use q_bittorrent_rss_rules.RuleBuilder.Numbers.Range.{min_1_to_99-render, min_0_to_99-render}
use q_bittorrent_rss_rules.RuleBuilder.Episodes.{
  progress_text, build_standalone_episode_fragment, standalone_pieces,
  build_below_floor_episode_fragment, below_from, any_of_or_nothing,
  build_lower_episode_exclusion_fragment, key_tuples, build_existing_episode_exclusion_fragment,
}
use q_bittorrent_rss_rules.RuleBuilder.Trees.{
  progress_tree, standalone_tree, below_tree, below_trees, lower_tree, existing_tree,
}

literal-render : (s : Text) → render (literal s) ≡ s
unfolding render render_class
literal-render [] = refl
literal-render (c ∷ []) = refl
literal-render (c ∷ d ∷ s) = ap (λ t. c ∷ t) (literal-render (d ∷ s))

pub progress-render : (s e : ℕ) → render (progress_tree s e) ≡ progress_text s e
unfolding progress_tree progress_text render render_class
progress-render s e = elim (Bool-cases (ltb (bounded false s) 99)) [
  | inl h ↦
      rw
        (
          h,
          literal-render (show (bounded false s)),
          min_1_to_99-render (bounded false s + 1),
          min_1_to_99-render (bounded false s),
          min_0_to_99-render (bounded true e),
        )
        refl
  | inr h ↦
      rw
        (
          h,
          literal-render (show (bounded false s)),
          min_1_to_99-render (bounded false s),
          min_0_to_99-render (bounded true e),
        )
        refl
]

standalone_pieces-render : (s e : ℕ) → render (standalone_tree s e) ≡ concat (standalone_pieces s e)
unfolding standalone_tree render render_class
standalone_pieces-render s e = rw (literal-render (show s), literal-render (show e)) refl

pub standalone-render :
    (s e : ℕ)
    → render (standalone_tree (bounded true s) (bounded true e))
      ≡ build_standalone_episode_fragment s e
unfolding build_standalone_episode_fragment
standalone-render s e = standalone_pieces-render (bounded true s) (bounded true e)

below-render :
    (s e : ℕ)
    → 1 ≤ s
    → s ≤ 99
    → e ≤ 99
    → render (below_tree s e) ≡ build_below_floor_episode_fragment s e
unfolding below_tree standalone_tree build_below_floor_episode_fragment render render_class bounded
below-render s e l m h =
    let season : max 1 (min 99 s) ≡ s = omega arith in
    let episode : max 0 (min 99 e) ≡ e = omega arith in
    rw (season, episode, literal-render (show s), literal-render (show e)) refl

alts-render :
    (r : Regex) (rs : List Regex) → render (alts (r ∷ rs)) ≡ join (codes "|") (map render (r ∷ rs))
unfolding render
alts-render r [] = refl
alts-render r (s ∷ rs) = ap (λ t. render r ++ (b'|' ∷ t)) (alts-render s rs)

below_trees-render :
    (s e n : ℕ) → 1 ≤ s → s ≤ 99 → e + n ≤ 100 → map render (below_trees s e n) ≡ below_from s e n
unfolding below_trees below_from
below_trees-render s e zero l m h = refl
below_trees-render s e (suc n) l m h =
    ap₂ (λ t ts. t ∷ ts) (below-render s e l m (omega arith))
      (below_trees-render s (suc e) n l m (omega arith))

group-render :
    (r : Regex) (rs : List Regex)
    → render (group (alts (r ∷ rs))) ≡ any_of_or_nothing (map render (r ∷ rs))
unfolding render
group-render r rs = ap (λ t. codes "(?:" ++ (t ++ codes ")")) (alts-render r rs)

below_group-render :
    (s c : ℕ)
    → 1 ≤ s
    → s ≤ 99
    → 1 ≤ c
    → c ≤ 99
    → render (group (alts (below_trees s 0 c))) ≡ any_of_or_nothing (below_from s 0 c)
unfolding below_trees
below_group-render s zero l m k h = ground (arith, k)
below_group-render s (suc c) l m k h =
    group-render (below_tree s 0) (below_trees s 1 c)
    ∙ ap any_of_or_nothing (below_trees-render s 0 (suc c) l m (omega arith))

-- With an earlier episode in the season, the tree is written as the code writes it.
pub lower-render :
    (s e : ℕ)
    → 1 ≤ e
    → render (lower_tree s e) ≡ build_lower_episode_exclusion_fragment (some s) (some e)
unfolding lower_tree build_lower_episode_exclusion_fragment bounded
lower-render s e h =
    below_group-render (bounded false s) (bounded true e) (omega arith) (omega arith) (omega arith)
      (omega arith)

existing_trees-render :
    (episodes : List (ℕ × ℕ))
    → map render (map (λ (s, e). standalone_tree (bounded true s) (bounded true e)) episodes)
      ≡ map (λ (s, e). build_standalone_episode_fragment s e) episodes
existing_trees-render [] = refl
existing_trees-render ((s, e) ∷ episodes) =
    ap₂ (λ t ts. t ∷ ts) (standalone-render s e) (existing_trees-render episodes)

module _ ⦃u : Unicode⦄ where
  -- Where the keys name an episode, the tree is written as the code writes it.
  pub existing-render :
      (keys : List Text) (e : Episode) (es : List Episode)
      → key_tuples (normalize_watch_state_episode_keys keys) ≡ e ∷ es
      → render (existing_tree (e ∷ es)) ≡ build_existing_episode_exclusion_fragment keys
  unfolding existing_tree build_existing_episode_exclusion_fragment
  existing-render keys (s, e) es h = rw h (
      group-render (standalone_tree (bounded true s) (bounded true e))
        (map (λ (s, e). standalone_tree (bounded true s) (bounded true e)) es)
      ∙ ap any_of_or_nothing (existing_trees-render ((s, e) ∷ es)))
