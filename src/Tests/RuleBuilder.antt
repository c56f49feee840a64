-- ===== src/Tests/RuleBuilder.antt =====
-- app/services/rule_builder.py on concrete floors and titles.
use q_bittorrent_rss_rules.Prelude.{
  ◌≡◌, refl, true, false, some, List, [], ◌∷◌, ◌++◌, arith, text_eq, contains, min, max, ltb, ◌=?◌,
  ◌&&◌,
}
use q_bittorrent_rss_rules.Prelude.Text.{Text, codes, is_space}
use q_bittorrent_rss_rules.WatchState.Keys.{format_episode_key, normalize_watch_state_episode_keys}
use q_bittorrent_rss_rules.SelectiveQueue.Plan.{episode_geb}
use q_bittorrent_rss_rules.RuleBuilder.Regex.{render, searches, full_match}
use q_bittorrent_rss_rules.RuleBuilder.Numbers.{
  bounded, build_min_numeric_pattern_1_to_99, min_1_to_99, min_0_to_99,
}
use q_bittorrent_rss_rules.RuleBuilder.Numbers.Laws.{digits, in_bounds, value_from}
use q_bittorrent_rss_rules.RuleBuilder.Numbers.Range.{min_1_to_99_lem}
use q_bittorrent_rss_rules.RuleBuilder.Episodes.{
  build_episode_progress_fragment, build_lower_episode_exclusion_fragment,
  build_existing_episode_exclusion_fragment, key_tuples,
}
use q_bittorrent_rss_rules.RuleBuilder.Trees.{progress_tree, lower_tree, existing_tree}
use q_bittorrent_rss_rules.RuleBuilder.Trees.Search.{HasNoS}
use q_bittorrent_rss_rules.RuleBuilder.Fragments.{
  progress_fragment_lem, lower_fragment_lem, existing_fragment_lem,
}
use q_bittorrent_rss_rules.Tests.Ascii.{ascii}

pattern_from_15 : build_min_numeric_pattern_1_to_99 15 ≡ codes "(?:0*1[5-9]|0*[2-9]\\d)"
unfolding build_min_numeric_pattern_1_to_99
pattern_from_15 = refl

pattern_from_99 : build_min_numeric_pattern_1_to_99 150 ≡ codes "0*99"
unfolding build_min_numeric_pattern_1_to_99
pattern_from_99 = refl

-- The range fragment reads the 10 of 1080p as the end of a range of episodes, so an episode before
-- the floor is accepted, and the exclusion of earlier episodes does not find it.
resolution_as_range_end : searches (progress_tree 1 5) (codes "Demo.S01E02-1080p") ≡ true
unfolding searches progress_tree min_1_to_99 min_0_to_99
resolution_as_range_end = refl

resolution_not_excluded : searches (lower_tree 1 5) (codes "Demo.S01E02-1080p") ≡ false
unfolding searches lower_tree
resolution_not_excluded = refl

earlier_episode : searches (progress_tree 1 5) (codes "Demo.S01E02.1080p") ≡ false
unfolding searches progress_tree min_1_to_99 min_0_to_99
earlier_episode = refl

complete_season : searches (progress_tree 2 5) (codes "Demo Season 2 Complete") ≡ true
unfolding searches progress_tree min_1_to_99 min_0_to_99
complete_season = refl

range_over_floor : searches (progress_tree 1 5) (codes "Demo S01E03-E06") ≡ true
unfolding searches progress_tree min_1_to_99 min_0_to_99
range_over_floor = refl

min_1_to_99_lem_example :
    (render (min_1_to_99 15) ≡ build_min_numeric_pattern_1_to_99 15)
    × (full_match (min_1_to_99 15) (digits (0 ∷ 2 ∷ 3 ∷ []))
        ≡ in_bounds (max 1 (min 99 15)) (value_from 0 (0 ∷ 2 ∷ 3 ∷ [])))
min_1_to_99_lem_example =
    min_1_to_99_lem 15 (0 ∷ 2 ∷ 3 ∷ []) (omega arith, (omega arith, (omega arith, tt)))

demo-HasNoS : HasNoS (codes "Demo ")
unfolding searches
demo-HasNoS = (refl, (refl, (refl, (refl, (refl, tt)))))

progress_fragment_lem_example :
    (build_episode_progress_fragment (some 1) (some 5) ≡ render (progress_tree 1 5))
    × (searches (progress_tree 1 5) (codes "Demo " ++ format_episode_key 2 3)
        ≡ episode_geb (2, 3) (bounded false 1, bounded true 5))
progress_fragment_lem_example =
    progress_fragment_lem 1 5 2 3 (codes "Demo ") (omega arith) (omega arith) demo-HasNoS

lower_fragment_lem_example :
    (build_lower_episode_exclusion_fragment (some 1) (some 5) ≡ render (lower_tree 1 5))
    × (searches (lower_tree 1 5) (codes "Demo " ++ format_episode_key 1 3)
        ≡ ((bounded false 1 =? 1) && ltb 3 (bounded true 5)))
    × ((searches (lower_tree 1 5) (codes "Demo " ++ format_episode_key 1 3)
          && searches (progress_tree 1 5) (codes "Demo " ++ format_episode_key 1 3))
        ≡ false)
lower_fragment_lem_example =
    lower_fragment_lem 1 5 1 3 (codes "Demo ") (omega arith) (omega arith) (omega arith) demo-HasNoS

abbrev existing_keys : List Text
existing_keys = codes "s1e2" ∷ codes "none" ∷ codes "S01E02" ∷ []

existing_keys_named : key_tuples (normalize_watch_state_episode_keys existing_keys) ≡ (1, 2) ∷ []
unfolding key_tuples normalize_watch_state_episode_keys is_space
existing_keys_named = refl

existing_fragment_lem_example :
    (build_existing_episode_exclusion_fragment existing_keys ≡ render (existing_tree ((1, 2) ∷ [])))
    × (searches (existing_tree ((1, 2) ∷ [])) (codes "Demo " ++ format_episode_key 1 2)
        ≡ contains (normalize_watch_state_episode_keys existing_keys) (format_episode_key 1 2))
existing_fragment_lem_example =
    existing_fragment_lem existing_keys (1, 2) [] 1 2 (codes "Demo ") existing_keys_named
      (omega arith) (omega arith) demo-HasNoS
