-- ===== src/Tests/Pattern.antt =====
-- The expression of a rule of app/services/rule_builder.py on concrete rules and titles.
use q_bittorrent_rss_rules.Prelude.{
  is_empty, ◌≡◌, refl, Bool, true, false, Option, none, some, List, [], ◌∷◌, ◌++◌, text_eq, All,
  map, not, ◌||◌, keep_if,
}
use q_bittorrent_rss_rules.Prelude.Text.{Text, codes, is_space}
use q_bittorrent_rss_rules.RuleBuilder.Regex.{Regex, literal, searches, render, render_class}
use q_bittorrent_rss_rules.RuleBuilder.Episodes.{
  build_episode_progress_fragment, build_lower_episode_exclusion_fragment,
}
use q_bittorrent_rss_rules.RuleBuilder.Includes.{
  parse_additional_include_groups, build_keyword_group_fragments, normalize_release_year,
  looks_like_full_must_contain_override, words, build_manual_must_contain_fragments,
}
use q_bittorrent_rss_rules.RuleBuilder.Pattern.{
  PatternRule, Quality, build_generated_pattern, effective_use_regex, resolved_title, pattern_tree,
  holds_somewhere, positive_fragments, has_generated_regex_conditions, existing_exclusion_of,
}
use q_bittorrent_rss_rules.RuleBuilder.Pattern.Brackets.{IsFragment, is_bracketed}
use q_bittorrent_rss_rules.RuleBuilder.Pattern.Search.{text_of, present, pattern_search}
use q_bittorrent_rss_rules.RuleBuilder.Trees.{progress_tree, lower_tree}
use q_bittorrent_rss_rules.RuleBuilder.Numbers.{min_1_to_99, min_0_to_99, bounded}
use q_bittorrent_rss_rules.RuleBuilder.Pattern.Title.{plain_pattern_lem}
use q_bittorrent_rss_rules.Tests.Ascii.{ascii}

groups_with_alternatives :
    parse_additional_include_groups (codes "aaa, bbb|ccc|BBB; AAA\n ddd | eee")
    ≡ (codes "aaa" ∷ []) ∷ (codes "bbb" ∷ codes "ccc" ∷ []) ∷ (codes "ddd" ∷ codes "eee" ∷ []) ∷ []
unfolding parse_additional_include_groups is_space text_eq
groups_with_alternatives = refl

keyword_fragments :
    build_keyword_group_fragments ((codes "aaa" ∷ []) ∷ (codes "bbb" ∷ codes "ccc" ∷ []) ∷ [])
    ≡ codes "aaa" ∷ codes "(?:bbb|ccc)" ∷ []
unfolding build_keyword_group_fragments is_space words
keyword_fragments = refl

year_in_text : normalize_release_year (codes " (2024) ") ≡ codes "2024"
unfolding normalize_release_year is_space
year_in_text = refl

abbrev no_quality : Quality
no_quality rule = ([], [])

abbrev titled : Bool → Text → PatternRule
titled use_regex override = record {
  normalized_title = codes " ";
  content_name = codes "A Man on the Inside";
  rule_name = codes "rule";
  use_regex = use_regex;
  release_year = [];
  include_release_year = false;
  additional_includes = [];
  must_contain_override = override;
  start_season = none;
  start_episode = none;
  jellyfin_search_existing_unseen = false;
  jellyfin_existing_episode_numbers = [];
}

title_pattern :
    build_generated_pattern no_quality (titled true [])
    ≡ codes "(?i)(?=.*a[\\s._-]*man[\\s._-]*on[\\s._-]*the[\\s._-]*inside)"
unfolding build_generated_pattern is_space looks_like_full_must_contain_override words
    build_keyword_group_fragments parse_additional_include_groups build_episode_progress_fragment
    build_manual_must_contain_fragments build_lower_episode_exclusion_fragment
title_pattern = refl

full_override :
    build_generated_pattern no_quality (titled false (codes " (?i)(?=.*dune)(?!.*cam) "))
    ≡ codes "(?i)(?=.*dune)(?!.*cam)"
unfolding build_generated_pattern is_space looks_like_full_must_contain_override
full_override = refl

-- The excluded word stands before the title, and the expression is found behind its first letter.
excluded_word_in_front :
    searches
      (pattern_tree (literal (codes "demo") ∷ []) (literal (codes "cam") ∷ []))
      (codes "CAM Demo S01E01")
    ≡ true
unfolding searches pattern_tree
excluded_word_in_front = refl

excluded_word_behind :
    searches
      (pattern_tree (literal (codes "demo") ∷ []) (literal (codes "cam") ∷ []))
      (codes "Demo S01E01 CAM")
    ≡ false
unfolding searches pattern_tree
excluded_word_behind = refl

abbrev no_cam : Quality
no_cam rule = ([], codes "cam")

-- A rule with the floor S01E05.
abbrev floored : PatternRule
floored = record (titled false []) {
  content_name = codes "Demo";
  start_season = some 1;
  start_episode = some 5;
}

abbrev asked : List Regex
asked = literal (codes "demo") ∷ progress_tree 1 5 ∷ []

abbrev cam : Option Regex
cam = some (literal (codes "cam"))

abbrev earlier : Option Regex
earlier = some (lower_tree 1 5)

not_full : looks_like_full_must_contain_override floored.must_contain_override ≡ false
unfolding looks_like_full_must_contain_override is_space
not_full = refl

with_conditions : (floored.use_regex || has_generated_regex_conditions no_cam floored) ≡ true
unfolding has_generated_regex_conditions is_space parse_additional_include_groups
    build_episode_progress_fragment looks_like_full_must_contain_override
with_conditions = refl

asked_written :
    keep_if (λ f. not (is_empty f)) (positive_fragments no_cam floored) ≡ map render asked
unfolding positive_fragments is_space words parse_additional_include_groups
    build_keyword_group_fragments build_episode_progress_fragment
    build_manual_must_contain_fragments render render_class progress_tree min_1_to_99 min_0_to_99
    bounded
asked_written = refl

cam_written : (no_cam floored).1 ≡ text_of cam
unfolding render render_class
cam_written = refl

earlier_written : build_lower_episode_exclusion_fragment (some 1) (some 5) ≡ text_of earlier
unfolding build_lower_episode_exclusion_fragment render render_class lower_tree
earlier_written = refl

none_existing : existing_exclusion_of no_cam floored ≡ []
unfolding existing_exclusion_of
none_existing = refl

asked-IsFragment : All IsFragment asked
unfolding render render_class progress_tree min_1_to_99 min_0_to_99
asked-IsFragment = ((refl, refl), ((refl, refl), tt))

out-IsFragment : All IsFragment (present (cam ∷ earlier ∷ none ∷ []))
unfolding render render_class lower_tree
out-IsFragment = ((refl, refl), ((refl, refl), tt))

abbrev floored_tree : Regex
floored_tree = pattern_tree asked (present (cam ∷ earlier ∷ none ∷ []))

pattern_search_example :
    (build_generated_pattern no_cam floored ≡ codes "(?i)" ++ render floored_tree)
    × (is_bracketed false floored_tree ≡ true)
    × (searches floored_tree (codes "CAM Demo")
        ≡ holds_somewhere asked (present (cam ∷ earlier ∷ none ∷ [])) none (codes "CAM Demo"))
pattern_search_example =
    pattern_search no_cam floored asked cam earlier none (codes "CAM Demo") not_full with_conditions
      asked_written cam_written earlier_written none_existing asked-IsFragment out-IsFragment
      (refl, (refl, (refl, (refl, (refl, (refl, (refl, (refl, tt))))))))

plain_rule : effective_use_regex no_quality (titled false []) ≡ false
unfolding effective_use_regex is_space looks_like_full_must_contain_override
    parse_additional_include_groups build_episode_progress_fragment
    build_manual_must_contain_fragments
plain_rule = refl

plain_pattern_lem_example :
    build_generated_pattern no_quality (titled false []) ≡ resolved_title (titled false [])
plain_pattern_lem_example = plain_pattern_lem no_quality (titled false []) plain_rule
