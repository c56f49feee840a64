-- ===== src/RuleBuilder/Pattern.antt =====
-- The expression that a rule hands to qBittorrent (app/services/rule_builder.py), as the code writes it
-- and as a syntax tree. The filters by quality, app/services/quality_filters.py, are a parameter.
pub mod Brackets
pub mod Search
pub mod Title
use q_bittorrent_rss_rules.Prelude.{
  ℕ, Bool, true, false, ◌&&◌, ◌||◌, not, Option, none, some, List, [], ◌∷◌, ◌++◌, map,
  if◌then◌else◌, is_empty, any, all, keep_if,
}
use q_bittorrent_rss_rules.Prelude.Text.{Text, codes, strip}
use q_bittorrent_rss_rules.Prelude.Unicode.{Unicode}
use q_bittorrent_rss_rules.RuleBuilder.Regex.{
  Regex, any_char, many_lazy, many, empty, seq, ahead, not_ahead, searches, search_from, render,
}
use q_bittorrent_rss_rules.RuleBuilder.Episodes.{
  build_episode_progress_fragment, build_lower_episode_exclusion_fragment,
  build_existing_episode_exclusion_fragment,
}
use q_bittorrent_rss_rules.RuleBuilder.Includes.{
  build_title_regex_fragment, build_keyword_group_fragments, parse_additional_include_groups,
  build_manual_must_contain_fragments, looks_like_full_must_contain_override, escape,
  normalize_release_year,
}
use q_bittorrent_rss_rules.WatchState.Keys.{normalize_watch_state_episode_keys}

-- The fields of a rule that the expression depends on; a text that is missing is empty.
pub record PatternRule : Type 0 where
  pub normalized_title : Text
  pub content_name : Text
  pub rule_name : Text
  pub use_regex : Bool
  pub release_year : Text
  pub include_release_year : Bool
  pub additional_includes : Text
  pub must_contain_override : Text
  pub start_season : Option ℕ
  pub start_episode : Option ℕ
  pub jellyfin_search_existing_unseen : Bool
  pub jellyfin_existing_episode_numbers : List Text

-- `(?=.*fragment)` for the fragments that are there.
unfoldable pub lookaheads : List Text → Text
lookaheads [] = []
lookaheads (f ∷ fragments) =
    let rest = lookaheads fragments in
    if is_empty f then rest else codes "(?=.*" ++ (f ++ (codes ")" ++ rest))

-- `(?!.*fragment)` if the fragment is there.
unfoldable pub exclusion : Text → Text
exclusion f = if is_empty f then [] else codes "(?!.*" ++ (f ++ codes ")")

unfoldable pub pattern_text : List Text → Text → Text → Text → Text
unfolding lookaheads exclusion
pattern_text positive_fragments quality_exclude lower_episode_exclusion existing_exclusion =
    codes "(?i)"
    ++ (lookaheads positive_fragments
        ++ (exclusion quality_exclude
            ++ (exclusion lower_episode_exclusion ++ exclusion existing_exclusion)))

unfoldable pub resolved_title : PatternRule → Text
unfolding strip
resolved_title rule =
    if not (is_empty (strip rule.normalized_title))
    then strip rule.normalized_title
    else if not (is_empty (strip rule.content_name))
    then strip rule.content_name
    else strip rule.rule_name

-- The fragments that the quality filters ask for, and the one that they keep out.
abbrev pub Quality : Type 0
Quality = PatternRule → List Text × Text

module _ ⦃u : Unicode⦄ (resolve_quality_filters : Quality) where
  unfoldable pub existing_exclusion_of : PatternRule → Text
  unfolding build_existing_episode_exclusion_fragment normalize_watch_state_episode_keys
  existing_exclusion_of rule =
      if not rule.jellyfin_search_existing_unseen
      then build_existing_episode_exclusion_fragment
          (normalize_watch_state_episode_keys rule.jellyfin_existing_episode_numbers)
      else []

  unfoldable pub has_generated_regex_conditions : PatternRule → Bool
  unfolding looks_like_full_must_contain_override normalize_release_year existing_exclusion_of
  has_generated_regex_conditions rule =
      let (quality_include_fragments, quality_exclude) = resolve_quality_filters rule in
      if looks_like_full_must_contain_override rule.must_contain_override
      then true
      else rule.include_release_year && not (is_empty (normalize_release_year rule.release_year))
        || not (is_empty (parse_additional_include_groups rule.additional_includes))
        || not (is_empty (build_episode_progress_fragment rule.start_season rule.start_episode))
        || not (is_empty quality_include_fragments)
        || not (is_empty quality_exclude)
        || not (is_empty (build_manual_must_contain_fragments rule.must_contain_override))
        || not (is_empty (existing_exclusion_of rule))

  -- The fragments in the order in which they are written.
  unfoldable pub positive_fragments : PatternRule → List Text
  unfolding build_title_regex_fragment resolved_title normalize_release_year escape
  positive_fragments rule =
      let release_year = normalize_release_year rule.release_year in
      let (quality_include_fragments, quality_exclude) = resolve_quality_filters rule in
      build_title_regex_fragment (resolved_title rule)
      ∷ ((if rule.include_release_year && not (is_empty release_year)
            then escape release_year ∷ []
            else [])
          ++ (build_keyword_group_fragments
                (parse_additional_include_groups rule.additional_includes)
              ++ ((if is_empty
                      (build_episode_progress_fragment rule.start_season rule.start_episode)
                    then []
                    else build_episode_progress_fragment rule.start_season rule.start_episode ∷ [])
                  ++ (quality_include_fragments
                      ++ build_manual_must_contain_fragments rule.must_contain_override))))

  unfoldable pub build_generated_pattern : PatternRule → Text
  unfolding positive_fragments pattern_text has_generated_regex_conditions strip
      existing_exclusion_of
  build_generated_pattern rule =
      if looks_like_full_must_contain_override rule.must_contain_override
      then strip rule.must_contain_override
      else if not rule.use_regex && not (has_generated_regex_conditions rule)
      then resolved_title rule
      else pattern_text (positive_fragments rule) (resolve_quality_filters rule).1
          (build_lower_episode_exclusion_fragment rule.start_season rule.start_episode)
          (existing_exclusion_of rule)

  -- `effective_use_regex` of `build_qb_rule`
  unfoldable pub effective_use_regex : PatternRule → Bool
  unfolding has_generated_regex_conditions strip
  effective_use_regex rule =
      rule.use_regex
      || not (is_empty (strip rule.must_contain_override))
      || has_generated_regex_conditions rule

-- The tree of an expression that asks for some fragments and keeps others out. Its `(?i)` is that the
-- matcher ignores case; its text is read as this tree if the alternatives of the fragments stand in
-- brackets.
abbrev in_sequence : List Regex → Regex
in_sequence [] = empty
in_sequence (r ∷ rs) = seq r (in_sequence rs)

abbrev pub anywhere : Regex → Regex
anywhere r = seq (many any_char) r

unfoldable pub pattern_tree : List Regex → List Regex → Regex
pattern_tree positives negatives =
    in_sequence
      (map (λ r. ahead (anywhere r)) positives ++ map (λ r. not_ahead (anywhere r)) negatives)

module _ ⦃u : Unicode⦄ where
  -- All of the first are found from a place on, and none of the second.
  abbrev pub holds_from : List Regex → List Regex → Option ℕ → Text → Bool
  holds_from positives negatives prev s =
      all (λ r. search_from r prev s) positives && not (any (λ r. search_from r prev s) negatives)

  -- That is so from some place on.
  abbrev pub holds_somewhere : List Regex → List Regex → Option ℕ → Text → Bool
  holds_somewhere positives negatives prev [] = holds_from positives negatives prev []
  holds_somewhere positives negatives prev (c ∷ s) =
      let later = holds_somewhere positives negatives (some c) s in
      holds_from positives negatives prev (c ∷ s) || later
