-- ===== src/RuleBuilder/Pattern/Title.antt =====
-- A rule without a regular expression is searched by its title (app/services/rule_builder.py).
use q_bittorrent_rss_rules.Prelude.{◌≡◌, inl, inr, true, false, arith, Bool-cases}
use q_bittorrent_rss_rules.Prelude.Unicode.{Unicode}
use q_bittorrent_rss_rules.RuleBuilder.Includes.{looks_like_full_must_contain_override}
use q_bittorrent_rss_rules.RuleBuilder.Pattern.{
  PatternRule, Quality, has_generated_regex_conditions, build_generated_pattern,
  effective_use_regex, resolved_title,
}

module _ ⦃u : Unicode⦄ (resolve_quality_filters : Quality) where
  full_has_conditions :
      (rule : PatternRule)
      → looks_like_full_must_contain_override rule.must_contain_override ≡ true
      → has_generated_regex_conditions resolve_quality_filters rule ≡ true
  unfolding has_generated_regex_conditions
  full_has_conditions rule h = ground (arith, h)

  -- Where the payload says that no regular expression is used, the text that has to be contained is
  -- the title of the rule.
  pub plain_pattern_lem :
      (rule : PatternRule)
      → effective_use_regex resolve_quality_filters rule ≡ false
      → build_generated_pattern resolve_quality_filters rule ≡ resolved_title rule
  unfolding effective_use_regex build_generated_pattern
  plain_pattern_lem rule h =
      elim (Bool-cases (looks_like_full_must_contain_override rule.must_contain_override)) [
        | inl e ↦ ground (arith, h, full_has_conditions rule e)
        | inr e ↦ ground (arith, h, e)
      ]
