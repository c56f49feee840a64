-- ===== src/RuleBuilder/Pattern/Search.antt =====
-- Where the expression of a rule is found (app/services/rule_builder.py).
use q_bittorrent_rss_rules.Prelude.{
  ℕ, ◌≡◌, refl, sym, ap, ap₂, ◌∙◌, Bool, true, false, ◌&&◌, ◌||◌, not, Option, none, some, List, [],
  ◌∷◌, ◌++◌, map, append-nil, if◌then◌else◌, arith, ◌=?◌, is_empty, any, all, All, keep_if,
}
use q_bittorrent_rss_rules.Prelude.Text.{Text, codes}
use q_bittorrent_rss_rules.Prelude.Unicode.{Unicode}
use q_bittorrent_rss_rules.RuleBuilder.Regex.{
  Regex, not_ahead, matches, match_many, in_class, done, searches, search_from, render,
  render_class,
}
use q_bittorrent_rss_rules.RuleBuilder.Pattern.{
  in_sequence, anywhere, pattern_tree, holds_from, holds_somewhere, lookaheads, exclusion,
  pattern_text, PatternRule, Quality, positive_fragments, existing_exclusion_of,
  has_generated_regex_conditions, build_generated_pattern,
}
use q_bittorrent_rss_rules.RuleBuilder.Pattern.Brackets.{
  IsWritten, IsFragment, is_bracketed, tree-IsBracketed, All-IsWritten,
}
use q_bittorrent_rss_rules.RuleBuilder.Includes.{looks_like_full_must_contain_override}
use q_bittorrent_rss_rules.RuleBuilder.Episodes.{build_lower_episode_exclusion_fragment}

-- One line.
abbrev pub IsLine : Text → Type 0
IsLine = All (λ c. (c =? 10) ≡ false)

not_either : (a b : Bool) → (not a && not b) ≡ not (a || b)
not_either true b = refl
not_either false b = refl

both_all : (a b c : Bool) → (a && (b && c)) ≡ ((a && b) && c)
both_all true b c = refl
both_all false b c = refl

generated :
    (full regex conditions : Bool) (a b c : Text)
    → full ≡ false
    → (regex || conditions) ≡ true
    → (if full then a else if not regex && not conditions then b else c) ≡ c
generated full regex conditions a b c f h = ground (arith, f, h)

-- The text of a fragment that may be missing, and the fragments that are there.
abbrev pub text_of : Option Regex → Text
text_of none = []
text_of (some r) = render r

abbrev pub present : List (Option Regex) → List Regex
present [] = []
present (none ∷ rs) = present rs
present (some r ∷ rs) = r ∷ present rs

-- The exclusions, one after the other.
abbrev exclusions : List Text → Text
exclusions [] = []
exclusions (f ∷ fs) = exclusion f ++ exclusions fs

negatives-render :
    (negatives : List Regex)
    → All IsWritten negatives
    → exclusions (map render negatives)
      ≡ render (in_sequence (map (λ r. not_ahead (anywhere r)) negatives))
unfolding render render_class exclusion
negatives-render [] n = refl
negatives-render (r ∷ rs) (w, n) = rw (w, negatives-render rs n) refl

-- A closing bracket behind a text, with what follows.
behind : (x a b c : Text) → a ++ b ≡ c → (x ++ (b')' ∷ a)) ++ b ≡ (x ++ b')' ∷ []) ++ c
behind [] a b c h = ap (λ t. b')' ∷ t) h
behind (y ∷ x) a b c h = ap (λ t. y ∷ t) (behind x a b c h)

pattern-render :
    (positives negatives : List Regex)
    → All IsWritten positives
    → All IsWritten negatives
    → lookaheads (map render positives) ++ exclusions (map render negatives)
      ≡ render (pattern_tree positives negatives)
unfolding lookaheads render render_class pattern_tree
pattern-render [] ns p n = negatives-render ns n
pattern-render (r ∷ rs) ns (w, p) n = rw w (
    ap (λ t. b'(' ∷ b'?' ∷ b'=' ∷ b'.' ∷ b'*' ∷ t)
      (behind (render r) _ _ _ (pattern-render rs ns p n)))

module _ ⦃u : Unicode⦄ where
  -- `.*r` at a place is a search from it on.
  anywhere-search :
      (r : Regex) (prev : Option ℕ) (s : Text)
      → IsLine s
      → matches (anywhere r) done prev s ≡ search_from r prev s
  unfolding matches match_many search_from in_class
  anywhere-search r prev [] l = refl
  anywhere-search r prev (c ∷ s) (n, l) = ground (arith, n, anywhere-search r (some c) s l)

  negatives_at :
      (negatives : List Regex) (prev : Option ℕ) (s : Text)
      → IsLine s
      → matches (in_sequence (map (λ r. not_ahead (anywhere r)) negatives)) done prev s
        ≡ not (any (λ r. search_from r prev s) negatives)
  unfolding matches
  negatives_at [] prev s l = refl
  negatives_at (r ∷ rs) prev s l =
      ap₂ (λ b c. not b && c) (anywhere-search r prev s l) (negatives_at rs prev s l)
      ∙ not_either (search_from r prev s) (any (λ r. search_from r prev s) rs)

  pattern_at :
      (positives negatives : List Regex) (prev : Option ℕ) (s : Text)
      → IsLine s
      → matches (pattern_tree positives negatives) done prev s
        ≡ holds_from positives negatives prev s
  unfolding matches pattern_tree
  pattern_at [] negatives prev s l = negatives_at negatives prev s l
  pattern_at (r ∷ rs) negatives prev s l =
      ap₂ ◌&&◌ (anywhere-search r prev s l) (pattern_at rs negatives prev s l)
      ∙ both_all (search_from r prev s) (all (λ r. search_from r prev s) rs)
          (not (any (λ r. search_from r prev s) negatives))

  pattern_from :
      (positives negatives : List Regex) (prev : Option ℕ) (s : Text)
      → IsLine s
      → search_from (pattern_tree positives negatives) prev s
        ≡ holds_somewhere positives negatives prev s
  unfolding search_from
  pattern_from ps ns prev [] l = pattern_at ps ns prev [] l
  pattern_from ps ns prev (c ∷ s) (n, l) =
      ap₂ ◌||◌ (pattern_at ps ns prev (c ∷ s) (n, l)) (pattern_from ps ns (some c) s l)

  lookaheads-keep_if :
      (fs : List Text) → lookaheads (keep_if (λ f. not (is_empty f)) fs) ≡ lookaheads fs
  unfolding lookaheads
  lookaheads-keep_if [] = refl
  lookaheads-keep_if ([] ∷ fs) = lookaheads-keep_if fs
  lookaheads-keep_if ((c ∷ f) ∷ fs) =
      ap (λ t. codes "(?=.*" ++ ((c ∷ f) ++ (codes ")" ++ t))) (lookaheads-keep_if fs)

  exclusions-present :
      (o : Option Regex) (os : List (Option Regex))
      → exclusions (map render (present (o ∷ os)))
        ≡ exclusion (text_of o) ++ exclusions (map render (present os))
  unfolding exclusion
  exclusions-present none os = refl
  exclusions-present (some r) os = refl

  exclusions-last :
      (o : Option Regex) → exclusions (map render (present (o ∷ []))) ≡ exclusion (text_of o)
  unfolding exclusion
  exclusions-last none = refl
  exclusions-last (some r) = append-nil (exclusion (render r))

  exclusions-three :
      (q lo ex : Option Regex)
      → exclusions (map render (present (q ∷ lo ∷ ex ∷ [])))
        ≡ exclusion (text_of q) ++ (exclusion (text_of lo) ++ exclusion (text_of ex))
  exclusions-three q lo ex =
      exclusions-present q (lo ∷ ex ∷ [])
      ∙ ap (λ t. exclusion (text_of q) ++ t)
          (exclusions-present lo (ex ∷ [])
            ∙ ap (λ t. exclusion (text_of lo) ++ t) (exclusions-last ex))

  module _ (resolve_quality_filters : Quality) (rule : PatternRule) where
    pattern_text-render :
        (positives : List Regex) (quality lower existing : Option Regex)
        → keep_if (λ f. not (is_empty f)) (positive_fragments resolve_quality_filters rule)
          ≡ map render positives
        → All IsFragment positives
        → All IsFragment (present (quality ∷ lower ∷ existing ∷ []))
        → pattern_text
            (positive_fragments resolve_quality_filters rule)
            (text_of quality)
            (text_of lower)
            (text_of existing)
          ≡ codes "(?i)"
            ++ render (pattern_tree positives (present (quality ∷ lower ∷ existing ∷ [])))
    unfolding pattern_text
    pattern_text-render ps q lo ex e p n =
        let ns = present (q ∷ lo ∷ ex ∷ []) in
        ap (λ t. codes "(?i)" ++ t)
          (ap₂ ◌++◌
              (sym (lookaheads-keep_if (positive_fragments resolve_quality_filters rule))
                ∙ ap lookaheads e)
              (sym (exclusions-three q lo ex))
            ∙ pattern-render ps ns (All-IsWritten ps p) (All-IsWritten ns n))

    -- For a rule whose expression is generated, and whose fragments are written by trees that are not
    -- empty and may stand behind `.*` (an alternative is in brackets, a character stands for itself),
    -- the expression is `(?i)`, which stands for ignoring case, and the text of the tree that asks for
    -- the first and keeps the fragments of quality, of earlier and of existing episodes out; that text
    -- has no alternative outside brackets; and in a title of one line the tree is found exactly if
    -- there is some place in the title from which on every fragment that is asked for is found and none
    -- that is kept out.
    pub pattern_search :
        (positives : List Regex) (quality lower existing : Option Regex) (title : Text)
        → looks_like_full_must_contain_override rule.must_contain_override ≡ false
        → (rule.use_regex || has_generated_regex_conditions resolve_quality_filters rule) ≡ true
        → keep_if (λ f. not (is_empty f)) (positive_fragments resolve_quality_filters rule)
          ≡ map render positives
        → (resolve_quality_filters rule).1 ≡ text_of quality
        → build_lower_episode_exclusion_fragment rule.start_season rule.start_episode
          ≡ text_of lower
        → existing_exclusion_of resolve_quality_filters rule ≡ text_of existing
        → All IsFragment positives
        → All IsFragment (present (quality ∷ lower ∷ existing ∷ []))
        → IsLine title
        → (build_generated_pattern resolve_quality_filters rule
            ≡ codes "(?i)"
              ++ render (pattern_tree positives (present (quality ∷ lower ∷ existing ∷ []))))
          × (is_bracketed false (pattern_tree positives (present (quality ∷ lower ∷ existing ∷ [])))
              ≡ true)
          × (searches (pattern_tree positives (present (quality ∷ lower ∷ existing ∷ []))) title
              ≡ holds_somewhere positives (present (quality ∷ lower ∷ existing ∷ [])) none title)
    unfolding searches build_generated_pattern
    pattern_search ps q lo ex title full regex pos qo l x p n line = (
      generated (looks_like_full_must_contain_override rule.must_contain_override) rule.use_regex
            (has_generated_regex_conditions resolve_quality_filters rule) _ _ _ full regex
          ∙ ap
              (λ t.
                pattern_text (positive_fragments resolve_quality_filters rule) t
                  (build_lower_episode_exclusion_fragment rule.start_season rule.start_episode)
                  (existing_exclusion_of resolve_quality_filters rule))
              qo
          ∙ ap₂ (pattern_text (positive_fragments resolve_quality_filters rule) (text_of q)) l x
          ∙ pattern_text-render ps q lo ex pos p n,
      tree-IsBracketed ps (present (q ∷ lo ∷ ex ∷ [])) p n,
      pattern_from ps (present (q ∷ lo ∷ ex ∷ [])) none title line,
    )
