-- ===== src/RuleBuilder/Pattern/Brackets.antt =====
-- Fragments that may stand in the expression of a rule (app/services/rule_builder.py), since their text
-- reads as their tree behind `.*`.
use q_bittorrent_rss_rules.Prelude.{
  ℕ, ◌≡◌, refl, Bool, true, false, ◌&&◌, not, List, [], ◌∷◌, map, ◌=?◌, is_empty, any, All,
}
use q_bittorrent_rss_rules.Prelude.Text.{codes}
use q_bittorrent_rss_rules.RuleBuilder.Regex.{
  Class, lit, from_to, Regex, char, many, many_lazy, one_or_two, at_least, empty, boundary,
  end_of_text, seq, alt, group, optional, ahead, not_ahead, render,
}
use q_bittorrent_rss_rules.RuleBuilder.Pattern.{in_sequence, anywhere, pattern_tree}

-- A fragment that is written with at least one character.
abbrev pub IsWritten : Regex → Type 0
IsWritten r = is_empty (render r) ≡ false

-- A character that stands for itself.
abbrev pub is_plain : ℕ → Bool
is_plain c = not (any (λ d. c =? d) (codes "\\^$*+?{}[]|()."))

abbrev pub is_plain_class : Class → Bool
is_plain_class (lit c) = is_plain c
is_plain_class (from_to a b) = is_plain a && not (a =? b'-') && (is_plain b && not (b =? b'-'))
is_plain_class _ = true

-- The written tree reads as the tree: its characters stand for themselves, and an alternative stands
-- in brackets, or by itself where the flag allows it.
abbrev pub is_bracketed : Bool → Regex → Bool
is_bracketed alone (char c) = is_plain_class c
is_bracketed alone (many c) = is_plain_class c
is_bracketed alone (many_lazy c) = is_plain_class c
is_bracketed alone (one_or_two c) = is_plain_class c
is_bracketed alone (at_least n c) = is_plain_class c
is_bracketed alone empty = true
is_bracketed alone boundary = true
is_bracketed alone end_of_text = true
is_bracketed alone (seq a b) = is_bracketed false a && is_bracketed false b
is_bracketed alone (alt a b) = alone && (is_bracketed true a && is_bracketed true b)
is_bracketed alone (group a) = is_bracketed true a
is_bracketed alone (optional a) = is_bracketed true a
is_bracketed alone (ahead a) = is_bracketed true a
is_bracketed alone (not_ahead a) = is_bracketed true a

-- A fragment that is not empty and may stand behind `.*`.
abbrev pub IsFragment : Regex → Type 0
IsFragment r = IsWritten r × (is_bracketed false r ≡ true)

negatives-IsBracketed :
    (negatives : List Regex)
    → All IsFragment negatives
    → is_bracketed false (in_sequence (map (λ r. not_ahead (anywhere r)) negatives)) ≡ true
negatives-IsBracketed [] n = refl
negatives-IsBracketed (r ∷ rs) ((w, b), n) = rw b (negatives-IsBracketed rs n)

pub tree-IsBracketed :
    (positives negatives : List Regex)
    → All IsFragment positives
    → All IsFragment negatives
    → is_bracketed false (pattern_tree positives negatives) ≡ true
unfolding pattern_tree
tree-IsBracketed [] ns p n = negatives-IsBracketed ns n
tree-IsBracketed (r ∷ rs) ns ((w, b), p) n = rw b (tree-IsBracketed rs ns p n)

pub All-IsWritten : (rs : List Regex) → All IsFragment rs → All IsWritten rs
All-IsWritten [] h = tt
All-IsWritten (r ∷ rs) ((w, b), h) = (w, All-IsWritten rs h)
