-- ===== src/RuleBuilder/Numbers.antt =====
-- Patterns for the numbers from a bound on (app/services/rule_builder.py), as the code writes them
-- and as syntax trees.
pub mod Laws
pub mod Range
use q_bittorrent_rss_rules.Prelude.{
  ℕ, zero, suc, ◌+◌, ◌/◌, ◌%◌, min, max, Bool, true, false, List, [], ◌∷◌, ◌++◌, leb, ltb, ◌=?◌,
  if◌then◌else◌,
}
use q_bittorrent_rss_rules.Prelude.Text.{Text, codes, show}
use q_bittorrent_rss_rules.RuleBuilder.Regex.{
  Class, lit, digit, from_to, Regex, char, many, one_or_two, seq, alt, group, cat, literal, alts,
}

-- The pieces of an f-string, one after the other.
abbrev pub concat : List Text → Text
concat [] = []
concat (s ∷ []) = s
concat (s ∷ t ∷ ts) = s ++ concat (t ∷ ts)

-- `sep.join(parts)`
abbrev pub join : Text → List Text → Text
join sep [] = []
join sep (p ∷ []) = p
join sep (p ∷ q ∷ ps) = p ++ (sep ++ join sep (q ∷ ps))

-- `_bounded_season_number` and `_bounded_episode_number`, on numbers that are not negative.
unfoldable pub bounded : Bool → ℕ → ℕ
bounded allow_zero value = max (if allow_zero then 0 else 1) (min 99 value)

-- `parts[0]` or `(?:…|…)`
abbrev pub one_or_group : List Text → Text
one_or_group (p ∷ []) = p
one_or_group ps = concat (codes "(?:" ∷ join (codes "|") ps ∷ codes ")" ∷ [])

-- The first part: the numbers from the bound to the end of its ten.
unfoldable pub same_tens : ℕ → ℕ → Text
unfolding show
same_tens tens ones =
    if ones =? 0
    then concat (codes "0*" ∷ show tens ∷ codes "\\d" ∷ [])
    else if ones =? 9
    then concat (codes "0*" ∷ show tens ∷ codes "9" ∷ [])
    else concat (codes "0*" ∷ show tens ∷ codes "[" ∷ show ones ∷ codes "-9]" ∷ [])

-- The second part, if there is a later ten.
unfoldable pub later_tens : ℕ → List Text
unfolding show
later_tens tens =
    if ltb tens 9 then concat (codes "0*[" ∷ show (tens + 1) ∷ codes "-9]\\d" ∷ []) ∷ [] else []

-- The pattern for a bound from 1 to 99.
unfoldable pub numeric_pattern : ℕ → Text
unfolding same_tens later_tens show
numeric_pattern bounded_value =
    if bounded_value =? 99
    then codes "0*99"
    else if leb bounded_value 9
    then concat (codes "(?:0*[" ∷ show bounded_value ∷ codes "-9]|0*[1-9]\\d)" ∷ [])
    else one_or_group
        (same_tens (bounded_value / 10) (bounded_value % 10) ∷ later_tens (bounded_value / 10))

unfoldable pub build_min_numeric_pattern_1_to_99 : ℕ → Text
unfolding numeric_pattern
build_min_numeric_pattern_1_to_99 value = numeric_pattern (max 1 (min 99 value))

unfoldable pub build_min_numeric_pattern_0_to_99 : ℕ → Text
unfolding bounded build_min_numeric_pattern_1_to_99
build_min_numeric_pattern_0_to_99 value =
    let bounded_value = bounded true value in
    if leb bounded_value 0
    then codes "0*\\d{1,2}"
    else build_min_numeric_pattern_1_to_99 bounded_value

-- `0*`, and the digits from `d` to 9.
abbrev pub zeros : Regex
zeros = many (lit b'0')

abbrev pub from_digit : ℕ → Regex
from_digit d = char (from_to (b'0' + d) b'9')

abbrev pub digit_is : ℕ → Regex
digit_is d = char (lit (b'0' + d))

-- The last digit of the first part.
abbrev pub last_class : ℕ → Class
last_class ones =
    if ones =? 0 then digit else if ones =? 9 then lit b'9' else from_to (b'0' + ones) b'9'

abbrev pub tens_regex : ℕ → ℕ → Regex
tens_regex tens ones =
    let same = cat (zeros ∷ digit_is tens ∷ char (last_class ones) ∷ []) in
    if ltb tens 9
    then group (alt same (cat (zeros ∷ from_digit (tens + 1) ∷ char digit ∷ [])))
    else same

-- The syntax tree of `numeric_pattern`.
unfoldable pub number_regex : ℕ → Regex
number_regex n =
    if n =? 99
    then cat (zeros ∷ digit_is 9 ∷ digit_is 9 ∷ [])
    else if leb n 9
    then group
        (alt (cat (zeros ∷ from_digit n ∷ [])) (cat (zeros ∷ from_digit 1 ∷ char digit ∷ [])))
    else tens_regex (n / 10) (n % 10)

unfoldable pub min_1_to_99 : ℕ → Regex
unfolding number_regex
min_1_to_99 value = number_regex (max 1 (min 99 value))

unfoldable pub min_0_to_99 : ℕ → Regex
unfolding bounded min_1_to_99
min_0_to_99 value =
    let n = bounded true value in
    if leb n 0 then cat (zeros ∷ one_or_two digit ∷ []) else min_1_to_99 n
