-- ===== src/RuleBuilder/Includes.antt =====
-- Titles, years, keywords and manual additions as fragments (app/services/rule_builder.py).
use q_bittorrent_rss_rules.Prelude.{
  ℕ, Bool, false, ◌||◌, not, Option, none, some, List, [], ◌∷◌, ◌++◌, map, ◌=?◌, if◌then◌else◌,
  contains, text_eq, any, is_empty, keep_if,
}
use q_bittorrent_rss_rules.Prelude.Text.{Text, codes, strip, starts_with, has_substring}
use q_bittorrent_rss_rules.Prelude.Unicode.{Unicode}
use q_bittorrent_rss_rules.RuleBuilder.Regex.{Regex, digit, char, boundary, cat, matches, done}
use q_bittorrent_rss_rules.RuleBuilder.Numbers.{join}
use q_bittorrent_rss_rules.RuleBuilder.Episodes.{any_of, separators_text}

-- `pattern.split`: the field that was begun comes first. Blank fields are dropped later, so that a run
-- of separators may be split at each of them.
unfoldable pub split_on : (ℕ → Bool) → Text → Text × List Text
split_on p [] = ([], [])
split_on p (c ∷ s) =
    let (field, fields) = split_on p s in if p c then ([], field ∷ fields) else (c ∷ field, fields)

abbrev pub fields : (ℕ → Bool) → Text → List Text
fields p s = (split_on p s).0 ∷ (split_on p s).1

-- The characters between two fields of the extra keywords.
abbrev pub is_include_separator : ℕ → Bool
is_include_separator c = c =? 10 || c =? b',' || c =? b';'

-- What `re.escape` puts a backslash before.
unfoldable pub is_special : ℕ → Bool
is_special c = any (λ d. c =? d) (codes "()[]{}?*+-|^$\\.&~# \t\n\r" ++ 11 ∷ 12 ∷ [])

unfoldable pub escape : Text → Text
unfolding is_special
escape [] = []
escape (c ∷ s) = if is_special c then b'\\' ∷ c ∷ escape s else c ∷ escape s

-- `REGEX_META_RE`
abbrev pub is_meta : ℕ → Bool
is_meta c = any (λ d. c =? d) (codes "\\.^$*+?{}[]|()")

-- `\b(\d{4})\b`
abbrev year_token : Regex
year_token = cat (boundary ∷ char digit ∷ char digit ∷ char digit ∷ char digit ∷ boundary ∷ [])

abbrev first_four : Text → Text
first_four (a ∷ b ∷ c ∷ d ∷ s) = a ∷ b ∷ c ∷ d ∷ []
first_four s = s

module _ ⦃u : Unicode⦄ where
  -- The stripped candidates that are there, once for each folded spelling.
  unfoldable pub distinct : List Text → List Text → List Text
  unfolding strip text_eq
  distinct seen [] = []
  distinct seen (part ∷ parts) =
      let candidate = strip part in
      let key = u.casefold candidate in
      let skip = distinct seen parts in
      let take = candidate ∷ distinct (key ∷ seen) parts in
      if is_empty candidate then skip else if contains seen key then skip else take

  unfoldable pub parse_additional_includes : Text → List Text
  unfolding distinct split_on strip
  parse_additional_includes value =
      if is_empty (strip value) then [] else distinct [] (fields is_include_separator value)

  abbrev group_key : List Text → Text
  group_key alternatives = join (codes "||") (map (λ o. u.casefold o) alternatives)

  -- The groups that are there, once for each folded spelling.
  unfoldable pub distinct_groups : List Text → List Text → List (List Text)
  unfolding distinct split_on strip text_eq
  distinct_groups seen_groups [] = []
  distinct_groups seen_groups (part ∷ parts) =
      let candidate = strip part in
      let alternatives = distinct [] (fields (λ c. c =? b'|') candidate) in
      let key = group_key alternatives in
      let skip = distinct_groups seen_groups parts in
      let take = alternatives ∷ distinct_groups (key ∷ seen_groups) parts in
      if is_empty candidate
      then skip
      else if is_empty alternatives
      then skip
      else if contains seen_groups key
      then skip
      else take

  unfoldable pub parse_additional_include_groups : Text → List (List Text)
  unfolding distinct_groups split_on strip
  parse_additional_include_groups value =
      if is_empty (strip value) then [] else distinct_groups [] (fields is_include_separator value)

  abbrev full_must_contain_override_prefixes : List Text
  full_must_contain_override_prefixes =
      codes "(?i"
      ∷ codes "(?m"
      ∷ codes "(?s"
      ∷ codes "(?x"
      ∷ codes "(?-"
      ∷ codes "(?="
      ∷ codes "(?!"
      ∷ codes "(?<="
      ∷ codes "(?<!"
      ∷ codes "(?P"
      ∷ []

  -- No override is the empty text.
  unfoldable pub looks_like_full_must_contain_override : Text → Bool
  unfolding strip starts_with has_substring
  looks_like_full_must_contain_override value =
      let candidate = strip value in
      if is_empty candidate
      then false
      else any (λ p. starts_with candidate p) full_must_contain_override_prefixes
        || any (λ token. has_substring token candidate)
            (codes "(?=" ∷ codes "(?!" ∷ codes "(?<=" ∷ codes "(?<!" ∷ [])

  -- The carriage return before a line break is white space, which `strip` takes away.
  unfoldable pub parse_manual_must_contain_additions : Text → List Text
  unfolding distinct split_on strip
  parse_manual_must_contain_additions value =
      if is_empty (strip value) then [] else distinct [] (fields (λ c. c =? 10) value)

  -- `TOKEN_RE.findall`: the word that was begun comes first.
  unfoldable pub words : Text → Text × List Text
  words [] = ([], [])
  words (c ∷ s) =
      let (word, rest) = words s in
      if u.is_word c then (c ∷ word, rest) else ([], if is_empty word then rest else word ∷ rest)

  abbrev pub find_words : Text → List Text
  find_words s = let (word, rest) = words s in if is_empty word then rest else word ∷ rest

  unfoldable pub build_title_regex_fragment : Text → Text
  unfolding words strip escape
  build_title_regex_fragment value =
      let tokens = find_words (u.casefold value) in
      if is_empty tokens then escape (strip (u.casefold value)) else join separators_text tokens

  unfoldable pub build_manual_must_contain_fragments : Text → List Text
  unfolding parse_manual_must_contain_additions build_title_regex_fragment
  build_manual_must_contain_fragments value =
      map
        (λ item.
          if any is_meta item
          then codes "(?:" ++ (item ++ codes ")")
          else build_title_regex_fragment item)
        (parse_manual_must_contain_additions value)

  -- `YEAR_TOKEN_RE.search`: the first four digits between word boundaries.
  unfoldable pub find_year : Option ℕ → Text → Option Text
  unfolding matches
  find_year prev [] = none
  find_year prev (c ∷ s) =
      let later = find_year (some c) s in
      if matches year_token done prev (c ∷ s) then some (first_four (c ∷ s)) else later

  unfoldable pub normalize_release_year : Text → Text
  unfolding find_year strip
  normalize_release_year value =
      let cleaned = strip value in
      if is_empty cleaned
      then []
      else elim (find_year none cleaned) [ none ↦ cleaned | some year ↦ year ]

  -- One option stands alone, several in a group; a group without options is left out.
  unfoldable pub build_keyword_group_fragments : List (List Text) → List Text
  unfolding build_title_regex_fragment strip
  build_keyword_group_fragments [] = []
  build_keyword_group_fragments (group ∷ groups) =
      let group_fragments =
        map (λ item. build_title_regex_fragment item)
          (keep_if (λ item. not (is_empty (strip item))) group) in
      let rest = build_keyword_group_fragments groups in
      elim group_fragments [
        | [] ↦ rest
        | f ∷ fs ↦ if is_empty fs then f ∷ rest else any_of (f ∷ fs) ∷ rest
      ]
