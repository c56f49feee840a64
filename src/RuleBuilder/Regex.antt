-- ===== src/RuleBuilder/Regex.antt =====
-- The regular expressions that app/services/rule_builder.py writes, as syntax trees: how they are
-- written, and where Python's `re` finds them under IGNORECASE. A match is a search for some way
-- through the tree, so the matcher is a function into Bool that is told what has to follow.
use q_bittorrent_rss_rules.Prelude.{
  ℕ, zero, suc, Bool, true, false, ◌&&◌, ◌||◌, not, Option, none, some, List, [], ◌∷◌, ◌++◌, leb,
  ◌=?◌, if◌then◌else◌,
}
use q_bittorrent_rss_rules.Prelude.Text.{Text, codes, show, is_space}
use q_bittorrent_rss_rules.Prelude.Unicode.{Unicode, lower_ascii}

-- What one character may be: a literal, `\d`, `[a-b]`, `[\s._-]`, `[\s._:-]` and `.`
pub data Class : Type 0 where
  lit : ℕ → Class
  digit separator colon_separator any_char : Class
  from_to : ℕ → ℕ → Class

-- `many` is `c*`, `many_lazy` is `c*?`, `at_least n` is `c{n,}`, `one_or_two` is `c{1,2}`; `group`
-- is `(?:r)`, `optional` is `(?:r)?`, `ahead` is `(?=r)` and `not_ahead` is `(?!r)`.
pub data Regex : Type 0 where
  char many many_lazy one_or_two : Class → Regex
  at_least : ℕ → Class → Regex
  empty boundary end_of_text : Regex
  seq alt : Regex → Regex → Regex
  group optional ahead not_ahead : Regex → Regex

unfoldable pub render_class : Class → Text
render_class (lit c) = c ∷ []
render_class digit = codes "\\d"
render_class separator = codes "[\\s._-]"
render_class colon_separator = codes "[\\s._:-]"
render_class any_char = codes "."
render_class (from_to a b) = b'[' ∷ a ∷ b'-' ∷ b ∷ b']' ∷ []

-- The text of the expression.
unfoldable pub render : Regex → Text
unfolding render_class show
render (char c) = render_class c
render (many c) = render_class c ++ codes "*"
render (many_lazy c) = render_class c ++ codes "*?"
render (one_or_two c) = render_class c ++ codes "{1,2}"
render (at_least n c) = render_class c ++ (b'{' ∷ (show n ++ codes ",}"))
render empty = []
render boundary = codes "\\b"
render end_of_text = codes "$"
render (seq a b) = render a ++ render b
render (alt a b) = render a ++ (b'|' ∷ render b)
render (group a) = codes "(?:" ++ (render a ++ codes ")")
render (optional a) = codes "(?:" ++ (render a ++ codes ")?")
render (ahead a) = codes "(?=" ++ (render a ++ codes ")")
render (not_ahead a) = codes "(?!" ++ (render a ++ codes ")")

-- One after the other; a literal text; one or the other.
abbrev pub cat : List Regex → Regex
cat [] = empty
cat (r ∷ []) = r
cat (r ∷ s ∷ rs) = seq r (cat (s ∷ rs))

abbrev pub literal : Text → Regex
literal [] = empty
literal (c ∷ []) = char (lit c)
literal (c ∷ d ∷ s) = seq (char (lit c)) (literal (d ∷ s))

abbrev pub alts : List Regex → Regex
alts [] = empty
alts (r ∷ []) = r
alts (r ∷ s ∷ rs) = alt r (alts (s ∷ rs))

-- A letter matches in either case; s, k and i have case partners outside ASCII.
unfoldable pub same_letter : ℕ → ℕ → Bool
same_letter c d =
    lower_ascii c =? lower_ascii d
    || lower_ascii c =? b's' && d =? 0x17f
    || lower_ascii c =? b'k' && d =? 0x212a
    || lower_ascii c =? b'i' && (d =? 0x130 || d =? 0x131)

-- What has to follow: the character before the place, and the text from the place on.
abbrev pub Follow : Type 0
Follow = Option ℕ → Text → Bool

module _ ⦃u : Unicode⦄ where
  abbrev pub is_digit : ℕ → Bool
  is_digit c = elim (u.decimal c) [ none ↦ false | some d ↦ true ]

  unfoldable pub in_class : Class → ℕ → Bool
  unfolding same_letter is_space
  in_class (lit d) c = same_letter d c
  in_class digit c = is_digit c
  in_class separator c = is_space c || c =? b'.' || c =? b'_' || c =? b'-'
  in_class colon_separator c = is_space c || c =? b'.' || c =? b'_' || c =? b':' || c =? b'-'
  in_class any_char c = not (c =? 10)
  in_class (from_to a b) c = leb a c && leb c b

  unfoldable pub match_char : Class → Follow → Follow
  unfolding in_class
  match_char p k prev [] = false
  match_char p k prev (c ∷ s) = in_class p c && k (some c) s

  unfoldable pub match_many : Class → Follow → Follow
  unfolding in_class
  match_many p k prev [] = k prev []
  match_many p k prev (c ∷ s) =
      let more = match_many p k (some c) s in k prev (c ∷ s) || in_class p c && more

  unfoldable pub match_at_least : ℕ → Class → Follow → Follow
  unfolding match_char match_many
  match_at_least zero p k = match_many p k
  match_at_least (suc n) p k = match_char p (match_at_least n p k)

  abbrev word_before : Option ℕ → Bool
  word_before none = false
  word_before (some c) = u.is_word c

  abbrev word_after : Text → Bool
  word_after [] = false
  word_after (c ∷ s) = u.is_word c

  -- `\b`: a word character on exactly one side.
  unfoldable pub at_boundary : Option ℕ → Text → Bool
  at_boundary prev s = if word_before prev then not (word_after s) else word_after s

  -- `$`: the end, or a last line break.
  unfoldable pub at_end : Text → Bool
  at_end [] = true
  at_end (c ∷ []) = c =? 10
  at_end (c ∷ d ∷ s) = false

  abbrev pub either : Follow → Follow → Follow
  either f g prev s = f prev s || g prev s

  abbrev pub both : Follow → Follow → Follow
  both f g prev s = f prev s && g prev s

  abbrev pub fails : Follow → Follow
  fails f prev s = not (f prev s)

  abbrev pub done : Follow
  done prev s = true

  unfoldable pub matches : Regex → Follow → Follow
  unfolding match_char match_many match_at_least at_boundary at_end
  matches (char p) k = match_char p k
  matches (many p) k = match_many p k
  matches (many_lazy p) k = match_many p k
  matches (one_or_two p) k = match_char p (either (match_char p k) k)
  matches (at_least n p) k = match_at_least n p k
  matches empty k = k
  matches boundary k = both at_boundary k
  matches end_of_text k = both (λ prev s. at_end s) k
  matches (seq a b) k = matches a (matches b k)
  matches (alt a b) k = either (matches a k) (matches b k)
  matches (group a) k = matches a k
  matches (optional a) k = either (matches a k) k
  matches (ahead a) k = both (matches a done) k
  matches (not_ahead a) k = both (fails (matches a done)) k

  abbrev pub at_end_only : Follow
  at_end_only prev [] = true
  at_end_only prev (c ∷ s) = false

  -- `re.fullmatch`
  unfoldable pub full_match : Regex → Text → Bool
  unfolding matches
  full_match r s = matches r at_end_only none s

  -- `re.search`, from a place on.
  unfoldable pub search_from : Regex → Option ℕ → Text → Bool
  unfolding matches
  search_from r prev [] = matches r done prev []
  search_from r prev (c ∷ s) =
      let later = search_from r (some c) s in matches r done prev (c ∷ s) || later

  unfoldable pub searches : Regex → Text → Bool
  unfolding search_from
  searches r s = search_from r none s
