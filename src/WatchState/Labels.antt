-- ===== src/WatchState/Labels.antt =====
-- Names of the sources that report watch state (app/services/watch_state.py).
pub mod Laws
use q_bittorrent_rss_rules.Prelude.{
  ℕ, Bool, true, false, ◌&&◌, ◌||◌, not, Option, none, some, List, [], ◌∷◌, ◌++◌, ltb, leb, ◌=?◌,
  if◌then◌else◌, contains, text_eq, map,
}
use mathlib.Core.List.{reverse}
use q_bittorrent_rss_rules.Prelude.Text.{Text, codes, strip}
use q_bittorrent_rss_rules.Prelude.Unicode.{Unicode}
use q_bittorrent_rss_rules.Prelude.Sort.{sort_by}

-- What `[a-z0-9]` matches under IGNORECASE: both cases, the digits, and U+0130, U+0131, U+017F and
-- U+212A, whose other case is an ASCII letter.
unfoldable pub is_label_char : ℕ → Bool
is_label_char c =
    leb b'a' c && leb c b'z'
    || leb b'A' c && leb c b'Z'
    || leb b'0' c && leb c b'9'
    || c =? 0x130
    || c =? 0x131
    || c =? 0x17f
    || c =? 0x212a

-- `WATCH_STATE_SOURCE_RE.sub("_", …)`: each longest run of other characters is one underscore. The
-- flag says that such a run has been replaced already.
unfoldable pub collapse : Bool → Text → Text
unfolding is_label_char
collapse in_run [] = []
collapse in_run (c ∷ s) =
    let keep = c ∷ collapse false s in
    let replaced = collapse true s in
    if is_label_char c then keep else if in_run then replaced else b'_' ∷ replaced

-- `lstrip("_")` and `strip("_")`
unfoldable pub lstrip_underscore : Text → Text
lstrip_underscore [] = []
lstrip_underscore (c ∷ s) = let rest = lstrip_underscore s in if c =? b'_' then rest else c ∷ s

unfoldable pub strip_underscore : Text → Text
unfolding lstrip_underscore
strip_underscore s = reverse (lstrip_underscore (reverse (lstrip_underscore s)))

-- The order of Python's `str`.
unfoldable pub text_le : Text → Text → Bool
text_le [] t = true
text_le (c ∷ s) [] = false
text_le (c ∷ s) (d ∷ t) = ltb c d || c =? d && text_le s t

-- `label.replace("_", " ")`
abbrev pub spaced : Text → Text
spaced = map (λ c. if c =? b'_' then b' ' else c)

-- `", ".join(…)`
abbrev pub join_comma : List Text → Text
join_comma [] = []
join_comma (x ∷ []) = x
join_comma (x ∷ y ∷ xs) = x ++ codes ", " ++ join_comma (y ∷ xs)

abbrev pub some_text : Text → Option Text
some_text [] = none
some_text (c ∷ s) = some (c ∷ s)

module _ ⦃u : Unicode⦄ where
  -- `_normalize_watch_state_source_label`
  unfoldable pub normalize_source_label : Text → Option Text
  unfolding collapse strip_underscore strip
  normalize_source_label value =
      some_text (strip_underscore (collapse false (u.casefold (strip value))))

  unfoldable pub labels_loop : List Text → List Text → List Text
  labels_loop seen [] = []
  labels_loop seen (raw_item ∷ items) =
      let skip = labels_loop seen items in
      elim (normalize_source_label raw_item) [
        | none ↦ skip
        | some label ↦
            let take = label ∷ labels_loop (label ∷ seen) items in
            if contains seen label then skip else take
      ]

  unfoldable pub normalize_watch_state_source_labels : List Text → List Text
  unfolding labels_loop text_le sort_by
  normalize_watch_state_source_labels value = sort_by text_le (labels_loop [] value)

  unfoldable pub format_watch_state_source_labels : List Text → Text
  unfolding normalize_watch_state_source_labels
  format_watch_state_source_labels value =
      join_comma (map (λ label. u.title (spaced label)) (normalize_watch_state_source_labels value))
