-- ===== src/WatchState/Labels/Laws.antt =====
-- The normalized source labels (app/services/watch_state.py).
use mathlib.Core.List.{reverse, Perm}
use mathlib.Core.List
use q_bittorrent_rss_rules.Prelude.{
  ℕ, ◌≡◌, ◌≢◌, refl, subst, inl, inr, Bool, true, false, ◌||◌, some, List, [], ◌∷◌, ◌++◌, ◌=?◌,
  if◌then◌else◌, arith, Bool-cases, Option-cases, All, contains, text_eq,
}
use q_bittorrent_rss_rules.Prelude.Text.{Text, strip}
use q_bittorrent_rss_rules.Prelude.Unicode.{Unicode}
use q_bittorrent_rss_rules.Prelude.Sort.{IsSorted, sort_by-IsSorted, sort_by-All}
use q_bittorrent_rss_rules.WatchState.Labels.{
  is_label_char, collapse, lstrip_underscore, strip_underscore, text_le, some_text,
  normalize_source_label, labels_loop, normalize_watch_state_source_labels,
}

text_le_total : (s t : Text) → text_le s t ≡ false → text_le t s ≡ true
unfolding text_le
text_le_total [] t h = cc
text_le_total (c ∷ s) [] h = refl
text_le_total (c ∷ s) (d ∷ t) h = ground (arith, text_le_total s t)

text_le_trans : (s t r : Text) → text_le s t ≡ true → text_le t r ≡ true → text_le s r ≡ true
unfolding text_le
text_le_trans [] t r h k = refl
text_le_trans (c ∷ s) [] r h k = cc
text_le_trans (c ∷ s) (d ∷ t) [] h k = cc
text_le_trans (c ∷ s) (d ∷ t) (e ∷ r) h k = ground (arith, text_le_trans s t r)

-- A character of a label: a letter or digit that the pattern matches, or an underscore.
abbrev pub LabelChar : ℕ → Type 0
LabelChar c = (is_label_char c || c =? b'_') ≡ true

replaced : (run : Bool) (s : Text) → All LabelChar s → All LabelChar (if run then s else b'_' ∷ s)
replaced true s h = h
replaced false s h = (ground arith, h)

collapse-All : (run : Bool) (s : Text) → All LabelChar (collapse run s)
unfolding collapse
collapse-All run [] = tt
collapse-All run (c ∷ s) = elim (Bool-cases (is_label_char c)) [
  | inl e ↦ rw e (ground (arith, e), collapse-All false s)
  | inr e ↦ rw e (replaced run (collapse true s) (collapse-All true s))
]

lstrip_underscore-All : (s : Text) → All LabelChar s → All LabelChar (lstrip_underscore s)
unfolding lstrip_underscore
lstrip_underscore-All [] h = tt
lstrip_underscore-All (c ∷ s) (p, h) = elim (Bool-cases (c =? b'_')) [
  | inl e ↦ rw e (lstrip_underscore-All s h)
  | inr e ↦ rw e (p, h)
]

append-All : (s t : Text) → All LabelChar s → All LabelChar t → All LabelChar (s ++ t)
append-All [] t h k = k
append-All (c ∷ s) t (p, h) k = (p, append-All s t h k)

reverse-All : (s : Text) → All LabelChar s → All LabelChar (reverse s)
reverse-All [] h = tt
reverse-All (c ∷ s) (p, h) =
    rw List.reverse-cons (append-All (reverse s) (c ∷ []) (reverse-All s h) (p, tt))

module _ ⦃u : Unicode⦄ where
  -- A label that is found is not empty and has only matched letters, digits and underscores.
  abbrev pub IsLabel : Text → Type 0
  IsLabel l = (l ≢ []) × All LabelChar l

  some_text-some : (s l : Text) → some_text s ≡ some l → (s ≡ l) × (l ≢ [])
  some_text-some [] l h = cc
  some_text-some (c ∷ s) l h = ground arith

  normalize_source_label-IsLabel : (v l : Text) → normalize_source_label v ≡ some l → IsLabel l
  unfolding normalize_source_label strip_underscore
  normalize_source_label-IsLabel v l h =
      let s = collapse false (u.casefold (strip v)) in
      let t = lstrip_underscore (reverse (lstrip_underscore s)) in
      let e = some_text-some (reverse t) l h in
      (
        e.1,
        subst (All LabelChar) e.0 (
            reverse-All t (
              lstrip_underscore-All _ (
                reverse-All (lstrip_underscore s)
                  (lstrip_underscore-All s (collapse-All false (u.casefold (strip v))))))),
      )

  choose :
      (seen : List Text) (l : Text) (skip take : List Text)
      → IsLabel l
      → All IsLabel skip
      → All IsLabel take
      → All IsLabel (if contains seen l then skip else l ∷ take)
  choose seen l skip take p s t = elim (Bool-cases (contains seen l)) [
    | inl e ↦ rw e s
    | inr e ↦ rw e (p, t)
  ]

  labels_loop-All : (seen items : List Text) → All IsLabel (labels_loop seen items)
  unfolding labels_loop
  labels_loop-All seen [] = tt
  labels_loop-All seen (raw ∷ items) = elim (Option-cases (normalize_source_label raw)) [
    | inl e ↦ rw (e, labels_loop) (labels_loop-All seen items)
    | inr (l, e) ↦
        rw (e, labels_loop)
          (choose seen l (labels_loop seen items) (labels_loop (l ∷ seen) items)
            (normalize_source_label-IsLabel raw l e) (labels_loop-All seen items)
            (labels_loop-All (l ∷ seen) items))
  ]

  -- The normalized sources are in the order of their texts, and each is a proper label.
  pub normalize_labels_lem :
      (value : List Text)
      → IsSorted text_le (normalize_watch_state_source_labels value)
        × All IsLabel (normalize_watch_state_source_labels value)
  unfolding normalize_watch_state_source_labels
  normalize_labels_lem value = (
    sort_by-IsSorted text_le text_le_total text_le_trans (labels_loop [] value),
    sort_by-All text_le IsLabel (labels_loop [] value) (labels_loop-All [] value),
  )
