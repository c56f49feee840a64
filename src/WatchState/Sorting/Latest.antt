-- ===== src/WatchState/Sorting/Latest.antt =====
-- `latest_watch_state_episode_tuple` is the maximum (app/services/watch_state.py).
use q_bittorrent_rss_rules.Prelude.{
  ◌≡◌, refl, ◌∙◌, ap, sym, ◌⊎◌, inl, inr, true, Option, none, some, List, [], ◌∷◌, if◌then◌else◌,
  arith, Option-cases, All, contains, text_eq,
}
use q_bittorrent_rss_rules.Prelude.Text.{Text}
use q_bittorrent_rss_rules.Prelude.Unicode.{Unicode}
use q_bittorrent_rss_rules.WatchState.Keys.{Episode, watch_state_episode_key_tuple}
use q_bittorrent_rss_rules.WatchState.Sorting.{
  episode_lt, episode_le, latest_from, latest_watch_state_episode_tuple, later,
}

episode_le_refl : (a : Episode) → episode_le a a ≡ true
episode_le_refl a = ground arith

episode_le_trans :
    (a b c : Episode) → episode_le a b ≡ true → episode_le b c ≡ true → episode_le a c ≡ true
episode_le_trans a b c h k = ground arith

le_max :
    (a b : Episode)
    → (episode_le a (if episode_lt a b then b else a) ≡ true)
      × (episode_le b (if episode_lt a b then b else a) ≡ true)
le_max a b = ground arith

module _ ⦃u : Unicode⦄ where
  -- The text is not read as an episode after `l`.
  abbrev pub UpTo : Episode → Text → Type 0
  UpTo l item = (e : Episode) → watch_state_episode_key_tuple item ≡ some e → episode_le e l ≡ true

  abbrev Above : Option Episode → Episode → Type 0
  Above o l = (m : Episode) → o ≡ some m → episode_le m l ≡ true

  latest_skip :
      (o : Option Episode) (item : Text) (items : List Text)
      → watch_state_episode_key_tuple item ≡ none
      → latest_from o (item ∷ items) ≡ latest_from o items
  unfolding latest_from
  latest_skip o item items e = rw e

  latest_take :
      (o : Option Episode) (item : Text) (items : List Text) (v : Episode)
      → watch_state_episode_key_tuple item ≡ some v
      → latest_from o (item ∷ items) ≡ latest_from (later o v) items
  unfolding latest_from
  latest_take o item items v e = rw e

  Above-later :
      (o : Option Episode) (v l : Episode)
      → Above (later o v) l
      → Above o l × (episode_le v l ≡ true)
  Above-later none v l h = (λ m e. cc, h v refl)
  Above-later (some a) v l h =
      let top = h (if episode_lt a v then v else a) refl in
      (
        λ m e. ground (arith, episode_le_trans m (if episode_lt a v then v else a) l, le_max a v),
        episode_le_trans v (if episode_lt a v then v else a) l (le_max a v).1 top,
      )

  latest_from-upper :
      (o : Option Episode) (items : List Text) (l : Episode)
      → latest_from o items ≡ some l
      → Above o l × All (UpTo l) items
  latest_from-upper o [] l h =
      unfold latest_from in ((λ m e. ground (arith, episode_le_refl l)), tt)
  latest_from-upper o (item ∷ items) l h =
      elim (Option-cases (watch_state_episode_key_tuple item)) [
        | inl e ↦
            let ih = latest_from-upper o items l (sym (latest_skip o item items e) ∙ h) in
            (ih.0, ((λ v p. cc (e, p)), ih.1))
        | inr (v, e) ↦
            let ih =
              latest_from-upper (later o v) items l (sym (latest_take o item items v e) ∙ h) in
            let a = Above-later o v l ih.0 in (a.0, ((λ w p. ground (arith, e, p, a.1)), ih.1))
      ]

  later-cases : (o : Option Episode) (v l : Episode) → later o v ≡ some l → (o ≡ some l) ⊎ (v ≡ l)
  later-cases none v l h = inr (ground arith)
  later-cases (some a) v l h = ground arith

  -- Some element of the list is read as the episode.
  abbrev pub Attained : Episode → List Text → Type 0
  Attained l items =
      (item : Text) × (contains items item ≡ true) × (watch_state_episode_key_tuple item ≡ some l)

  Attained-cons :
      (l : Episode) (item : Text) (items : List Text) → Attained l items → Attained l (item ∷ items)
  Attained-cons l item items (x, c, e) = (x, ground arith, e)

  latest_from-Attained :
      (o : Option Episode) (items : List Text) (l : Episode)
      → latest_from o items ≡ some l
      → (o ≡ some l) ⊎ Attained l items
  latest_from-Attained o [] l h = inl (unfold latest_from in h)
  latest_from-Attained o (item ∷ items) l h =
      elim (Option-cases (watch_state_episode_key_tuple item)) [
        | inl e ↦ elim (latest_from-Attained o items l (sym (latest_skip o item items e) ∙ h)) [
          | inl p ↦ inl p
          | inr a ↦ inr (Attained-cons l item items a)
        ]
        | inr (v, e) ↦
            elim (latest_from-Attained (later o v) items l
              (sym (latest_take o item items v e) ∙ h)) [
                | inl p ↦ elim (later-cases o v l p) [
                  | inl q ↦ inl q
                  | inr q ↦ inr (item, ground arith, e ∙ ap some q)
                ]
                | inr a ↦ inr (Attained-cons l item items a)
              ]
      ]

  -- A latest episode that is found is read from one of the texts, and no text is read as a later one.
  pub latest_lem :
      (values : List Text) (l : Episode)
      → latest_watch_state_episode_tuple values ≡ some l
      → All (UpTo l) values × Attained l values
  unfolding latest_watch_state_episode_tuple
  latest_lem values l h =
      ((latest_from-upper none values l h).1, go (latest_from-Attained none values l h))
    where
      go : ◌≡◌ {A = Option Episode} none (some l) ⊎ Attained l values → Attained l values
      go (inl p) = cc
      go (inr a) = a
