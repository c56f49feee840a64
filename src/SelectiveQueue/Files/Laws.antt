-- ===== src/SelectiveQueue/Files/Laws.antt =====
-- What the search for an episode's file satisfies (app/services/selective_queue.py).
use q_bittorrent_rss_rules.Prelude.{
  ℕ, ◌≡◌, refl, subst, sym, ap, ◌∙◌, inl, inr, ◌⊎◌, Bool, true, false, ◌&&◌, ◌||◌, some, List, [],
  ◌∷◌, arith, ltb, ◌=?◌, if◌then◌else◌, All, keep_if, Bool-cases, text_eq,
}
use mathlib.Core.Option.{some-injective}
use q_bittorrent_rss_rules.Prelude.Text.{Text}
use q_bittorrent_rss_rules.Prelude.Sort.{
  sort_by, insert_by, sort_by-All, sort_by-IsSorted, BelowAll, IsSorted,
}
use q_bittorrent_rss_rules.Prelude.Unicode.{Unicode}
use q_bittorrent_rss_rules.SelectiveQueue.Files.{
  TorrentFileEntry, entry_leb, is_candidate, first_entry, find_episode_file_entry, text_leb,
  episode_file_match_rank,
}

text_leb_total : (s t : Text) → text_leb s t ≡ false → text_leb t s ≡ true
unfolding text_leb
text_leb_total [] t h = cc
text_leb_total (c ∷ s) [] h = refl
text_leb_total (c ∷ s) (d ∷ t) h = ground (arith, text_leb_total s t)

text_leb_trans : (s t u : Text) → text_leb s t ≡ true → text_leb t u ≡ true → text_leb s u ≡ true
unfolding text_leb
text_leb_trans [] t u h k = refl
text_leb_trans (c ∷ s) [] u h k = cc
text_leb_trans (c ∷ s) (d ∷ t) [] h k = cc
text_leb_trans (c ∷ s) (d ∷ t) (e ∷ u) h k = ground (arith, text_leb_trans s t u)

-- Three keys compared one after the other, the last by a given answer.
abbrev lex : ℕ → ℕ → ℕ → ℕ → Bool → Bool
lex r s i j last = ltb r s || r =? s && (ltb i j || i =? j && last)

lex_total :
    (r s i j : ℕ) (p q : Bool)
    → (p ≡ false → q ≡ true)
    → lex r s i j p ≡ false
    → lex s r j i q ≡ true
lex_total r s i j p q total h = ground arith

lex_trans :
    (r s t i j k : ℕ) (p q o : Bool)
    → (p ≡ true → q ≡ true → o ≡ true)
    → lex r s i j p ≡ true
    → lex s t j k q ≡ true
    → lex r t i k o ≡ true
lex_trans r s t i j k p q o trans h h' = ground arith

module _ ⦃u : Unicode⦄ where
  entry_leb_total :
      (season episode : ℕ) (a b : TorrentFileEntry)
      → entry_leb season episode a b ≡ false
      → entry_leb season episode b a ≡ true
  unfolding entry_leb
  entry_leb_total season episode a b =
      lex_total (episode_file_match_rank a.path season episode)
        (episode_file_match_rank b.path season episode) a.file_id b.file_id _ _
        (text_leb_total (u.casefold a.path) (u.casefold b.path))

  entry_leb_trans :
      (season episode : ℕ) (a b c : TorrentFileEntry)
      → entry_leb season episode a b ≡ true
      → entry_leb season episode b c ≡ true
      → entry_leb season episode a c ≡ true
  unfolding entry_leb
  entry_leb_trans season episode a b c =
      lex_trans (episode_file_match_rank a.path season episode)
        (episode_file_match_rank b.path season episode)
        (episode_file_match_rank c.path season episode) a.file_id b.file_id c.file_id _ _ _
        (text_leb_trans (u.casefold a.path) (u.casefold b.path) (u.casefold c.path))

All-insert_by :
    (le : TorrentFileEntry → TorrentFileEntry → Bool) (P : TorrentFileEntry → Type 0)
    (x : TorrentFileEntry) (ys : List TorrentFileEntry)
    → All P (insert_by le x ys)
    → P x × All P ys
unfolding insert_by
All-insert_by le P x [] h = h
All-insert_by le P x (y ∷ ys) h0 = elim (Bool-cases (le x y)) [
  | inl e ↦ subst (λ b. All P (if b then x ∷ y ∷ ys else y ∷ insert_by le x ys)) e h0
  | inr e ↦
      (let (q, h) = subst (λ b. All P (if b then x ∷ y ∷ ys else y ∷ insert_by le x ys)) e h0 in
        let (p, h') = All-insert_by le P x ys h in (p, (q, h')))
]

All-sort_by :
    (le : TorrentFileEntry → TorrentFileEntry → Bool) (P : TorrentFileEntry → Type 0)
    (xs : List TorrentFileEntry)
    → All P (sort_by le xs)
    → All P xs
unfolding sort_by
All-sort_by le P [] h = tt
All-sort_by le P (x ∷ xs) h =
    let (p, h') = All-insert_by le P x (sort_by le xs) h in (p, All-sort_by le P xs h')

-- The entry is among the files.
abbrev pub IsAmong : TorrentFileEntry → List TorrentFileEntry → Type 0
IsAmong entry [] = ⊥
IsAmong entry (f ∷ files) = (entry ≡ f) ⊎ IsAmong entry files

All-IsAmong :
    (P : TorrentFileEntry → Type 0) (entry : TorrentFileEntry) (files : List TorrentFileEntry)
    → IsAmong entry files
    → All P files
    → P entry
All-IsAmong P entry [] m _ = elim m [ ]
All-IsAmong P entry (f ∷ files) (inl e) (p, h) = subst P (sym e) p
All-IsAmong P entry (f ∷ files) (inr m) (p, h) = All-IsAmong P entry files m h

All-self :
    (files : List TorrentFileEntry) (P : TorrentFileEntry → Type 0)
    → ((f : TorrentFileEntry) → IsAmong f files → P f)
    → All P files
All-self [] P h = tt
All-self (f ∷ files) P h = (h f (inl refl), All-self files P (λ g m. h g (inr m)))

module _ (p : TorrentFileEntry → Bool) where
  keep_if-IsAmong :
      (f : TorrentFileEntry) (xs : List TorrentFileEntry)
      → IsAmong f (keep_if p xs)
      → (p f ≡ true) × IsAmong f xs
  keep_if-IsAmong f [] m = elim m [ ]
  keep_if-IsAmong f (x ∷ xs) m = elim (Bool-cases (p x)) [
    | inl e ↦ elim (subst (λ b. IsAmong f (if b then x ∷ keep_if p xs else keep_if p xs)) e m) [
      | inl q ↦ (ap p q ∙ e, inl q)
      | inr m' ↦ (let (q, m'') = keep_if-IsAmong f xs m' in (q, inr m''))
    ]
    | inr e ↦
        (let m' = subst (λ b. IsAmong f (if b then x ∷ keep_if p xs else keep_if p xs)) e m in
          let (q, m'') = keep_if-IsAmong f xs m' in (q, inr m''))
  ]

  All-keep_if :
      (P : TorrentFileEntry → Type 0) (xs : List TorrentFileEntry)
      → All P (keep_if p xs)
      → All (λ f. p f ≡ true → P f) xs
  All-keep_if P [] h = tt
  All-keep_if P (x ∷ xs) h = elim (Bool-cases (p x)) [
    | inl e ↦
        (let (q, h') = subst (λ b. All P (if b then x ∷ keep_if p xs else keep_if p xs)) e h in
          (λ _. q, All-keep_if P xs h'))
    | inr e ↦ (
      λ e'. cc (e, e'),
      All-keep_if P xs (subst (λ b. All P (if b then x ∷ keep_if p xs else keep_if p xs)) e h),
    )
  ]

module _ ⦃u : Unicode⦄ (season episode : ℕ) where
  -- The entry is not after the file in the order of the search.
  abbrev pub IsBest : TorrentFileEntry → TorrentFileEntry → Type 0
  IsBest entry f = (f ≡ entry) ⊎ (entry_leb season episode entry f ≡ true)

  IsBest-head :
      (z : TorrentFileEntry) (zs : List TorrentFileEntry)
      → BelowAll (entry_leb season episode) z zs
      → All (IsBest z) zs
  IsBest-head z [] h = tt
  IsBest-head z (y ∷ zs) (h, hs) = (inr h, IsBest-head z zs hs)

  first-sorted :
      (entry : TorrentFileEntry) (zs : List TorrentFileEntry)
      → first_entry zs ≡ some entry
      → IsSorted (entry_leb season episode) zs
      → All (IsBest entry) zs × IsAmong entry zs
  first-sorted entry [] h s = cc
  first-sorted entry (z ∷ zs) h (b, s) =
      let e = some-injective z entry h in
      (subst (λ x. All (IsBest x) (z ∷ zs)) e (inl refl, IsBest-head z zs b), inl (sym e))

  -- The file that is found is a video file of the torrent that names the episode, and no other
  -- such file comes before it in the order of rank, id and folded path.
  pub find_entry-IsBest :
      (files : List TorrentFileEntry) (entry : TorrentFileEntry)
      → find_episode_file_entry files season episode ≡ some entry
      → (is_candidate season episode entry ≡ true)
        × IsAmong entry files
        × All (λ f. is_candidate season episode f ≡ true → IsBest entry f) files
  unfolding find_episode_file_entry
  find_entry-IsBest files entry h =
      let le = entry_leb season episode in
      let p = is_candidate season episode in
      let cs = keep_if p files in
      let sorted =
        sort_by-IsSorted le (entry_leb_total season episode) (entry_leb_trans season episode) cs in
      let (best, among) = first-sorted entry (sort_by le cs) h sorted in
      let (c, m) =
        All-IsAmong (λ f. (p f ≡ true) × IsAmong f files) entry (sort_by le cs) among
          (sort_by-All le (λ f. (p f ≡ true) × IsAmong f files) cs
            (All-self cs _ (λ f m. keep_if-IsAmong p f files m))) in
      (c, m, All-keep_if p (IsBest entry) files (All-sort_by le (IsBest entry) cs best))
