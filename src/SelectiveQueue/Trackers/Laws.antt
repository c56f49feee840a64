-- ===== src/SelectiveQueue/Trackers/Laws.antt =====
-- What the cleaned lists of trackers satisfy (app/services/selective_queue.py).
use q_bittorrent_rss_rules.Prelude.{
  ◌≡◌, refl, sym, subst, inl, inr, ◌⊎◌, true, false, ◌||◌, List, [], ◌∷◌, map, arith, contains,
  text_eq, Nodup, All, Bool-cases,
}
use q_bittorrent_rss_rules.Prelude.Text.{Text, strip}
use q_bittorrent_rss_rules.Prelude.Unicode.{Unicode}
use q_bittorrent_rss_rules.SelectiveQueue.Trackers.{is_blank, dedupe_loop, dedupe_tracker_urls}

module _ ⦃u : Unicode⦄ where
  -- No key of the list was seen before.
  abbrev Fresh : List Text → List Text → Type 0
  Fresh seen urls = All (λ url. contains seen (u.casefold url) ≡ false) urls

  Fresh-weaken : (k : Text) (seen urls : List Text) → Fresh (k ∷ seen) urls → Fresh seen urls
  Fresh-weaken k seen [] h = tt
  Fresh-weaken k seen (url ∷ urls) (h, hs) = (ground (arith, h), Fresh-weaken k seen urls hs)

  Fresh-not_in :
      (k : Text) (seen urls : List Text)
      → Fresh (k ∷ seen) urls
      → contains (map u.casefold urls) k ≡ false
  Fresh-not_in k seen [] h = refl
  Fresh-not_in k seen (url ∷ urls) (h, hs) = ground (arith, h, Fresh-not_in k seen urls hs)

  dedupe_loop-Fresh : (seen urls : List Text) → Fresh seen (dedupe_loop seen urls)
  unfolding dedupe_loop
  dedupe_loop-Fresh seen [] = tt
  dedupe_loop-Fresh seen (url ∷ urls) = elim (Bool-cases (is_blank (strip url))) [
    | inl e ↦ rw (e, dedupe_loop) (dedupe_loop-Fresh seen urls)
    | inr e ↦ elim (Bool-cases (contains seen (u.casefold (strip url)))) [
      | inl c ↦ rw (e, c, dedupe_loop) (dedupe_loop-Fresh seen urls)
      | inr c ↦
          rw (e, c, dedupe_loop)
            (
              c,
              Fresh-weaken (u.casefold (strip url)) seen _
                  (dedupe_loop-Fresh (u.casefold (strip url) ∷ seen) urls),
            )
    ]
  ]

  dedupe_loop-Nodup : (seen urls : List Text) → Nodup (map u.casefold (dedupe_loop seen urls))
  unfolding dedupe_loop
  dedupe_loop-Nodup seen [] = tt
  dedupe_loop-Nodup seen (url ∷ urls) = elim (Bool-cases (is_blank (strip url))) [
    | inl e ↦ rw (e, dedupe_loop) (dedupe_loop-Nodup seen urls)
    | inr e ↦ elim (Bool-cases (contains seen (u.casefold (strip url)))) [
      | inl c ↦ rw (e, c, dedupe_loop) (dedupe_loop-Nodup seen urls)
      | inr c ↦
          rw (e, c, dedupe_loop)
            (
              Fresh-not_in (u.casefold (strip url)) seen _
                  (dedupe_loop-Fresh (u.casefold (strip url) ∷ seen) urls),
              dedupe_loop-Nodup (u.casefold (strip url) ∷ seen) urls,
            )
    ]
  ]

  -- The address is blank, or its key was seen, or it is among the keys.
  abbrev Covered : List Text → List Text → Text → Type 0
  Covered seen keys url =
      (is_blank (strip url) ≡ true)
      ⊎ ((contains seen (u.casefold (strip url)) ≡ true)
          ⊎ (contains keys (u.casefold (strip url)) ≡ true))

  Covered-later :
      (k : Text) (seen keys urls : List Text)
      → All (Covered (k ∷ seen) keys) urls
      → All (Covered seen (k ∷ keys)) urls
  Covered-later k seen keys [] h = tt
  Covered-later k seen keys (url ∷ urls) (h, hs) =
      (ground (arith, h), Covered-later k seen keys urls hs)

  dedupe_skip :
      (seen : List Text) (url : Text) (urls : List Text)
      → (is_blank (strip url) || contains seen (u.casefold (strip url))) ≡ true
      → dedupe_loop seen (url ∷ urls) ≡ dedupe_loop seen urls
  unfolding dedupe_loop
  dedupe_skip seen url urls h = rw h refl

  dedupe_take :
      (seen : List Text) (url : Text) (urls : List Text)
      → (is_blank (strip url) || contains seen (u.casefold (strip url))) ≡ false
      → dedupe_loop seen (url ∷ urls) ≡ strip url ∷ dedupe_loop (u.casefold (strip url) ∷ seen) urls
  unfolding dedupe_loop
  dedupe_take seen url urls h = rw h refl

  dedupe_loop-Covered :
      (seen urls : List Text) → All (Covered seen (map u.casefold (dedupe_loop seen urls))) urls
  dedupe_loop-Covered seen [] = tt
  dedupe_loop-Covered seen (url ∷ urls) =
      elim (Bool-cases (is_blank (strip url) || contains seen (u.casefold (strip url)))) [
        | inl e ↦
            subst (λ ks. All (Covered seen (map u.casefold ks)) (url ∷ urls))
              (sym (dedupe_skip seen url urls e)) (ground (arith, e), dedupe_loop-Covered seen urls)
        | inr e ↦
            subst (λ ks. All (Covered seen (map u.casefold ks)) (url ∷ urls))
              (sym (dedupe_take seen url urls e))
              (
                ground arith,
                Covered-later (u.casefold (strip url)) seen _ urls
                    (dedupe_loop-Covered (u.casefold (strip url) ∷ seen) urls),
              )
      ]

  Covered-unseen :
      (keys urls : List Text)
      → All (Covered [] keys) urls
      → All
          (λ url. (is_blank (strip url) ≡ true) ⊎ (contains keys (u.casefold (strip url)) ≡ true))
          urls
  Covered-unseen keys [] h = tt
  Covered-unseen keys (url ∷ urls) (h, hs) = (ground (arith, h), Covered-unseen keys urls hs)

  -- No two addresses of the cleaned list fold to the same text, and every address that is not blank
  -- folds to one of them.
  pub dedupe_tracker_urls_lem :
      (urls : List Text)
      → let keys = map u.casefold (dedupe_tracker_urls urls) in
        Nodup keys
        × All
            (λ url. (is_blank (strip url) ≡ true) ⊎ (contains keys (u.casefold (strip url)) ≡ true))
            urls
  unfolding dedupe_tracker_urls
  dedupe_tracker_urls_lem urls =
      (dedupe_loop-Nodup [] urls, Covered-unseen _ urls (dedupe_loop-Covered [] urls))
