-- ===== src/WatchState/Keys/Lists.antt =====
-- What `normalize_watch_state_episode_keys` returns (app/services/watch_state.py).
use q_bittorrent_rss_rules.Prelude.{
  ◌≡◌, refl, ◌∙◌, ap, inl, inr, true, false, Option, none, some, List, [], ◌∷◌, arith, contains,
  text_eq, Nodup, Bool-cases,
}
use q_bittorrent_rss_rules.Prelude.Text.{Text}
use q_bittorrent_rss_rules.Prelude.Unicode.{Unicode}
use q_bittorrent_rss_rules.WatchState.Keys.{
  normalized_key, normalize_loop, normalize_watch_state_episode_keys,
}
use q_bittorrent_rss_rules.WatchState.Keys.Laws.{IsKey, normalized_key-IsKey, normalized_key_self}

abbrev pub AllKeys : List Text → Type 0
AllKeys [] = Unit
AllKeys (k ∷ ks) = IsKey k × AllKeys ks

-- No key of the list was seen before.
abbrev Unseen : List Text → List Text → Type 0
Unseen seen [] = Unit
Unseen seen (k ∷ ks) = (contains seen k ≡ false) × Unseen seen ks

Unseen-tail : (key : Text) (seen ks : List Text) → Unseen (key ∷ seen) ks → Unseen seen ks
Unseen-tail key seen [] h = tt
Unseen-tail key seen (k ∷ ks) (h, hs) = (ground arith, Unseen-tail key seen ks hs)

Unseen-absent :
    (key : Text) (seen ks : List Text) → Unseen (key ∷ seen) ks → contains ks key ≡ false
Unseen-absent key seen [] h = refl
Unseen-absent key seen (k ∷ ks) (h, hs) = ground (arith, Unseen-absent key seen ks hs)

Unseen-cons :
    (key : Text) (seen ks : List Text)
    → contains ks key ≡ false
    → Unseen seen ks
    → Unseen (key ∷ seen) ks
Unseen-cons key seen [] h u = tt
Unseen-cons key seen (k ∷ ks) h (v, u) = (ground arith, Unseen-cons key seen ks (ground arith) u)

Unseen-nil : (ks : List Text) → Unseen [] ks
Unseen-nil [] = tt
Unseen-nil (k ∷ ks) = (refl, Unseen-nil ks)

module _ ⦃u : Unicode⦄ where
  -- A list of canonical keys without repetition, none of them seen before.
  record IsFresh (seen ks : List Text) : Type 0 where
    keys : AllKeys ks
    nodup : Nodup ks
    unseen : Unseen seen ks

  module _ (seen : List Text) (raw : Text) (items : List Text) where
    loop_none :
        normalized_key raw ≡ none → normalize_loop seen (raw ∷ items) ≡ normalize_loop seen items
    unfolding normalize_loop
    loop_none e = rw (e, normalize_loop)

    loop_seen :
        (key : Text)
        → normalized_key raw ≡ some key
        → contains seen key ≡ true
        → normalize_loop seen (raw ∷ items) ≡ normalize_loop seen items
    unfolding normalize_loop
    loop_seen key e c = ground (arith, e)

    loop_new :
        (key : Text)
        → normalized_key raw ≡ some key
        → contains seen key ≡ false
        → normalize_loop seen (raw ∷ items) ≡ key ∷ normalize_loop (key ∷ seen) items
    unfolding normalize_loop
    loop_new key e c = ground (arith, e)

  cons-IsFresh :
      (key : Text) (seen ks : List Text)
      → IsKey key
      → contains seen key ≡ false
      → IsFresh (key ∷ seen) ks
      → IsFresh seen (key ∷ ks)
  cons-IsFresh key seen ks k c f = record {
    keys = (k, f.keys);
    nodup = (Unseen-absent key seen ks f.unseen, f.nodup);
    unseen = (c, Unseen-tail key seen ks f.unseen);
  }

  normalize_loop-IsFresh : (seen items : List Text) → IsFresh seen (normalize_loop seen items)
  normalize_loop-IsFresh seen [] =
      unfold normalize_loop in record { keys = tt; nodup = tt; unseen = tt }
  normalize_loop-IsFresh seen (raw ∷ items) =
      step (normalized_key raw) refl (normalize_loop-IsFresh seen items)
        (λ key. normalize_loop-IsFresh (key ∷ seen) items)
    where
      step :
          (o : Option Text)
          → normalized_key raw ≡ o
          → IsFresh seen (normalize_loop seen items)
          → ((key : Text) → IsFresh (key ∷ seen) (normalize_loop (key ∷ seen) items))
          → IsFresh seen (normalize_loop seen (raw ∷ items))
      step none e skip take = rw (loop_none seen raw items e) skip
      step (some key) e skip take = elim (Bool-cases (contains seen key)) [
        | inl c ↦ rw (loop_seen seen raw items key e c) skip
        | inr c ↦ rw (loop_new seen raw items key e c) (
            cons-IsFresh key seen (normalize_loop (key ∷ seen) items)
              (normalized_key-IsKey raw key e) c (take key))
      ]

  normalize_loop_self :
      (seen ks : List Text) → AllKeys ks → Nodup ks → Unseen seen ks → normalize_loop seen ks ≡ ks
  normalize_loop_self seen [] a n f = unfold normalize_loop in refl
  normalize_loop_self seen (k ∷ ks) (a, as') (n, ns) (f, fs) =
      loop_new seen k ks k (normalized_key_self k a) f
      ∙ ap (◌∷◌ k) (normalize_loop_self (k ∷ seen) ks as' ns (Unseen-cons k seen ks n fs))

  -- Every normalized list holds only canonical keys SxxEyy with numbers below 100, none of them
  -- twice, and normalizing it again changes nothing.
  pub normalize_lem :
      (value : List Text)
      → let keys = normalize_watch_state_episode_keys value in
        AllKeys keys × Nodup keys × (normalize_watch_state_episode_keys keys ≡ keys)
  unfolding normalize_watch_state_episode_keys
  normalize_lem value =
      let f = normalize_loop-IsFresh [] value in
      (
        f.keys,
        f.nodup,
        normalize_loop_self [] (normalize_loop [] value) f.keys f.nodup (Unseen-nil _),
      )
