-- ===== src/WatchState/Sorting/Laws.antt =====
-- The order of sorted keys, and the latest episode (app/services/watch_state.py).
use mathlib.Core.List.{Perm}
use mathlib.Core.List.Perm
use q_bittorrent_rss_rules.Prelude.{
  ℕ, ◌≤◌, ◌≡◌, refl, ◌∙◌, ap, sym, subst, ◌⊎◌, inl, inr, true, false, some, List, [], ◌∷◌, map,
  arith, Option-cases, All,
}
use q_bittorrent_rss_rules.Prelude.Text.{Text}
use q_bittorrent_rss_rules.Prelude.Unicode.{Unicode}
use q_bittorrent_rss_rules.Prelude.Sort.{
  sort_by, sort_by-IsSorted, sort_by-perm, sort_by-All, IsSorted,
}
use q_bittorrent_rss_rules.WatchState.Keys.{
  normalize_watch_state_episode_keys, watch_state_episode_key_tuple,
  watch_state_episode_key_from_tuple,
}
use q_bittorrent_rss_rules.WatchState.Keys.Laws.{episode_key_roundtrip}
use q_bittorrent_rss_rules.WatchState.Keys.Lists.{AllKeys, normalize_lem}
use q_bittorrent_rss_rules.WatchState.Sorting.{
  episode_lt, increment_floor, Keyed, keyed_le, keyed, sort_watch_state_episode_keys,
}

pub keyed_total : (a b : Keyed) → keyed_le a b ≡ false → keyed_le b a ≡ true
keyed_total a b h = ground arith

keyed_trans : (a b c : Keyed) → keyed_le a b ≡ true → keyed_le b c ≡ true → keyed_le a c ≡ true
keyed_trans a b c h k = ground arith

-- The floor after an episode is later, except after S99E99, where it stays.
pub increment_floor_lem :
    (season episode : ℕ)
    → season ≤ 99
    → episode ≤ 99
    → (episode_lt (season, episode) (increment_floor season episode) ≡ true)
      ⊎ ((season ≡ 99) × (episode ≡ 99) × (increment_floor season episode ≡ (99, 99)))
unfolding increment_floor
increment_floor_lem season episode h k = ground arith

module _ ⦃u : Unicode⦄ where
  -- The keys of the list are read as episodes in ascending order.
  abbrev pub Ascending : List Text → Type 0
  Ascending ks = IsSorted keyed_le (keyed ks)

  -- Each entry pairs a key with what the key is read as.
  abbrev Paired : Keyed → Type 0
  Paired k = watch_state_episode_key_tuple k.1 ≡ some k.0

  keyed-IsPaired : (ks : List Text) → All Paired (keyed ks)
  unfolding keyed
  keyed-IsPaired [] = tt
  keyed-IsPaired (k ∷ ks) = elim (Option-cases (watch_state_episode_key_tuple k)) [
    | inl e ↦ rw (e, keyed) (keyed-IsPaired ks)
    | inr (v, e) ↦ rw (e, keyed) (e, keyed-IsPaired ks)
  ]

  keyed-map : (ks : List Keyed) → All Paired ks → keyed (map (λ (k : Keyed). k.1) ks) ≡ ks
  unfolding keyed
  keyed-map [] h = refl
  keyed-map (k ∷ ks) (h, hs) = rw (h, keyed) (ap (◌∷◌ k) (keyed-map ks hs))

  map-keyed : (ks : List Text) → AllKeys ks → map (λ (k : Keyed). k.1) (keyed ks) ≡ ks
  unfolding keyed watch_state_episode_key_from_tuple
  map-keyed [] h = refl
  map-keyed (k ∷ ks) ((s, e, hs, he, eq), h) =
      rw (ap watch_state_episode_key_tuple eq ∙ episode_key_roundtrip s e hs he, keyed)
        (ap (◌∷◌ k) (map-keyed ks h))

  -- The sorted list has exactly the keys of the normalized list, in ascending order of their
  -- episodes.
  pub sort_keys_lem :
      (values : List Text)
      → Ascending (sort_watch_state_episode_keys values)
        × Perm (sort_watch_state_episode_keys values) (normalize_watch_state_episode_keys values)
  unfolding sort_watch_state_episode_keys
  sort_keys_lem values =
      let ks = normalize_watch_state_episode_keys values in
      let sorted = sort_by keyed_le (keyed ks) in
      (
        subst (IsSorted keyed_le)
            (sym (keyed-map sorted (sort_by-All keyed_le Paired (keyed ks) (keyed-IsPaired ks))))
            (sort_by-IsSorted keyed_le keyed_total keyed_trans (keyed ks)),
        subst (Perm _) (map-keyed ks (normalize_lem values).0)
            (Perm.map (λ (k : Keyed). k.1) (sort_by-perm keyed_le (keyed ks))),
      )
