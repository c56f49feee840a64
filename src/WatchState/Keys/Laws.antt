-- ===== src/WatchState/Keys/Laws.antt =====
-- Printing and reading episode keys, and lists of keys (app/services/watch_state.py).
use mathlib.Core.List.{reverse}
use q_bittorrent_rss_rules.Prelude.{
  ℕ, zero, suc, ◌+◌, ◌*◌, ◌/◌, ◌%◌, ◌≤◌, ◌<◌, ◌≡◌, refl, ◌∙◌, ap, ◌≡⟨◌⟩◌, ◌∎, inl, inr, true, false,
  Option, none, some, [], ◌∷◌, arith, ltb, text_eq, Option-cases, Bool-cases,
}
use q_bittorrent_rss_rules.Prelude.Text.{Text, strip, lstrip, is_space, show_digits, show_02d}
use q_bittorrent_rss_rules.Prelude.Unicode.{Unicode}
use q_bittorrent_rss_rules.WatchState.Keys.{
  bounded_number, format_episode_key, digits_1_2, match_episode_key, watch_state_episode_key_tuple,
  watch_state_episode_key_from_tuple, normalized_key, end_key, episode_part,
}

pub show_digits-two :
    (n : ℕ) → 10 ≤ n → n < 100 → show_digits (suc n) n [] ≡ (b'0' + n / 10) ∷ (b'0' + n % 10) ∷ []
unfolding show_digits
show_digits-two zero l h = absurd (omega arith)
show_digits-two (suc n) l h = ground arith

show_digits-one : (n : ℕ) → n < 10 → show_digits (suc n) n [] ≡ (b'0' + n % 10) ∷ []
unfolding show_digits
show_digits-one n h = ground arith

-- A number below 100 is printed with two digits.
pub show_02d-digits : (n : ℕ) → n < 100 → show_02d n ≡ (b'0' + n / 10) ∷ (b'0' + n % 10) ∷ []
unfolding show_02d
show_02d-digits n h = elim (Bool-cases (ltb n 10)) [
  | inl l ↦ rw (show_digits-one n (ground arith)) (ground arith)
  | inr l ↦ rw (show_digits-two n (ground arith) h) (ground arith)
]

lstrip_solid : (c : ℕ) (s : Text) → is_space c ≡ false → lstrip (c ∷ s) ≡ c ∷ s
unfolding lstrip
lstrip_solid c s h = ground arith

strip_solid :
    (a b c d e f : ℕ)
    → is_space a ≡ false
    → is_space f ≡ false
    → strip (a ∷ b ∷ c ∷ d ∷ e ∷ f ∷ []) ≡ a ∷ b ∷ c ∷ d ∷ e ∷ f ∷ []
unfolding strip
strip_solid a b c d e f h k =
    reverse (lstrip (reverse (lstrip (a ∷ b ∷ c ∷ d ∷ e ∷ f ∷ []))))
    ≡⟨ ap (λ s. reverse (lstrip (reverse s))) (lstrip_solid a (b ∷ c ∷ d ∷ e ∷ f ∷ []) h) ⟩
      reverse (lstrip (f ∷ e ∷ d ∷ c ∷ b ∷ a ∷ []))
    ≡⟨ ap reverse (lstrip_solid f (e ∷ d ∷ c ∷ b ∷ a ∷ []) k) ⟩ a ∷ b ∷ c ∷ d ∷ e ∷ f ∷ [] ∎

digit_solid : (d : ℕ) → d < 10 → is_space (b'0' + d) ≡ false
unfolding is_space
digit_solid d h = ground arith

-- The printed form of a key with two-digit numbers.
unfoldable pub key_text : ℕ → ℕ → Text
key_text s e =
    b'S' ∷ (b'0' + s / 10) ∷ (b'0' + s % 10) ∷ b'E' ∷ (b'0' + e / 10) ∷ (b'0' + e % 10) ∷ []

pub format_episode_key-text : (s e : ℕ) → s < 100 → e < 100 → format_episode_key s e ≡ key_text s e
unfolding format_episode_key key_text
format_episode_key-text s e h k = rw (show_02d-digits s h, show_02d-digits e k)

strip-key_text : (s e : ℕ) → strip (key_text s e) ≡ key_text s e
unfolding key_text is_space
strip-key_text s e = strip_solid _ _ _ _ _ _ refl (digit_solid (e % 10) (omega arith))

bounded_number-eq : (n : ℕ) → n < 100 → bounded_number true n ≡ n
unfolding bounded_number
bounded_number-eq n h = omega arith

-- A canonical key: the printed form of two numbers below 100.
abbrev pub IsKey : Text → Type 0
IsKey k = (s : ℕ) × (e : ℕ) × (s < 100) × (e < 100) × (k ≡ format_episode_key s e)

module _ ⦃u : Unicode⦄ where
  pub digits_1_2_two :
      (a b : ℕ) (rest : Text)
      → a < 10
      → b < 10
      → digits_1_2 ((b'0' + a) ∷ (b'0' + b) ∷ rest) ≡ some (10 * a + b, rest)
  unfolding digits_1_2
  digits_1_2_two a b rest h k = ground (arith, u.decimal_ascii a h, u.decimal_ascii b k)

  match-key_text : (s e : ℕ) → s < 100 → e < 100 → match_episode_key (key_text s e) ≡ some (s, e)
  unfolding match_episode_key key_text
  match-key_text s e h k = ground (
    arith,
    digits_1_2_two (s / 10) (s % 10) (b'E' ∷ (b'0' + e / 10) ∷ (b'0' + e % 10) ∷ []) (omega arith)
        (omega arith),
    digits_1_2_two (e / 10) (e % 10) [] (omega arith) (omega arith),
  )

  -- A printed key of a season and an episode below 100 is read back as the same numbers.
  pub episode_key_roundtrip :
      (season episode : ℕ)
      → season < 100
      → episode < 100
      → watch_state_episode_key_tuple (watch_state_episode_key_from_tuple (season, episode))
        ≡ some (season, episode)
  unfolding watch_state_episode_key_tuple watch_state_episode_key_from_tuple is_space key_text
  episode_key_roundtrip s e h k =
      rw (format_episode_key-text s e h k, strip-key_text s e) (match-key_text s e h k)

  pub canonical_tuple :
      (s e : ℕ)
      → s < 100
      → e < 100
      → watch_state_episode_key_tuple (format_episode_key s e) ≡ some (s, e)
  unfolding watch_state_episode_key_from_tuple
  canonical_tuple s e h k = episode_key_roundtrip s e h k

  digits_1_2-lt : (t : Text) (n : ℕ) (rest : Text) → digits_1_2 t ≡ some (n, rest) → n < 100
  unfolding digits_1_2
  digits_1_2-lt [] n rest h = cc
  digits_1_2-lt (c ∷ []) n rest h = elim (Option-cases (u.decimal c)) [
    | inl e ↦ ground (arith, e)
    | inr (d, e) ↦ ground (arith, e, u.decimal_lt c d e)
  ]
  digits_1_2-lt (c ∷ c' ∷ s) n rest h = elim (Option-cases (u.decimal c)) [
    | inl e ↦ ground (arith, e)
    | inr (d, e) ↦ elim (Option-cases (u.decimal c')) [
      | inl e' ↦ ground (arith, e, e', u.decimal_lt c d e)
      | inr (d', e') ↦ ground (arith, e, e', u.decimal_lt c d e, u.decimal_lt c' d' e')
    ]
  ]

  end_key-lt :
      (n : ℕ) (o : Option (ℕ × Text)) (s e : ℕ)
      → ((m : ℕ) (r : Text) → o ≡ some (m, r) → m < 100)
      → end_key n o ≡ some (s, e)
      → (s ≡ n) × (e < 100)
  unfolding end_key
  end_key-lt n none s e b h = cc
  end_key-lt n (some (m, r)) s e b h = ground (arith, b m r refl)

  episode_part-lt :
      (o : Option (ℕ × Text)) (s e : ℕ)
      → ((m : ℕ) (r : Text) → o ≡ some (m, r) → m < 100)
      → episode_part o ≡ some (s, e)
      → (s < 100) × (e < 100)
  unfolding episode_part
  episode_part-lt none s e b h = cc
  episode_part-lt (some (n, [])) s e b h = cc
  episode_part-lt (some (n, c ∷ r)) s e b h =
      ground (arith, b n (c ∷ r) refl, end_key-lt n (digits_1_2 r) s e (digits_1_2-lt r))

  -- Both numbers of a text that matches are below 100, in whatever digits it is written.
  pub match-lt : (t : Text) (s e : ℕ) → match_episode_key t ≡ some (s, e) → (s < 100) × (e < 100)
  unfolding match_episode_key
  match-lt [] s e h = cc
  match-lt (c ∷ t) s e h = ground (arith, episode_part-lt (digits_1_2 t) s e (digits_1_2-lt t))

  pub normalized_key-IsKey : (raw k : Text) → normalized_key raw ≡ some k → IsKey k
  unfolding normalized_key
  normalized_key-IsKey raw k h = elim (Option-cases (match_episode_key (strip raw))) [
    | inl e ↦ ground (arith, e)
    | inr ((s, n), e) ↦
        let b = match-lt (strip raw) s n e in
        (s, n, b.0, b.1, ground (arith, e, bounded_number-eq s b.0, bounded_number-eq n b.1))
  ]

  match-format :
      (s e : ℕ)
      → s < 100
      → e < 100
      → match_episode_key (strip (format_episode_key s e)) ≡ some (s, e)
  match-format s e hs he =
      ap (λ t. match_episode_key (strip t)) (format_episode_key-text s e hs he)
      ∙ ap match_episode_key (strip-key_text s e)
      ∙ match-key_text s e hs he

  pub normalized_key_self : (k : Text) → IsKey k → normalized_key k ≡ some k
  unfolding normalized_key
  normalized_key_self k (s, e, hs, he, eq) =
      ground (arith, eq, match-format s e hs he, bounded_number-eq s hs, bounded_number-eq e he)
