-- ===== src/SelectiveQueue/Bencode/Ends.antt =====
-- The reader of torrent files comes to an end (app/services/selective_queue.py).
use q_bittorrent_rss_rules.Prelude.{
  ℕ, zero, suc, subst, ◌+◌, ◌*◌, ◌≤◌, ◌<◌, inl, inr, Option, none, some, Option-cases, Bool-cases,
  [], ◌∷◌, arith, length, ◌=?◌,
}
use q_bittorrent_rss_rules.Prelude.Int.{ℤ, pos, negsuc}
use q_bittorrent_rss_rules.Prelude.Text.{Text}
use q_bittorrent_rss_rules.SelectiveQueue.Bencode.{
  Entries, Decoded, decoded, malformed, negative_index, no_fuel, and_then, until, drop, read_int,
  sized, decode_bencode_bytes, decode_integer, decode_bencode_value, decode_items, decode_entries,
  put, no_entries, integer,
}

-- No number that is read as a length is negative.
abbrev IsNonneg : Option ℤ → Type 0
IsNonneg none = Unit
IsNonneg (some (pos n)) = Unit
IsNonneg (some (negsuc n)) = ⊥

-- The length that a byte text at this place would have, if one can be read.
abbrev length_at : Text → Option ℤ
length_at s = elim (until b':' s) [ none ↦ none | some (digits, rest) ↦ read_int digits ]

-- Nowhere in the text does a negative number stand before the next colon.
abbrev pub IsForward : Text → Type 0
IsForward [] = Unit
IsForward (c ∷ s) = IsNonneg (length_at (c ∷ s)) × IsForward s

-- The reader did not run out of fuel nor went below zero, what it has read is gone from the rest, and
-- there too no length is negative.
abbrev pub Ends : {A : Type 0} → ℕ → Decoded A → Type 0
Ends n (decoded a rest) = (length rest < n) × IsForward rest
Ends n malformed = Unit
Ends n negative_index = ⊥
Ends n no_fuel = ⊥

and_then-Ends :
    {A B : Type 0} (m n : ℕ) (d : Decoded A) (k : A → Text → Decoded B)
    → Ends m d
    → ((a : A) (rest : Text) → length rest < m → IsForward rest → Ends n (k a rest))
    → Ends n (and_then d k)
and_then-Ends m n (decoded a rest) k (h, f) e = e a rest h f
and_then-Ends m n malformed k h e = tt
and_then-Ends m n negative_index k h e = h
and_then-Ends m n no_fuel k h e = h

drop-le : (n : ℕ) (s : Text) → length (drop n s) ≤ length s
unfolding drop
drop-le zero s = omega arith
drop-le (suc n) [] = omega arith
drop-le (suc n) (c ∷ s) = omega (arith, drop-le n s)

drop-IsForward : (n : ℕ) (s : Text) → IsForward s → IsForward (drop n s)
unfolding drop
drop-IsForward zero s f = f
drop-IsForward (suc n) [] f = tt
drop-IsForward (suc n) (c ∷ s) (e, f) = drop-IsForward n s f

-- What is behind a character that was found.
abbrev Shorter : ℕ → Option (Text × Text) → Type 0
Shorter n none = Unit
Shorter n (some (before, after)) = (length after < n) × IsForward after

push-Shorter :
    (d n : ℕ) (o : Option (Text × Text))
    → Shorter n o
    → Shorter (suc n) (elim o [ none ↦ none | some (before, after) ↦ some (d ∷ before, after) ])
push-Shorter d n none h = tt
push-Shorter d n (some (before, after)) (h, f) = (omega (arith, h), f)

until-Shorter : (c : ℕ) (s : Text) → IsForward s → Shorter (length s) (until c s)
unfolding until
until-Shorter c [] f = tt
until-Shorter c (d ∷ s) (n, f) = elim (Bool-cases (c =? d)) [
  | inl e ↦ rw e (omega arith, f)
  | inr e ↦ rw e (push-Shorter d (length s) (until c s) (until-Shorter c s f))
]

sized-Ends :
    (whole : Text) (n : ℤ) (rest : Text) (m : ℕ)
    → IsNonneg (some n)
    → length rest < m
    → IsForward rest
    → Ends m (sized whole n rest)
unfolding sized
sized-Ends whole (pos n) rest m k h f = (omega (arith, h, drop-le n rest), drop-IsForward n rest f)
sized-Ends whole (negsuc n) rest m k h f = elim k [ ]

read_bytes-Ends :
    (whole : Text) (m : ℕ) (o : Option (Text × Text))
    → IsNonneg (elim o [ none ↦ none | some (digits, rest) ↦ read_int digits ])
    → Shorter m o
    → Ends m (elim o [
      | none ↦ malformed
      | some (digits, rest) ↦ elim (read_int digits) [
        | none ↦ malformed
        | some n ↦ sized whole n rest
      ]
    ])
read_bytes-Ends whole m none k h = tt
read_bytes-Ends whole m (some (digits, rest)) k (h, f) = elim (Option-cases (read_int digits)) [
  | inl e ↦ rw e tt
  | inr (n, e) ↦ rw e (sized-Ends whole n rest m (subst IsNonneg e k) h f)
]

bytes-Ends :
    (whole : Text) (c : ℕ) (s : Text)
    → IsForward (c ∷ s)
    → Ends (suc (length s)) (decode_bencode_bytes whole (c ∷ s))
unfolding decode_bencode_bytes
bytes-Ends whole c s (k, f) =
    read_bytes-Ends whole (suc (length s)) (until b':' (c ∷ s)) k
      (until-Shorter b':' (c ∷ s) (k, f))

read_integer-Ends :
    (m : ℕ) (o : Option (Text × Text))
    → Shorter m o
    → Ends m (elim o [
      | none ↦ malformed
      | some (digits, rest) ↦ elim (read_int digits) [
        | none ↦ malformed
        | some n ↦ decoded (integer n) rest
      ]
    ])
read_integer-Ends m none h = tt
read_integer-Ends m (some (digits, rest)) h = elim (Option-cases (read_int digits)) [
  | inl e ↦ rw e tt
  | inr (n, e) ↦ rw e h
]

weaken-Ends : {A : Type 0} (m n : ℕ) (d : Decoded A) → m ≤ n → Ends m d → Ends n d
weaken-Ends m n (decoded a rest) l (h, f) = (omega (arith, l, h), f)
weaken-Ends m n malformed l h = tt
weaken-Ends m n negative_index l h = h
weaken-Ends m n no_fuel l h = h

integer-Ends : (s : Text) → IsForward s → Ends (suc (length s)) (decode_integer s)
integer-Ends s f =
    weaken-Ends (length s) (suc (length s)) (decode_integer s) (omega arith)
      (read_integer-Ends (length s) (until b'e' s) (until-Shorter b'e' s f))

mutual
  unfolding decode_bencode_value

  value-Ends :
      (fuel : ℕ) (whole torrent : Text)
      → 2 * length torrent < fuel
      → IsForward torrent
      → Ends (length torrent) (decode_bencode_value fuel whole torrent)
  value-Ends zero whole s h f = ground (arith, h)
  value-Ends (suc fuel) whole [] h f = tt
  value-Ends (suc fuel) whole (token ∷ s) h fw = elim (Bool-cases (token =? b'i')) [
    | inl e ↦ rw (e, decode_bencode_value) (integer-Ends s fw.1)
    | inr e ↦ elim (Bool-cases (token =? b'l')) [
      | inl f ↦
          rw (e, f, decode_bencode_value)
            (and_then-Ends (length s) (suc (length s)) (decode_items fuel whole s) _
              (items-Ends fuel whole s (omega (arith, h)) fw.1)
              (λ a rest l f. (omega (arith, l), f)))
      | inr f ↦ elim (Bool-cases (token =? b'd')) [
        | inl g ↦
            rw (e, f, g, decode_bencode_value)
              (and_then-Ends (length s) (suc (length s)) (decode_entries fuel whole no_entries s) _
                (entries-Ends fuel whole no_entries s (omega (arith, h)) fw.1)
                (λ a rest l f. (omega (arith, l), f)))
        | inr g ↦
            rw (e, f, g, decode_bencode_value)
              (and_then-Ends (suc (length s)) (suc (length s))
                (decode_bencode_bytes whole (token ∷ s)) _ (bytes-Ends whole token s fw)
                (λ a rest l f. (l, f)))
      ]
    ]
  ]

  items-Ends :
      (fuel : ℕ) (whole torrent : Text)
      → 2 * length torrent + 1 < fuel
      → IsForward torrent
      → Ends (length torrent) (decode_items fuel whole torrent)
  items-Ends zero whole s h f = ground (arith, h)
  items-Ends (suc fuel) whole [] h f = tt
  items-Ends (suc fuel) whole (token ∷ s) h fw = elim (Bool-cases (token =? b'e')) [
    | inl e ↦ rw (e, decode_items) (omega arith, fw.1)
    | inr e ↦
        rw (e, decode_items)
          (and_then-Ends (suc (length s)) (suc (length s))
            (decode_bencode_value fuel whole (token ∷ s)) _
            (value-Ends fuel whole (token ∷ s) (omega (arith, h)) fw)
            (λ a rest l f.
              and_then-Ends (length rest) (suc (length s)) (decode_items fuel whole rest) _
                (items-Ends fuel whole rest (omega (arith, h, l)) f)
                (λ b rest' k f'. (omega (arith, k, l), f'))))
  ]

  entries-Ends :
      (fuel : ℕ) (whole : Text) (mapping : Entries) (torrent : Text)
      → 2 * length torrent + 1 < fuel
      → IsForward torrent
      → Ends (length torrent) (decode_entries fuel whole mapping torrent)
  entries-Ends zero whole m s h f = ground (arith, h)
  entries-Ends (suc fuel) whole m [] h f = tt
  entries-Ends (suc fuel) whole m (token ∷ s) h fw = elim (Bool-cases (token =? b'e')) [
    | inl e ↦ rw (e, decode_entries) (omega arith, fw.1)
    | inr e ↦
        rw (e, decode_entries)
          (and_then-Ends (suc (length s)) (suc (length s)) (decode_bencode_bytes whole (token ∷ s))
            _ (bytes-Ends whole token s fw)
            (λ key rest l f.
              and_then-Ends (length rest) (suc (length s)) (decode_bencode_value fuel whole rest) _
                (value-Ends fuel whole rest (omega (arith, h, l)) f)
                (λ value rest' k f'.
                  weaken-Ends (length rest') (suc (length s)) _ (omega (arith, k, l))
                    (entries-Ends fuel whole (put key value m) rest' (omega (arith, h, k, l)) f'))))
  ]

-- In a file where nowhere a negative number stands before the next colon, two units of fuel for each
-- character of the rest and one more are enough to read a value from the rest: the reader ends, with a
-- value or with an error, its index never goes below zero, and where it reads a value, the rest that it
-- leaves is shorter.
pub decode_bencode_value-Ends :
    (fuel : ℕ) (whole torrent : Text)
    → 2 * length torrent < fuel
    → IsForward torrent
    → Ends (length torrent) (decode_bencode_value fuel whole torrent)
decode_bencode_value-Ends fuel whole torrent h f = value-Ends fuel whole torrent h f
