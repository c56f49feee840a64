-- ===== src/SelectiveQueue/Bencode.antt =====
-- The reader of torrent files (app/services/selective_queue.py). An index into the file is the rest of
-- the file from it on; an index behind the end is the empty rest.
pub mod Ends
pub mod Format
pub mod Numbers
pub mod RoundTrip
pub mod Torrent
pub mod InfoHash
use q_bittorrent_rss_rules.Prelude.{
  ℕ, zero, suc, ◌+◌, ◌-◌, ◌*◌, Bool, true, false, ◌&&◌, ◌||◌, not, Option, none, some, List, [],
  ◌∷◌, ◌++◌, leb, ◌=?◌, if◌then◌else◌, length, ◌==◌, text_eq,
}
use q_bittorrent_rss_rules.Prelude.Int.{ℤ, pos, negsuc}
use q_bittorrent_rss_rules.Prelude.Text.{Text, codes}

mutual
  pub data Value : Type 0 where
    integer : ℤ → Value
    byte_text : Text → Value
    list : Values → Value
    dictionary : Entries → Value

  pub data Values : Type 0 where
    no_items : Values
    items : Value → Values → Values

  pub data Entries : Type 0 where
    no_entries : Entries
    entries : Text → Value → Entries → Entries

-- What reading gives: a value and the rest, a ValueError, an index below zero, which Python counts
-- from the end of the file and which is not followed here, or no fuel.
pub data Decoded (A : Type 0) : Type 0 where
  decoded : A → Text → Decoded A
  malformed negative_index no_fuel : Decoded A

abbrev pub and_then : {A B : Type 0} → Decoded A → (A → Text → Decoded B) → Decoded B
and_then (decoded a rest) k = k a rest
and_then malformed k = malformed
and_then negative_index k = negative_index
and_then no_fuel k = no_fuel

-- `mapping[key] = value`
unfoldable pub put : Text → Value → Entries → Entries
unfolding text_eq
put key value no_entries = entries key value no_entries
put key value (entries k v rest) =
    let kept = put key value rest in if k == key then entries k value rest else entries k v kept

-- `data.index(c)`: what is before the first `c`, and what is behind it.
unfoldable pub until : ℕ → Text → Option (Text × Text)
until c [] = none
until c (d ∷ s) =
    let rest = until c s in
    if c =? d
    then some ([], s)
    else elim rest [ none ↦ none | some (before, after) ↦ some (d ∷ before, after) ]

unfoldable pub take : ℕ → Text → Text
take zero s = []
take (suc n) [] = []
take (suc n) (c ∷ s) = c ∷ take n s

unfoldable pub drop : ℕ → Text → Text
drop zero s = s
drop (suc n) [] = []
drop (suc n) (c ∷ s) = drop n s

-- `int` on bytes: white space around it, a sign, digits with single underscores between them.
abbrev pub is_byte_space : ℕ → Bool
is_byte_space c = leb 9 c && leb c 13 || c =? 32

abbrev pub is_byte_digit : ℕ → Bool
is_byte_digit c = leb b'0' c && leb c b'9'

abbrev pub skip_spaces : Text → Text
skip_spaces [] = []
skip_spaces (c ∷ s) = let rest = skip_spaces s in if is_byte_space c then rest else c ∷ s

abbrev only_spaces : Text → Bool
only_spaces [] = true
only_spaces (c ∷ s) = is_byte_space c && only_spaces s

-- Whether the last character was a digit decides if the number may end here.
abbrev pub digits_from : ℕ → Bool → Text → Option ℕ
digits_from n after_digit [] = if after_digit then some n else none
digits_from n after_digit (c ∷ s) =
    let digit = digits_from (10 * n + (c - b'0')) true s in
    let underscore = digits_from n false s in
    if is_byte_digit c
    then digit
    else if not after_digit
    then none
    else if c =? b'_'
    then underscore
    else if only_spaces (c ∷ s)
    then some n
    else none

abbrev pub number : Text → Option ℕ
number s = digits_from 0 false s

abbrev pub positive : Option ℕ → Option ℤ
positive none = none
positive (some n) = some (pos n)

abbrev pub negated : Option ℕ → Option ℤ
negated none = none
negated (some zero) = some (pos 0)
negated (some (suc n)) = some (negsuc n)

unfoldable pub read_int : Text → Option ℤ
read_int s = elim (skip_spaces s) [
  | [] ↦ none
  | c ∷ t ↦
      if c =? b'-'
      then negated (number t)
      else if c =? b'+'
      then positive (number t)
      else positive (number (c ∷ t))
]

-- `data[start:end], end` with `end = start + length`: a negative length gives no bytes and an index that
-- lies before the start.
unfoldable pub sized : (whole : Text) → ℤ → Text → Decoded Text
unfolding take drop
sized whole (pos n) rest = decoded (take n rest) (drop n rest)
sized whole (negsuc n) rest =
    if leb (suc n + length rest) (length whole)
    then decoded [] (drop (length whole - length rest - suc n) whole)
    else negative_index

-- `_decode_bencode_bytes` on the whole file and the rest of it from the index on
unfoldable pub decode_bencode_bytes : (whole : Text) → Text → Decoded Text
unfolding until read_int sized
decode_bencode_bytes whole torrent = elim (until b':' torrent) [
  | none ↦ malformed
  | some (digits, rest) ↦ elim (read_int digits) [ none ↦ malformed | some n ↦ sized whole n rest ]
]

abbrev pub decode_integer : Text → Decoded Value
decode_integer torrent = elim (until b'e' torrent) [
  | none ↦ malformed
  | some (digits, rest) ↦ elim (read_int digits) [
    | none ↦ malformed
    | some n ↦ decoded (integer n) rest
  ]
]

-- The calls and the loops of `_decode_bencode_value`, on fuel.
unfoldable mutual
  unfolding decode_bencode_bytes until read_int put

  pub decode_bencode_value : ℕ → (whole : Text) → Text → Decoded Value
  decode_bencode_value zero whole torrent = no_fuel
  decode_bencode_value (suc fuel) whole [] = malformed
  decode_bencode_value (suc fuel) whole (token ∷ torrent) = elim (token =? b'i') [
    | true ↦ decode_integer torrent
    | false ↦ elim (token =? b'l') [
      | true ↦ and_then (decode_items fuel whole torrent) (λ items rest. decoded (list items) rest)
      | false ↦ elim (token =? b'd') [
        | true ↦
            and_then (decode_entries fuel whole no_entries torrent)
              (λ mapping rest. decoded (dictionary mapping) rest)
        | false ↦
            and_then (decode_bencode_bytes whole (token ∷ torrent))
              (λ bytes rest. decoded (byte_text bytes) rest)
      ]
    ]
  ]

  pub decode_items : ℕ → (whole : Text) → Text → Decoded Values
  decode_items zero whole torrent = no_fuel
  decode_items (suc fuel) whole [] = malformed
  decode_items (suc fuel) whole (token ∷ torrent) = elim (token =? b'e') [
    | true ↦ decoded no_items torrent
    | false ↦ and_then (decode_bencode_value fuel whole (token ∷ torrent)) (λ item rest.
        and_then (decode_items fuel whole rest)
          (λ rest_items rest'. decoded (items item rest_items) rest'))
  ]

  pub decode_entries : ℕ → (whole : Text) → Entries → Text → Decoded Entries
  decode_entries zero whole mapping torrent = no_fuel
  decode_entries (suc fuel) whole mapping [] = malformed
  decode_entries (suc fuel) whole mapping (token ∷ torrent) = elim (token =? b'e') [
    | true ↦ decoded mapping torrent
    | false ↦ and_then (decode_bencode_bytes whole (token ∷ torrent)) (λ key rest.
        and_then (decode_bencode_value fuel whole rest)
          (λ value rest'. decode_entries fuel whole (put key value mapping) rest'))
  ]
