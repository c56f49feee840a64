-- ===== src/SelectiveQueue/Bencode/RoundTrip.antt =====
-- Values that are written in the format of torrent files are read back by the reader
-- (app/services/selective_queue.py).
use q_bittorrent_rss_rules.Prelude.{
  ℕ, zero, suc, ◌*◌, ◌≤◌, ◌≡◌, refl, sym, ap, ◌∙◌, true, false, some, [], ◌∷◌, ◌++◌, arith, length,
  ◌=?◌, ◌==◌, text_eq,
}
use q_bittorrent_rss_rules.Prelude.Int.{ℤ, pos, negsuc}
use q_bittorrent_rss_rules.Prelude.Text.{Text, show}
use q_bittorrent_rss_rules.SelectiveQueue.Bencode.{
  Value, integer, byte_text, list, dictionary, Values, no_items, items, Entries, no_entries,
  entries, decoded, and_then, until, take, drop, sized, decode_bencode_bytes, decode_integer,
  decode_bencode_value, decode_items, decode_entries, put,
}
use q_bittorrent_rss_rules.SelectiveQueue.Bencode.Format.{
  write_int, write_bytes, write_value, write_items, write_entries, distinct_keys, distinct_in_items,
  distinct_in_entries, calls, calls_of_items, calls_of_entries, has_key, calls-pos,
  calls_of_items-pos, calls_of_entries-pos, calls-length,
}
use q_bittorrent_rss_rules.SelectiveQueue.Bencode.Numbers.{
  read_int-show, read_int-negative, until-show, IsNumeral, show-IsNumeral,
}

pub take-append : (s rest : Text) → take (length s) (s ++ rest) ≡ s
unfolding take
take-append [] rest = refl
take-append (c ∷ s) rest = ap (λ t. c ∷ t) (take-append s rest)

drop-append : (s rest : Text) → drop (length s) (s ++ rest) ≡ rest
unfolding drop
drop-append [] rest = refl
drop-append (c ∷ s) rest = drop-append s rest

pub bytes-read :
    (whole s rest : Text) → decode_bencode_bytes whole (write_bytes s rest) ≡ decoded s rest
unfolding decode_bencode_bytes sized write_bytes
bytes-read whole s rest =
    rw
      (
        until-show b':' (length s) (s ++ rest) refl,
        read_int-show (length s),
        decode_bencode_bytes,
        take-append s rest,
        drop-append s rest,
      )
      refl

until-minus :
    (n : ℕ) (rest : Text) → until b'e' (b'-' ∷ (show n ++ b'e' ∷ rest)) ≡ some (b'-' ∷ show n, rest)
unfolding until
until-minus n rest = rw (until-show b'e' n rest refl) refl

integer-read :
    (n : ℤ) (rest : Text) → decode_integer (write_int n (b'e' ∷ rest)) ≡ decoded (integer n) rest
unfolding write_int
integer-read (pos n) rest = rw (until-show b'e' n rest refl, decode_integer, read_int-show n) refl
integer-read (negsuc n) rest =
    rw (until-minus (suc n) rest, decode_integer, read_int-negative n) refl

abbrev pub joined : Entries → Entries → Entries
joined no_entries es = es
joined (entries k v before) es = entries k v (joined before es)

pub put-joined :
    (k : Text) (v : Value) (before es : Entries)
    → has_key k before ≡ false
    → joined (put k v before) es ≡ joined before (entries k v es)
unfolding put has_key
put-joined k v no_entries es h = refl
put-joined k v (entries k' v' before) es h =
    let other : (k' == k) ≡ false = ground (arith, h) in
    rw other (ap (λ t. entries k' v' t) (put-joined k v before es (ground (arith, h))))

pub joined-nil : (es : Entries) → joined es no_entries ≡ es
joined-nil no_entries = refl
joined-nil (entries k v es) = ap (λ t. entries k v t) (joined-nil es)

-- A numeral is none of the tokens.
numeral-value :
    (fuel : ℕ) (whole s t : Text)
    → IsNumeral s
    → decode_bencode_value (suc fuel) whole (s ++ t)
      ≡ and_then
          (decode_bencode_bytes whole (s ++ t))
          (λ bytes rest. decoded (byte_text bytes) rest)
unfolding decode_bencode_value
numeral-value fuel whole [] t d = elim d [ ]
numeral-value fuel whole (c ∷ s) t (d, ds) =
    let no_i : (c =? b'i') ≡ false = ground (arith, d) in
    let no_l : (c =? b'l') ≡ false = ground (arith, d) in
    let no_d : (c =? b'd') ≡ false = ground (arith, d) in
    rw (no_i, no_l, no_d, decode_bencode_value) refl

numeral-items :
    (fuel : ℕ) (whole s t : Text)
    → IsNumeral s
    → decode_items (suc fuel) whole (s ++ t)
      ≡ and_then (decode_bencode_value fuel whole (s ++ t)) (λ item rest.
        and_then
          (decode_items fuel whole rest)
          (λ rest_items rest'. decoded (items item rest_items) rest'))
unfolding decode_bencode_value
numeral-items fuel whole [] t d = elim d [ ]
numeral-items fuel whole (c ∷ s) t (d, ds) =
    let no_e : (c =? b'e') ≡ false = ground (arith, d) in rw (no_e, decode_items) refl

numeral-entries :
    (fuel : ℕ) (whole : Text) (m : Entries) (s t : Text)
    → IsNumeral s
    → decode_entries (suc fuel) whole m (s ++ t)
      ≡ and_then (decode_bencode_bytes whole (s ++ t)) (λ key rest.
        and_then
          (decode_bencode_value fuel whole rest)
          (λ value rest'. decode_entries fuel whole (put key value m) rest'))
unfolding decode_bencode_value
numeral-entries fuel whole m [] t d = elim d [ ]
numeral-entries fuel whole m (c ∷ s) t (d, ds) =
    let no_e : (c =? b'e') ≡ false = ground (arith, d) in rw (no_e, decode_entries) refl

-- The loop over the items reads an item.
item-step :
    (fuel : ℕ) (whole : Text) (v : Value) (t : Text)
    → decode_items (suc fuel) whole (write_value v t)
      ≡ and_then (decode_bencode_value fuel whole (write_value v t)) (λ item rest.
        and_then
          (decode_items fuel whole rest)
          (λ rest_items rest'. decoded (items item rest_items) rest'))
unfolding decode_bencode_value write_value write_bytes
item-step fuel whole (integer n) t = refl
item-step fuel whole (byte_text s) t =
    numeral-items fuel whole (show (length s)) (b':' ∷ (s ++ t)) (show-IsNumeral (length s))
item-step fuel whole (list vs) t = refl
item-step fuel whole (dictionary es) t = refl

mutual
  unfolding decode_bencode_value write_value write_bytes calls distinct_keys

  value-read :
      (fuel : ℕ) (whole : Text) (v : Value) (rest : Text)
      → calls v ≤ fuel
      → distinct_keys v ≡ true
      → decode_bencode_value fuel whole (write_value v rest) ≡ decoded v rest
  value-read zero whole v rest h d = ground (arith, h, calls-pos v)
  value-read (suc fuel) whole (integer n) rest h d = integer-read n rest
  value-read (suc fuel) whole (byte_text s) rest h d =
      numeral-value fuel whole (show (length s)) (b':' ∷ (s ++ rest)) (show-IsNumeral (length s))
      ∙ ap (λ r. and_then r (λ bytes rest. decoded (byte_text bytes) rest))
          (bytes-read whole s rest)
  value-read (suc fuel) whole (list vs) rest h d =
      ap (λ r. and_then r (λ items rest. decoded (list items) rest))
        (items-read fuel whole vs rest (omega (arith, h)) d)
  value-read (suc fuel) whole (dictionary es) rest h d =
      ap (λ r. and_then r (λ mapping rest. decoded (dictionary mapping) rest))
        (entries-read fuel whole no_entries es rest (omega (arith, h)) d)

  items-read :
      (fuel : ℕ) (whole : Text) (vs : Values) (rest : Text)
      → calls_of_items vs ≤ fuel
      → distinct_in_items vs ≡ true
      → decode_items fuel whole (write_items vs rest) ≡ decoded vs rest
  items-read zero whole vs rest h d = ground (arith, h, calls_of_items-pos vs)
  items-read (suc fuel) whole no_items rest h d = refl
  items-read (suc fuel) whole (items v vs) rest h d =
      item-step fuel whole v (write_items vs rest)
      ∙ rw
          (
            value-read fuel whole v (write_items vs rest) (omega (arith, h)) (ground (arith, d)),
            items-read fuel whole vs rest (omega (arith, h)) (ground (arith, d)),
          )
          refl

  entries-read :
      (fuel : ℕ) (whole : Text) (before es : Entries) (rest : Text)
      → calls_of_entries es ≤ fuel
      → distinct_in_entries before es ≡ true
      → decode_entries fuel whole before (write_entries es rest) ≡ decoded (joined before es) rest
  entries-read zero whole before es rest h d = ground (arith, h, calls_of_entries-pos es)
  entries-read (suc fuel) whole before no_entries rest h d =
      ap (λ m. decoded m rest) (sym (joined-nil before))
  entries-read (suc fuel) whole before (entries k v es) rest h d =
      numeral-entries fuel whole before (show (length k))
        (b':' ∷ (k ++ write_value v (write_entries es rest))) (show-IsNumeral (length k))
      ∙ rw
          (
            bytes-read whole k (write_value v (write_entries es rest)),
            value-read fuel whole v (write_entries es rest) (omega (arith, h)) (ground (arith, d)),
          )
          (entries-read fuel whole (put k v before) es rest (omega (arith, h)) (ground (arith, d))
            ∙ ap (λ m. decoded m rest) (put-joined k v before es (ground (arith, d))))

-- A value whose dictionaries have no key twice, written in the format of torrent files before any rest,
-- in any file, is read back with that rest, on two units of fuel for each character.
pub decode_bencode_value-write_value :
    (fuel : ℕ) (whole : Text) (v : Value) (rest : Text)
    → 2 * length (write_value v rest) ≤ fuel
    → distinct_keys v ≡ true
    → decode_bencode_value fuel whole (write_value v rest) ≡ decoded v rest
decode_bencode_value-write_value fuel whole v rest h d =
    value-read fuel whole v rest (omega (arith, h, calls-length v rest)) d
