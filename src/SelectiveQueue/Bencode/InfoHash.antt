-- ===== src/SelectiveQueue/Bencode/InfoHash.antt =====
-- The info hash of a torrent file is that of its info dictionary (app/services/selective_queue.py).
use q_bittorrent_rss_rules.Prelude.{
  ℕ, zero, suc, ◌*◌, ◌≤◌, ◌<◌, ◌≡◌, refl, sym, ap, ◌∙◌, inl, inr, true, false, ◌||◌, Option, none,
  some, Bool-cases, [], ◌∷◌, ◌++◌, append_assoc, arith, length, length-append, ◌=?◌, if◌then◌else◌,
  ◌==◌, text_eq,
}
use q_bittorrent_rss_rules.Prelude.Int.{ℤ, pos, negsuc}
use q_bittorrent_rss_rules.Prelude.Text.{Text, codes, show}
use q_bittorrent_rss_rules.SelectiveQueue.Bencode.{
  Value, integer, byte_text, list, dictionary, Values, no_items, items, Entries, no_entries,
  entries, take, put, decode_bencode_value, decode_bencode_bytes,
}
use q_bittorrent_rss_rules.SelectiveQueue.Bencode.Format.{
  write_int, write_bytes, write_value, write_items, write_entries, distinct_keys,
  distinct_in_entries, has_key, write_bytes-length, calls-length,
}
use q_bittorrent_rss_rules.SelectiveQueue.Bencode.Numbers.{IsNumeral, show-IsNumeral}
use q_bittorrent_rss_rules.SelectiveQueue.Bencode.RoundTrip.{
  take-append, bytes-read, joined, put-joined, joined-nil, decode_bencode_value-write_value,
}
use q_bittorrent_rss_rules.SelectiveQueue.Bencode.Torrent.{
  get_entry, root_read, then_read, slice, decode_root, parsed, parse_torrent_info, after_root,
}

write_int-append : (n : ℤ) (a b : Text) → write_int n (a ++ b) ≡ write_int n a ++ b
unfolding write_int
write_int-append (pos n) a b = sym (append_assoc (show n) a b)
write_int-append (negsuc n) a b = ap (λ t. b'-' ∷ t) (sym (append_assoc (show (suc n)) a b))

write_bytes-append : (s a b : Text) → write_bytes s (a ++ b) ≡ write_bytes s a ++ b
unfolding write_bytes
write_bytes-append s a b =
    ap (λ t. show (length s) ++ b':' ∷ t) (sym (append_assoc s a b))
    ∙ sym (append_assoc (show (length s)) (b':' ∷ (s ++ a)) b)

mutual
  unfolding write_value

  value-append : (v : Value) (a b : Text) → write_value v (a ++ b) ≡ write_value v a ++ b
  value-append (integer n) a b = ap (λ t. b'i' ∷ t) (write_int-append n (b'e' ∷ a) b)
  value-append (byte_text s) a b = write_bytes-append s a b
  value-append (list vs) a b = ap (λ t. b'l' ∷ t) (items-append vs a b)
  value-append (dictionary es) a b = ap (λ t. b'd' ∷ t) (entries-append es a b)

  items-append : (vs : Values) (a b : Text) → write_items vs (a ++ b) ≡ write_items vs a ++ b
  items-append no_items a b = refl
  items-append (items v vs) a b =
      ap (write_value v) (items-append vs a b) ∙ value-append v (write_items vs a) b

  entries-append : (es : Entries) (a b : Text) → write_entries es (a ++ b) ≡ write_entries es a ++ b
  entries-append no_entries a b = refl
  entries-append (entries k v es) a b =
      ap (λ t. write_bytes k (write_value v t)) (entries-append es a b)
      ∙ ap (write_bytes k) (value-append v (write_entries es a) b)
      ∙ write_bytes-append k (write_value v (write_entries es a)) b

-- The slice of a value is the value as it is written.
slice-append : (w rest : Text) → slice (w ++ rest) rest ≡ w
slice-append w rest =
    ap (λ n. take n (w ++ rest)) (omega (arith, length-append w rest)) ∙ take-append w rest

slice-write_value : (v : Value) (rest : Text) → slice (write_value v rest) rest ≡ write_value v []
slice-write_value v rest =
    ap (λ t. slice t rest) (value-append v [] rest) ∙ slice-append (write_value v []) rest

-- The slice that the loop over some entries keeps.
info_of : Option Text → Entries → Option Text
info_of kept no_entries = kept
info_of kept (entries k v es) =
    info_of (if k == codes "info" then some (write_value v []) else kept) es

-- The loop over the root reads an entry.
numeral-root :
    (fuel : ℕ) (whole : Text) (m : Entries) (kept : Option Text) (s t : Text)
    → IsNumeral s
    → decode_root (suc fuel) whole m kept (s ++ t)
      ≡ then_read (decode_bencode_bytes whole (s ++ t)) (λ key from.
        then_read (decode_bencode_value fuel whole from) (λ value to.
          decode_root fuel whole
            (put key value m)
            (if key == codes "info" then some (slice from to) else kept)
            to))
unfolding decode_root
numeral-root fuel whole m kept [] t d = elim d [ ]
numeral-root fuel whole m kept (c ∷ s) t (d, ds) =
    let no_e : (c =? b'e') ≡ false = ground (arith, d) in rw (no_e, decode_root) refl

root-read :
    (fuel : ℕ) (whole : Text) (before es : Entries) (kept : Option Text) (rest : Text)
    → 2 * length (write_entries es rest) < fuel
    → distinct_in_entries before es ≡ true
    → decode_root fuel whole before kept (write_entries es rest)
      ≡ root_read (joined before es) (info_of kept es)
unfolding write_value write_bytes distinct_keys info_of
root-read zero whole before es kept rest h d = ground (arith, h)
root-read (suc fuel) whole before no_entries kept rest h d =
    unfold decode_root in ap (λ m. root_read m kept) (sym (joined-nil before))
root-read (suc fuel) whole before (entries k v es) kept rest h d =
    let from = write_value v (write_entries es rest) in
    numeral-root fuel whole before kept (show (length k)) (b':' ∷ (k ++ from))
      (show-IsNumeral (length k))
    ∙ rw
        (
          bytes-read whole k from,
          decode_bencode_value-write_value fuel whole v (write_entries es rest)
              (omega (arith, h, write_bytes-length k from)) (ground (arith, d)),
          slice-write_value v (write_entries es rest),
        )
        (root-read fuel whole (put k v before) es
            (if k == codes "info" then some (write_value v []) else kept) rest
            (omega (arith, h, write_bytes-length k from, calls-length v (write_entries es rest)))
            (ground (arith, d))
          ∙ ap
              (λ m.
                root_read m
                  (info_of (if k == codes "info" then some (write_value v []) else kept) es))
              (put-joined k v before es (ground (arith, d))))

eq_of_test : (a b : Text) → (a == b) ≡ true → a ≡ b
eq_of_test a b h = ground (arith, h)

-- A key that is there stays there, and is not written again.
has_key-put :
    (key k : Text) (v : Value) (es : Entries)
    → (k == key || has_key key es) ≡ true
    → has_key key (put k v es) ≡ true
unfolding has_key put
has_key-put key k v no_entries h = ground (arith, h)
has_key-put key k v (entries k' v' es) h = elim (Bool-cases (k' == k)) [
  | inl e ↦ rw e (ground (arith, h, eq_of_test k' k e))
  | inr e ↦ elim (Bool-cases (k' == key)) [
    | inl f ↦ rw (e, f) refl
    | inr f ↦ rw (e, f) (has_key-put key k v es (ground (arith, h, f)))
  ]
]

info_of-known :
    (before es : Entries) (kept : Option Text)
    → has_key (codes "info") before ≡ true
    → distinct_in_entries before es ≡ true
    → info_of kept es ≡ kept
unfolding info_of distinct_keys
info_of-known before no_entries kept h d = refl
info_of-known before (entries k v es) kept h d = elim (Bool-cases (k == codes "info")) [
  | inl e ↦ ground (arith, h, d, ap (λ key. has_key key before) (eq_of_test k (codes "info") e))
  | inr e ↦ rw e (
      info_of-known (put k v before) es kept
        (has_key-put (codes "info") k v before (ground (arith, h))) (ground (arith, d)))
]

info_of-get :
    (before es : Entries) (kept : Option Text) (v : Value)
    → distinct_in_entries before es ≡ true
    → get_entry (codes "info") es ≡ some v
    → info_of kept es ≡ some (write_value v [])
unfolding info_of distinct_keys get_entry
info_of-get before no_entries kept v d g = cc
info_of-get before (entries k v' es) kept v d g = elim (Bool-cases (k == codes "info")) [
  | inl e ↦ rw e (
      info_of-known (put k v' before) es (some (write_value v' []))
        (has_key-put (codes "info") k v' before (ground (arith, e))) (ground (arith, d))
      ∙ ap (λ v. some (write_value v [])) (ground (arith, g, e)))
  | inr e ↦
      rw e (info_of-get (put k v' before) es kept v (ground (arith, d)) (ground (arith, g, e)))
]

-- For the file of a root whose dictionaries have no key twice, with an info dictionary among its
-- entries, the reader returns the root and that dictionary, and as info hash the hash of the dictionary
-- alone as it is written in the file; two units of fuel for each character are enough.
pub parse_torrent_info-write_value :
    (sha1 : Text → Text) (fuel : ℕ) (root info : Entries)
    → 2 * length (write_value (dictionary root) []) ≤ fuel
    → distinct_keys (dictionary root) ≡ true
    → get_entry (codes "info") root ≡ some (dictionary info)
    → parse_torrent_info sha1 fuel (write_value (dictionary root) [])
      ≡ parsed (sha1 (write_value (dictionary info) [])) root info
unfolding parse_torrent_info write_value distinct_keys
parse_torrent_info-write_value sha1 fuel root info h d g =
    ap (after_root sha1) (
      root-read fuel (write_value (dictionary root) []) no_entries root none [] (omega (arith, h))
        d)
    ∙ rw (g, info_of-get no_entries root none (dictionary info) d g) refl
