-- ===== src/SelectiveQueue/Bencode/Format.antt =====
-- The format of torrent files that the reader of app/services/selective_queue.py is for.
use q_bittorrent_rss_rules.Prelude.{
  ℕ, suc, ◌+◌, ◌*◌, ◌≤◌, Bool, true, false, not, ◌&&◌, ◌||◌, ◌∷◌, ◌++◌, arith, length,
  length-append, ◌==◌, text_eq,
}
use q_bittorrent_rss_rules.Prelude.Int.{ℤ, pos, negsuc}
use q_bittorrent_rss_rules.Prelude.Text.{Text, show}
use q_bittorrent_rss_rules.SelectiveQueue.Bencode.{
  Value, integer, byte_text, list, dictionary, Values, no_items, items, Entries, no_entries,
  entries, put,
}

-- The format: an integer between i and e, a length and a colon before a text, a list between l and e,
-- a dictionary between d and e. What is written comes before a rest.
unfoldable pub write_int : ℤ → Text → Text
write_int (pos n) rest = show n ++ rest
write_int (negsuc n) rest = b'-' ∷ (show (suc n) ++ rest)

unfoldable pub write_bytes : Text → Text → Text
write_bytes s rest = show (length s) ++ b':' ∷ (s ++ rest)

unfoldable mutual
  unfolding write_int write_bytes

  pub write_value : Value → Text → Text
  write_value (integer n) rest = b'i' ∷ write_int n (b'e' ∷ rest)
  write_value (byte_text s) rest = write_bytes s rest
  write_value (list vs) rest = b'l' ∷ write_items vs rest
  write_value (dictionary es) rest = b'd' ∷ write_entries es rest

  pub write_items : Values → Text → Text
  write_items no_items rest = b'e' ∷ rest
  write_items (items v vs) rest = write_value v (write_items vs rest)

  pub write_entries : Entries → Text → Text
  write_entries no_entries rest = b'e' ∷ rest
  write_entries (entries k v es) rest = write_bytes k (write_value v (write_entries es rest))

-- No key of the dictionary is there, and then none of the rest is its second entry.
unfoldable pub has_key : Text → Entries → Bool
unfolding text_eq
has_key key no_entries = false
has_key key (entries k v es) = k == key || has_key key es

unfoldable mutual
  unfolding has_key put

  pub distinct_keys : Value → Bool
  distinct_keys (integer n) = true
  distinct_keys (byte_text s) = true
  distinct_keys (list vs) = distinct_in_items vs
  distinct_keys (dictionary es) = distinct_in_entries no_entries es

  pub distinct_in_items : Values → Bool
  distinct_in_items no_items = true
  distinct_in_items (items v vs) = distinct_keys v && distinct_in_items vs

  pub distinct_in_entries : Entries → Entries → Bool
  distinct_in_entries before no_entries = true
  distinct_in_entries before (entries k v es) =
      not (has_key k before) && (distinct_keys v && distinct_in_entries (put k v before) es)

-- How many calls the reading of a value takes.
unfoldable mutual
  pub calls : Value → ℕ
  calls (integer n) = 1
  calls (byte_text s) = 1
  calls (list vs) = suc (calls_of_items vs)
  calls (dictionary es) = suc (calls_of_entries es)

  pub calls_of_items : Values → ℕ
  calls_of_items no_items = 1
  calls_of_items (items v vs) = suc (calls v + calls_of_items vs)

  pub calls_of_entries : Entries → ℕ
  calls_of_entries no_entries = 1
  calls_of_entries (entries k v es) = suc (calls v + calls_of_entries es)

pub calls-pos : (v : Value) → 1 ≤ calls v
unfolding calls
calls-pos (integer n) = omega arith
calls-pos (byte_text s) = omega arith
calls-pos (list vs) = omega arith
calls-pos (dictionary es) = omega arith

pub calls_of_items-pos : (vs : Values) → 1 ≤ calls_of_items vs
unfolding calls
calls_of_items-pos no_items = omega arith
calls_of_items-pos (items v vs) = omega arith

pub calls_of_entries-pos : (es : Entries) → 1 ≤ calls_of_entries es
unfolding calls
calls_of_entries-pos no_entries = omega arith
calls_of_entries-pos (entries k v es) = omega arith

write_int-length : (n : ℤ) (rest : Text) → length rest ≤ length (write_int n rest)
unfolding write_int
write_int-length (pos n) rest = omega (arith, length-append (show n) rest)
write_int-length (negsuc n) rest = omega (arith, length-append (show (suc n)) rest)

pub write_bytes-length : (s rest : Text) → suc (length rest) ≤ length (write_bytes s rest)
unfolding write_bytes
write_bytes-length s rest =
    omega (arith, length-append (show (length s)) (b':' ∷ (s ++ rest)), length-append s rest)

-- Each call belongs to a character of its own, or to two.
mutual
  unfolding calls write_value

  pub calls-length :
      (v : Value) (rest : Text) → suc (calls v + 2 * length rest) ≤ 2 * length (write_value v rest)
  calls-length (integer n) rest = omega (arith, write_int-length n (b'e' ∷ rest))
  calls-length (byte_text s) rest = omega (arith, write_bytes-length s rest)
  calls-length (list vs) rest = omega (arith, items-length vs rest)
  calls-length (dictionary es) rest = omega (arith, entries-length es rest)

  items-length :
      (vs : Values) (rest : Text)
      → suc (calls_of_items vs + 2 * length rest) ≤ 2 * length (write_items vs rest)
  items-length no_items rest = omega arith
  items-length (items v vs) rest =
      omega (arith, items-length vs rest, calls-length v (write_items vs rest))

  entries-length :
      (es : Entries) (rest : Text)
      → suc (calls_of_entries es + 2 * length rest) ≤ 2 * length (write_entries es rest)
  entries-length no_entries rest = omega arith
  entries-length (entries k v es) rest = omega (
    arith,
    entries-length es rest,
    calls-length v (write_entries es rest),
    write_bytes-length k (write_value v (write_entries es rest)),
  )
