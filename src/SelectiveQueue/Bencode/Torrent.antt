-- ===== src/SelectiveQueue/Bencode/Torrent.antt =====
-- The root of a torrent file and its info hash (app/services/selective_queue.py). The hash, SHA-1, is a
-- parameter.
use q_bittorrent_rss_rules.Prelude.{
  ℕ, zero, suc, ◌-◌, true, false, Option, none, some, [], ◌∷◌, length, ◌=?◌, if◌then◌else◌, ◌==◌,
  text_eq,
}
use q_bittorrent_rss_rules.Prelude.Text.{Text, codes}
use q_bittorrent_rss_rules.SelectiveQueue.Bencode.{
  Value, dictionary, Entries, no_entries, entries, Decoded, decoded, malformed, negative_index,
  no_fuel, take, put, decode_bencode_bytes, decode_bencode_value,
}

-- `mapping.get(key)`
unfoldable pub get_entry : Text → Entries → Option Value
unfolding text_eq
get_entry key no_entries = none
get_entry key (entries k v es) = let rest = get_entry key es in if k == key then some v else rest

-- What the loop over the root leaves: the mapping and the bytes of the info dictionary, the end of the
-- file, a ValueError, an index below zero, which is not followed, or no fuel.
pub data RootRead : Type 0 where
  root_read : Entries → Option Text → RootRead
  ended unreadable below_zero root_no_fuel : RootRead

abbrev pub then_read : {A : Type 0} → Decoded A → (A → Text → RootRead) → RootRead
then_read (decoded a rest) k = k a rest
then_read malformed k = unreadable
then_read negative_index k = below_zero
then_read no_fuel k = root_no_fuel

-- `torrent_bytes[value_start:index]`
abbrev pub slice : Text → Text → Text
slice from to = take (length from - length to) from

unfoldable pub decode_root : ℕ → (whole : Text) → Entries → Option Text → Text → RootRead
unfolding decode_bencode_bytes decode_bencode_value put take text_eq
decode_root zero whole root info_slice torrent = root_no_fuel
decode_root (suc fuel) whole root info_slice [] = ended
decode_root (suc fuel) whole root info_slice (token ∷ torrent) = elim (token =? b'e') [
  | true ↦ root_read root info_slice
  | false ↦ then_read (decode_bencode_bytes whole (token ∷ torrent)) (λ key from.
      then_read (decode_bencode_value fuel whole from) (λ value to.
        decode_root fuel whole (put key value root)
          (if key == codes "info" then some (slice from to) else info_slice) to))
]

-- The info hash with the root and the info dictionary, or the message of a SelectiveQueueError.
pub data ParsedTorrent : Type 0 where
  parsed : Text → Entries → Entries → ParsedTorrent
  refused : Text → ParsedTorrent
  not_followed : ParsedTorrent

module _ (sha1 : Text → Text) where
  abbrev no_info : ParsedTorrent
  no_info = refused (codes "Torrent metadata did not include an info dictionary.")

  abbrev pub with_info : Entries → Option Value → Option Text → ParsedTorrent
  with_info root (some (dictionary info)) (some info_slice) = parsed (sha1 info_slice) root info
  with_info root _ _ = no_info

  abbrev pub after_root : RootRead → ParsedTorrent
  after_root (root_read root info_slice) = with_info root (get_entry (codes "info") root) info_slice
  after_root ended = refused (codes "Torrent file ended unexpectedly.")
  after_root unreadable = refused (codes "Result did not return a readable torrent file.")
  after_root below_zero = not_followed
  after_root root_no_fuel = not_followed

  unfoldable pub parse_torrent_info : ℕ → Text → ParsedTorrent
  unfolding decode_root get_entry
  parse_torrent_info fuel [] = refused (codes "Torrent response was empty.")
  parse_torrent_info fuel (token ∷ torrent) =
      if token =? b'd'
      then after_root (decode_root fuel (token ∷ torrent) no_entries none torrent)
      else refused (codes "Result did not return a valid torrent file.")
