-- ===== src/Tests/Bencode.antt =====
-- The reader of torrent files of app/services/selective_queue.py on concrete bytes.
use q_bittorrent_rss_rules.Prelude.{
  ℕ, zero, suc, ◌*◌, ◌≤◌, ◌≡◌, refl, [], true, some, arith, length, text_eq,
}
use q_bittorrent_rss_rules.Prelude.Int.{pos, negsuc}
use q_bittorrent_rss_rules.Prelude.Text.{Text, codes, show}
use q_bittorrent_rss_rules.SelectiveQueue.Bencode.{
  Entries, Value, integer, byte_text, list, dictionary, items, no_items, entries, no_entries,
  decoded, negative_index, no_fuel, malformed, decode_bencode_value, decode_entries, put, until,
  read_int,
}
use q_bittorrent_rss_rules.SelectiveQueue.Bencode.Format.{write_value, distinct_keys}
use q_bittorrent_rss_rules.SelectiveQueue.Bencode.Torrent.{
  get_entry, parse_torrent_info, parsed, refused,
}
use q_bittorrent_rss_rules.SelectiveQueue.Bencode.InfoHash.{parse_torrent_info-write_value}
use q_bittorrent_rss_rules.SelectiveQueue.Bencode.RoundTrip.{decode_bencode_value-write_value}
use q_bittorrent_rss_rules.SelectiveQueue.Bencode.Ends.{IsForward, Ends, decode_bencode_value-Ends}

abbrev nested : Text
nested = codes "d3:cowl3:mooi-42ee1:xi7ee!"

nested_value :
    decode_bencode_value 60 nested nested
    ≡ decoded
        (dictionary (
          entries
            (codes "cow")
            (list (items (byte_text (codes "moo")) (items (integer (negsuc 41)) no_items)))
            (entries (codes "x") (integer (pos 7)) no_entries)))
        (codes "!")
unfolding decode_bencode_value text_eq
nested_value = refl

later_entry_wins :
    decode_bencode_value 40 [] (codes "d1:ai1e1:ai2ee")
    ≡ decoded (dictionary (entries (codes "a") (integer (pos 2)) no_entries)) []
unfolding decode_bencode_value text_eq
later_entry_wins = refl

missing_end : decode_bencode_value 40 [] (codes "l1:a") ≡ malformed
unfolding decode_bencode_value
missing_end = refl

abbrev short_list : Text
short_list = codes "li-4e1:ae"

short_list-IsForward : IsForward short_list
unfolding until read_int
short_list-IsForward = (tt, (tt, (tt, (tt, (tt, (tt, (tt, (tt, (tt, tt)))))))))

decode_bencode_value-Ends_example :
    Ends (length short_list) (decode_bencode_value 20 short_list short_list)
decode_bencode_value-Ends_example =
    decode_bencode_value-Ends 20 short_list short_list (omega arith) short_list-IsForward

-- The code follows a negative length back to where it was, reads the same bytes again, and so never
-- ends: no fuel is enough.
abbrev going_back : Text
going_back = codes "d-3:"

read_again : (fuel : ℕ) (m : Entries) → decode_entries fuel going_back m (codes "-3:") ≡ no_fuel
unfolding decode_bencode_value put text_eq
read_again zero m = refl
read_again (suc zero) m = refl
read_again (suc (suc fuel)) m = read_again (suc fuel) (put [] (byte_text []) m)

never_ends : (fuel : ℕ) → decode_bencode_value fuel going_back going_back ≡ no_fuel
unfolding decode_bencode_value
never_ends zero = refl
never_ends (suc fuel) = rw (read_again fuel no_entries) refl

-- An index below zero.
before_the_file : decode_bencode_value 9 (codes "d-9:") (codes "d-9:") ≡ negative_index
unfolding decode_bencode_value
before_the_file = refl

abbrev cow : Value
cow = dictionary (
    entries (codes "cow") (list (items (byte_text (codes "moo")) no_items))
      (entries (codes "x") (integer (negsuc 6)) no_entries))

cow_written : write_value cow [] ≡ codes "d3:cowl3:mooe1:xi-7ee"
unfolding write_value show
cow_written = refl

cow_fits : 2 * length (write_value cow []) ≤ 60
unfolding write_value show
cow_fits = omega arith

cow_distinct : distinct_keys cow ≡ true
unfolding distinct_keys text_eq
cow_distinct = refl

decode_bencode_value-write_value_example :
    decode_bencode_value 60 (write_value cow []) (write_value cow []) ≡ decoded cow []
decode_bencode_value-write_value_example =
    decode_bencode_value-write_value 60 (write_value cow []) cow [] cow_fits cow_distinct

abbrev info : Entries
info = entries (codes "name") (byte_text (codes "Demo")) no_entries

abbrev root : Entries
root =
    entries (codes "announce") (byte_text (codes "udp://t"))
      (entries (codes "info") (dictionary info) no_entries)

-- The hash is the identity, so that it shows what is hashed.
announced_torrent :
    parse_torrent_info (λ s. s) 90 (codes "d8:announce7:udp://t4:infod4:name4:Demoee")
    ≡ parsed (codes "d4:name4:Demoe") root info
unfolding parse_torrent_info text_eq
announced_torrent = refl

no_torrent :
    parse_torrent_info (λ s. s) 90 (codes "<html>")
    ≡ refused (codes "Result did not return a valid torrent file.")
unfolding parse_torrent_info
no_torrent = refl

root_distinct : distinct_keys (dictionary root) ≡ true
unfolding distinct_keys text_eq
root_distinct = refl

root_fits : 2 * length (write_value (dictionary root) []) ≤ 90
unfolding write_value show
root_fits = omega arith

root_has_it : get_entry (codes "info") root ≡ some (dictionary info)
unfolding get_entry text_eq
root_has_it = refl

parse_torrent_info-write_value_example :
    parse_torrent_info (λ s. s) 90 (write_value (dictionary root) [])
    ≡ parsed (write_value (dictionary info) []) root info
parse_torrent_info-write_value_example =
    parse_torrent_info-write_value (λ s. s) 90 root info root_fits root_distinct root_has_it
