-- ===== src/Prelude/Text.antt =====
-- Python's `str` as its list of code points, with `strip`, decimal numerals and `startswith`.
use Prim.Native.Char.{code}
use Prim.Native.String.{String}
use q_bittorrent_rss_rules.Prelude.Tests.{leb, ltb, ◌=?◌, if◌then◌else◌}
use Prim.Native.Nat.{ℕ, zero, suc, ◌+◌, ◌/◌, ◌%◌}
use mathlib.Core.Bool.{Bool, true, false, ◌&&◌, ◌||◌}
use mathlib.Core.List.{List, [], ◌∷◌, reverse}

abbrev pub Text : Type 0
Text = List ℕ

abbrev pub codes : String → Text
codes String.[] = []
codes (String.◌∷◌ c s) = code c ∷ codes s

-- `str.isspace` of one character: the white space of the Unicode database.
unfoldable pub is_space : ℕ → Bool
is_space c =
    leb 9 c && leb c 13
    || leb 28 c && leb c 32
    || c =? 0x85
    || c =? 0xa0
    || c =? 0x1680
    || leb 0x2000 c && leb c 0x200a
    || c =? 0x2028
    || c =? 0x2029
    || c =? 0x202f
    || c =? 0x205f
    || c =? 0x3000

-- `str.lstrip()`
unfoldable pub lstrip : Text → Text
lstrip [] = []
lstrip (c ∷ s) = let rest = lstrip s in if is_space c then rest else c ∷ s

-- `str.strip()`
unfoldable pub strip : Text → Text
unfolding lstrip
strip s = reverse (lstrip (reverse (lstrip s)))

-- `str(n)`, with fuel above the number of digits.
unfoldable pub show_digits : ℕ → ℕ → Text → Text
show_digits zero n acc = acc
show_digits (suc f) n acc =
    let digit = b'0' + n % 10 in
    let rest = show_digits f (n / 10) (digit ∷ acc) in if ltb n 10 then digit ∷ acc else rest

unfoldable pub show : ℕ → Text
unfolding show_digits
show n = show_digits (suc n) n []

-- f"{n:02d}"
unfoldable pub show_02d : ℕ → Text
unfolding show
show_02d n = if ltb n 10 then b'0' ∷ show n else show n

-- `s.startswith(prefix)`
unfoldable pub starts_with : Text → Text → Bool
starts_with s [] = true
starts_with [] (p ∷ prefix) = false
starts_with (c ∷ s) (p ∷ prefix) = c =? p && starts_with s prefix

-- `needle in s`
unfoldable pub has_substring : Text → Text → Bool
unfolding starts_with
has_substring needle [] = starts_with [] needle
has_substring needle (c ∷ s) = starts_with (c ∷ s) needle || has_substring needle s
