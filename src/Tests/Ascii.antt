-- ===== src/Tests/Ascii.antt =====
-- A table of characters that meets the laws of `Unicode`: case and digits of ASCII alone.
use q_bittorrent_rss_rules.Prelude.{
  ℕ, ◌+◌, ◌-◌, ◌<◌, ◌≡◌, refl, ap₂, ◌&&◌, Option, none, some, [], ◌∷◌, map, leb, if◌then◌else◌,
  arith,
}
use q_bittorrent_rss_rules.Prelude.Text.{Text}
use q_bittorrent_rss_rules.Prelude.Unicode.{Unicode, lower_ascii, is_word_ascii}

abbrev pub ascii_decimal : ℕ → Option ℕ
ascii_decimal c = if leb b'0' c && leb c b'9' then some (c - b'0') else none

abbrev pub upper_ascii : ℕ → ℕ
upper_ascii c = if leb b'a' c && leb c b'z' then c - 32 else c

abbrev pub lower_text : Text → Text
lower_text = map lower_ascii

pub lower_twice : (s : Text) → lower_text (lower_text s) ≡ lower_text s
lower_twice [] = refl
lower_twice (c ∷ s) = ap₂ ◌∷◌ (ground arith) (lower_twice s)

pub decimal_of_digit : (d : ℕ) → d < 10 → ascii_decimal (b'0' + d) ≡ some d
decimal_of_digit d h = ground arith

pub decimal-lt : (c d : ℕ) → ascii_decimal c ≡ some d → d < 10
decimal-lt c d h = ground arith

pub decimal_of_letter : (c : ℕ) → b'0' + 10 < c + 1 → c < 128 → ascii_decimal c ≡ none
decimal_of_letter c h k = ground arith

instance abbrev pub ascii : Unicode
ascii = record {
  decimal = ascii_decimal;
  is_word = is_word_ascii;
  is_word_of_ascii = λ c h. refl;
  lower = lower_text;
  upper = map upper_ascii;
  casefold = lower_text;
  title = λ s. s;
  decimal_ascii = decimal_of_digit;
  decimal_lt = decimal-lt;
  decimal_letter = decimal_of_letter;
  lower_of_ascii = λ s h. refl;
  casefold_of_ascii = λ s h. refl;
  casefold_idem = lower_twice;
}
