-- ===== src/Prelude/Unicode.antt =====
-- The parts of Python's Unicode database that the program uses through `str` methods and `re`.
-- The tables are not the repository's, so they are a parameter with the laws that the code relies on.
use Prim.Native.Nat.{ℕ, ◌+◌, ◌<◌}
use mathlib.Core.Path.{◌≡◌}
use mathlib.Core.Bool.{Bool, ◌&&◌, ◌||◌}
use mathlib.Core.Option.{Option, none, some}
use mathlib.Core.List.{[], ◌∷◌, map}
use q_bittorrent_rss_rules.Prelude.Tests.{leb, ◌=?◌, if◌then◌else◌}
use q_bittorrent_rss_rules.Prelude.Text.{Text}

abbrev pub lower_ascii : ℕ → ℕ
lower_ascii c = if leb b'A' c && leb c b'Z' then c + 32 else c

abbrev pub IsAscii : Text → Type 0
IsAscii [] = Unit
IsAscii (c ∷ s) = (c < 128) × IsAscii s

-- `\w` on ASCII.
abbrev pub is_word_ascii : ℕ → Bool
is_word_ascii c =
    leb b'a' c && leb c b'z' || leb b'A' c && leb c b'Z' || leb b'0' c && leb c b'9' || c =? b'_'

pub record Unicode : Type 0 where
  -- The value of a decimal digit, `unicodedata.decimal`: what `\d` matches and `int` reads.
  pub decimal : ℕ → Option ℕ
  -- What `\w` matches: letters, digits and the underscore.
  pub is_word : ℕ → Bool
  -- `str.lower`, `str.upper`, `str.casefold`, `str.title`
  pub lower : Text → Text
  pub upper : Text → Text
  pub casefold : Text → Text
  pub title : Text → Text
  pub decimal_ascii : (d : ℕ) → d < 10 → decimal (b'0' + d) ≡ some d
  pub decimal_lt : (c d : ℕ) → decimal c ≡ some d → d < 10
  pub decimal_letter : (c : ℕ) → b'0' + 10 < c + 1 → c < 128 → decimal c ≡ none
  pub is_word_of_ascii : (c : ℕ) → c < 128 → is_word c ≡ is_word_ascii c
  pub lower_of_ascii : (s : Text) → IsAscii s → lower s ≡ map lower_ascii s
  pub casefold_of_ascii : (s : Text) → IsAscii s → casefold s ≡ map lower_ascii s
  -- Case folding is idempotent (Unicode Standard, section 3.13).
  pub casefold_idem : (s : Text) → casefold (casefold s) ≡ casefold s
