-- ===== src/SelectiveQueue/Bencode/Numbers.antt =====
-- Numbers that are printed are read back by the reader of torrent files
-- (app/services/selective_queue.py).
use q_bittorrent_rss_rules.Prelude.{
  ℕ, zero, suc, ◌+◌, ◌*◌, ◌/◌, ◌%◌, ◌<◌, ◌≡◌, refl, ◌∙◌, ap, inl, inr, Bool, true, false, some,
  Bool-cases, [], ◌∷◌, ◌++◌, arith, All, ltb, ◌=?◌,
}
use q_bittorrent_rss_rules.Prelude.Int.{pos, negsuc}
use q_bittorrent_rss_rules.Prelude.Text.{Text, show, show_digits}
use q_bittorrent_rss_rules.SelectiveQueue.Bencode.{
  until, read_int, digits_from, number, skip_spaces, is_byte_digit, is_byte_space,
}

-- A number of one digit or more.
abbrev pub IsNumeral : Text → Type 0
IsNumeral [] = ⊥
IsNumeral (c ∷ s) = (is_byte_digit c ≡ true) × All (λ d. is_byte_digit d ≡ true) s

digit_step :
    (m d : ℕ) (after_digit : Bool) (rest : Text)
    → d < 10
    → digits_from m after_digit ((b'0' + d) ∷ rest) ≡ digits_from (10 * m + d) true rest
digit_step m d a rest h =
    let digit : is_byte_digit (b'0' + d) ≡ true = ground arith in
    rw digit (ap (λ v. digits_from v true rest) (omega arith))

digits_from-show :
    (fuel n : ℕ) (after_digit : Bool) (rest : Text)
    → n < fuel
    → digits_from 0 after_digit (show_digits fuel n rest) ≡ digits_from n true rest
unfolding show_digits
digits_from-show zero n a rest h = ground (arith, h)
digits_from-show (suc fuel) n a rest h = elim (Bool-cases (ltb n 10)) [
  | inl e ↦ rw e (
      digit_step 0 (n % 10) a rest (omega arith)
      ∙ ap (λ v. digits_from v true rest) (ground (arith, e)))
  | inr e ↦ rw e (
      digits_from-show fuel (n / 10) a ((b'0' + n % 10) ∷ rest) (ground (arith, h, e))
      ∙ digit_step (n / 10) (n % 10) true rest (omega arith)
      ∙ ap (λ v. digits_from v true rest) (omega arith))
]

show_digits-IsNumeral :
    (fuel n : ℕ) (rest : Text)
    → n < fuel
    → All (λ d. is_byte_digit d ≡ true) rest
    → IsNumeral (show_digits fuel n rest)
unfolding show_digits
show_digits-IsNumeral zero n rest h a = ground (arith, h)
show_digits-IsNumeral (suc fuel) n rest h a = elim (Bool-cases (ltb n 10)) [
  | inl e ↦ rw e (ground arith, a)
  | inr e ↦ rw e (
      show_digits-IsNumeral fuel (n / 10) ((b'0' + n % 10) ∷ rest) (ground (arith, h, e))
        (ground arith, a))
]

pub show-IsNumeral : (n : ℕ) → IsNumeral (show n)
unfolding show
show-IsNumeral n = show_digits-IsNumeral (suc n) n [] (omega arith) tt

number-show : (n : ℕ) → number (show n) ≡ some n
unfolding show
number-show n = digits_from-show (suc n) n false [] (omega arith)

-- A numeral is read as it is: no white space and no sign.
read_int-IsNumeral :
    (s : Text) (n : ℕ) → IsNumeral s → number s ≡ some n → read_int s ≡ some (pos n)
unfolding read_int
read_int-IsNumeral [] n d e = elim d [ ]
read_int-IsNumeral (c ∷ s) n (d, ds) e =
    let no_space : is_byte_space c ≡ false = ground (arith, d) in
    let no_minus : (c =? b'-') ≡ false = ground (arith, d) in
    let no_plus : (c =? b'+') ≡ false = ground (arith, d) in
    let skip : skip_spaces (c ∷ s) ≡ c ∷ s = rw no_space refl in
    rw (skip, read_int, no_minus, no_plus, e) refl

pub read_int-show : (n : ℕ) → read_int (show n) ≡ some (pos n)
read_int-show n = read_int-IsNumeral (show n) n (show-IsNumeral n) (number-show n)

pub read_int-negative : (n : ℕ) → read_int (b'-' ∷ show (suc n)) ≡ some (negsuc n)
unfolding read_int
read_int-negative n = rw (number-show (suc n)) refl

-- The first character behind a numeral that is no digit.
until-digits :
    (c : ℕ) (s rest : Text)
    → is_byte_digit c ≡ false
    → All (λ d. is_byte_digit d ≡ true) s
    → until c (s ++ c ∷ rest) ≡ some (s, rest)
unfolding until
until-digits c [] rest h a = ground arith
until-digits c (d ∷ s) rest h (e, a) =
    let other : (c =? d) ≡ false = ground (arith, h, e) in
    rw (other, until-digits c s rest h a) refl

until-numeral :
    (c : ℕ) (s rest : Text)
    → is_byte_digit c ≡ false
    → IsNumeral s
    → until c (s ++ c ∷ rest) ≡ some (s, rest)
until-numeral c [] rest h d = elim d [ ]
until-numeral c (x ∷ s) rest h (d, ds) = until-digits c (x ∷ s) rest h (d, ds)

pub until-show :
    (c n : ℕ) (rest : Text)
    → is_byte_digit c ≡ false
    → until c (show n ++ c ∷ rest) ≡ some (show n, rest)
until-show c n rest h = until-numeral c (show n) rest h (show-IsNumeral n)
