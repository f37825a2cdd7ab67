-- ===== src/Strings/Decimal.antt =====
-- Printing a number and reading it back.
use mathlib.Core.Path.{subst}
use native.Mathlib.Decide.{dec_lt}
use git_lfs.Prelude.{
  ℕ, zero, suc, ◌+◌, ◌-◌, ◌*◌, ◌/◌, ◌%◌, ◌^◌, ◌≤◌, ◌<◌, ◌≡◌, ◌≢◌, refl, sym, ◌∙◌, ap, some, [], ◌∷◌,
  ◌++◌, Text, All, All-append, arith,
}
use git_lfs.Prelude.Int.{pos}
use git_lfs.Strings.{digits_from, format_int, read_digits, parse_int}

abbrev pub IsDigit : ℕ → Type 0
IsDigit c = (48 ≤ c) × (c ≤ 57)

read_digits-append :
    (acc m d : ℕ) (s : Text)
    → read_digits acc s ≡ some m
    → d < 10
    → read_digits acc (s ++ (48 + d) ∷ []) ≡ some (m * 10 + d)
unfolding read_digits
read_digits-append acc m d [] h l = ground arith
read_digits-append acc m d (c ∷ s) h l =
    ground (arith, read_digits-append (acc * 10 + (c - 48)) m d s)

digits_small : (f n : ℕ) → n < 10 → digits_from (suc f) n ≡ (48 + n) ∷ []
unfolding digits_from
digits_small f n h = ground arith

digits_big :
    (f n : ℕ) → 10 ≤ n → digits_from (suc f) n ≡ digits_from f (n / 10) ++ (48 + n % 10) ∷ []
unfolding digits_from
digits_big f n h = ground arith

read_digits-digits_from : (f n : ℕ) → n < f → read_digits 0 (digits_from f n) ≡ some n
read_digits-digits_from zero n h = absurd (omega arith)
read_digits-digits_from (suc f) n h = elim (dec_lt n 10) [
  | yes small ↦ rw (digits_small f n small) (unfold read_digits in ground arith)
  | no big ↦ rw (digits_big f n (omega arith)) (
      read_digits-append 0 (n / 10) (n % 10) (digits_from f (n / 10))
        (read_digits-digits_from f (n / 10) (omega arith)) (omega arith)
      ∙ ap some (omega arith))
]

-- A print is its first digits and its last one.
pub format_int-append : (n : ℕ) → (s : Text) × (d : ℕ) × (format_int n ≡ s ++ d ∷ []) × IsDigit d
unfolding format_int
format_int-append n = elim (dec_lt n 10) [
  | yes small ↦ ([], 48 + n, digits_small n n small, omega arith)
  | no big ↦ (digits_from n (n / 10), 48 + n % 10, digits_big n n (omega arith), omega arith)
]

digits_from-All : (f n : ℕ) → All IsDigit (digits_from f n)
digits_from-All zero n = unfold digits_from in tt
digits_from-All (suc f) n = elim (dec_lt n 10) [
  | yes small ↦ subst (All IsDigit) (sym (digits_small f n small)) (omega arith, tt)
  | no big ↦
      subst (All IsDigit) (sym (digits_big f n (omega arith))) (
        All-append IsDigit (digits_from f (n / 10)) _ (digits_from-All f (n / 10))
          (omega arith, tt))
]

pub format_int-All : (n : ℕ) → All IsDigit (format_int n)
unfolding format_int
format_int-All n = digits_from-All (suc n) n

parse_digits :
    (s : Text) (n : ℕ)
    → s ≢ []
    → All IsDigit s
    → read_digits 0 s ≡ some n
    → n < 2 ^ 63
    → parse_int s ≡ some (pos n)
unfolding parse_int
parse_digits [] n h a r l = absurd (h refl)
parse_digits (c ∷ s) n h a r l = ground arith

pub append-ne-nil : (s : Text) (d : ℕ) → s ++ d ∷ [] ≢ []
append-ne-nil [] d e = cc
append-ne-nil (c ∷ s) d e = cc

format_int-ne-nil : (n : ℕ) → format_int n ≢ []
format_int-ne-nil n e = let (s, d, p, _) = format_int-append n in append-ne-nil s d (sym p ∙ e)

-- Every number of an `int64` that is not negative is read back from its print.
pub parse_int-format_int : (n : ℕ) → n < 2 ^ 63 → parse_int (format_int n) ≡ some (pos n)
unfolding format_int
parse_int-format_int n h =
    parse_digits (format_int n) n (format_int-ne-nil n) (format_int-All n)
      (read_digits-digits_from (suc n) n (omega arith)) h

pub format_int_digit : (n : ℕ) → n < 10 → format_int n ≡ (48 + n) ∷ []
unfolding format_int
format_int_digit n h = digits_small n n h

-- A number that is read and is not negative is below 2^63.
pub parse_int-lt : (s : Text) (n : ℕ) → parse_int s ≡ some (pos n) → n < 2 ^ 63
unfolding parse_int
parse_int-lt [] n h = cc
parse_int-lt (c ∷ s) n h = ground arith
