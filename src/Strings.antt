-- ===== src/Strings.antt =====
-- What the program uses of Go's `strings`, `bytes`, `bufio` and `strconv`, on texts of bytes.
pub mod Decimal
pub mod Splitting
pub mod Trimming
pub mod Fields
use mathlib.Core.List.{reverse}
use git_lfs.Prelude.{
  ℕ, zero, suc, ◌+◌, ◌-◌, ◌*◌, ◌/◌, ◌%◌, ◌^◌, Bool, true, false, not, ◌&&◌, ◌||◌, Option, none,
  some, List, [], ◌∷◌, ◌++◌, Text, length, ltb, leb, eqb, if◌then◌else◌,
}
use git_lfs.Prelude.Int.{ℤ, pos, negsuc}

abbrev prepend : ℕ → Option (Text × Text) → Option (Text × Text)
prepend c none = none
prepend c (some (a, b)) = some (c ∷ a, b)

-- `strings.SplitN(s, sep, 2)` for a separator of one byte: the two parts, or `none` for one part.
unfoldable pub split_first : ℕ → Text → Option (Text × Text)
split_first sep [] = none
split_first sep (c ∷ s) = if eqb c sep then some ([], s) else prepend c (split_first sep s)

abbrev onto_first : ℕ → List Text → List Text
onto_first c [] = (c ∷ []) ∷ []
onto_first c (part ∷ parts) = (c ∷ part) ∷ parts

-- `strings.Split(s, sep)` for a separator of one byte.
unfoldable pub split : ℕ → Text → List Text
split sep [] = [] ∷ []
split sep (c ∷ s) = let rest = split sep s in if eqb c sep then [] ∷ rest else onto_first c rest

-- `strings.HasPrefix(s, prefix)`, with the prefix first.
unfoldable pub has_prefix : Text → Text → Bool
has_prefix [] s = true
has_prefix (p ∷ ps) [] = false
has_prefix (p ∷ ps) (c ∷ s) = eqb p c && has_prefix ps s

-- What follows a prefix; `none` where the text does not have it.
unfoldable pub cut_prefix : Text → Text → Option Text
cut_prefix [] s = some s
cut_prefix (p ∷ ps) [] = none
cut_prefix (p ∷ ps) (c ∷ s) = if eqb p c then cut_prefix ps s else none

-- `strings.TrimPrefix`, with the prefix first.
unfoldable pub trim_prefix : Text → Text → Text
unfolding cut_prefix
trim_prefix p s = elim (cut_prefix p s) [ some rest ↦ rest | none ↦ s ]

-- `strings.Contains(s, part)`, with the part first.
unfoldable pub contains_text : Text → Text → Bool
unfolding has_prefix
contains_text part [] = has_prefix part []
contains_text part (c ∷ s) = has_prefix part (c ∷ s) || contains_text part s

-- The UTF-8 bytes of Unicode's white space.
abbrev spaces : List Text
spaces =
    (9 ∷ [])
    ∷ (10 ∷ [])
    ∷ (11 ∷ [])
    ∷ (12 ∷ [])
    ∷ (13 ∷ [])
    ∷ (32 ∷ [])
    ∷ (0xc2 ∷ 0x85 ∷ [])
    ∷ (0xc2 ∷ 0xa0 ∷ [])
    ∷ (0xe1 ∷ 0x9a ∷ 0x80 ∷ [])
    ∷ (0xe2 ∷ 0x80 ∷ 0x80 ∷ [])
    ∷ (0xe2 ∷ 0x80 ∷ 0x81 ∷ [])
    ∷ (0xe2 ∷ 0x80 ∷ 0x82 ∷ [])
    ∷ (0xe2 ∷ 0x80 ∷ 0x83 ∷ [])
    ∷ (0xe2 ∷ 0x80 ∷ 0x84 ∷ [])
    ∷ (0xe2 ∷ 0x80 ∷ 0x85 ∷ [])
    ∷ (0xe2 ∷ 0x80 ∷ 0x86 ∷ [])
    ∷ (0xe2 ∷ 0x80 ∷ 0x87 ∷ [])
    ∷ (0xe2 ∷ 0x80 ∷ 0x88 ∷ [])
    ∷ (0xe2 ∷ 0x80 ∷ 0x89 ∷ [])
    ∷ (0xe2 ∷ 0x80 ∷ 0x8a ∷ [])
    ∷ (0xe2 ∷ 0x80 ∷ 0xa8 ∷ [])
    ∷ (0xe2 ∷ 0x80 ∷ 0xa9 ∷ [])
    ∷ (0xe2 ∷ 0x80 ∷ 0xaf ∷ [])
    ∷ (0xe2 ∷ 0x81 ∷ 0x9f ∷ [])
    ∷ (0xe3 ∷ 0x80 ∷ 0x80 ∷ [])
    ∷ []

-- What follows the first of the given prefixes that the text has.
cut_any : List Text → Text → Option Text
unfolding cut_prefix
cut_any [] s = none
cut_any (p ∷ ps) s = elim (cut_prefix p s) [ some rest ↦ some rest | none ↦ cut_any ps s ]

-- On fuel: each round drops a byte at least.
trim_start : List Text → ℕ → Text → Text
unfolding cut_any
trim_start ps zero s = s
trim_start ps (suc f) s = elim (cut_any ps s) [ some rest ↦ trim_start ps f rest | none ↦ s ]

abbrev reverses : List Text → List Text
reverses [] = []
reverses (p ∷ ps) = reverse p ∷ reverses ps

-- `strings.TrimSpace`, `bytes.TrimSpace`.
unfoldable pub trim_space : Text → Text
unfolding trim_start
trim_space s =
    let start = trim_start spaces (length s) s in
    reverse (trim_start (reverses spaces) (length start) (reverse start))

abbrev pub drop_cr : Text → Text
drop_cr [] = []
drop_cr (c ∷ []) = if eqb c 13 then [] else c ∷ []
drop_cr (c ∷ d ∷ s) = c ∷ drop_cr (d ∷ s)

-- What is left at the end of the input is a line too, unless it is empty.
last_line : Text → List Text
last_line [] = []
last_line (c ∷ cur) = drop_cr (c ∷ cur) ∷ []

lines_from : Text → Text → List Text
unfolding last_line
lines_from cur [] = last_line cur
lines_from cur (c ∷ s) = elim (eqb c 10) [
  | true ↦ drop_cr cur ∷ lines_from [] s
  | false ↦ lines_from (cur ++ c ∷ []) s
]

-- The tokens of a `bufio.Scanner` that scans lines, each below the scanner's limit of 64 KiB.
unfoldable pub scan_lines : Text → List Text
unfolding lines_from
scan_lines s = lines_from [] s

-- The decimal digits of a number, on fuel.
digits_from : ℕ → ℕ → Text
digits_from zero n = []
digits_from (suc f) n = elim (ltb n 10) [
  | true ↦ (48 + n) ∷ []
  | false ↦ digits_from f (n / 10) ++ (48 + n % 10) ∷ []
]

-- `%d` of a number that is not negative; `n + 1` rounds are enough, since each divides by ten.
unfoldable pub format_int : ℕ → Text
unfolding digits_from
format_int n = digits_from (suc n) n

unfoldable pub is_digit : ℕ → Bool
is_digit c = leb 48 c && leb c 57

read_digits : ℕ → Text → Option ℕ
unfolding is_digit
read_digits acc [] = some acc
read_digits acc (c ∷ s) =
    let rest = read_digits (acc * 10 + (c - 48)) s in if is_digit c then rest else none

read_number : Text → Option ℕ
unfolding read_digits
read_number [] = none
read_number (c ∷ s) = read_digits 0 (c ∷ s)

negative : Option ℕ → Option ℤ
negative none = none
negative (some zero) = some (pos 0)
negative (some (suc n)) = if leb (suc n) (2 ^ 63) then some (negsuc n) else none

positive : Option ℕ → Option ℤ
positive none = none
positive (some n) = if ltb n (2 ^ 63) then some (pos n) else none

-- `strconv.ParseInt(s, 10, 64)`, and `strconv.Atoi` where `int` has 64 bits; `none` for an error.
unfoldable pub parse_int : Text → Option ℤ
unfolding read_number negative positive
parse_int [] = none
parse_int (c ∷ s) =
    if eqb c b'-'
    then negative (read_number s)
    else if eqb c b'+'
    then positive (read_number s)
    else positive (read_number (c ∷ s))
