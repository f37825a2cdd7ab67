-- ===== src/Lfs/DiffIndex.antt =====
-- lfs/diff_index_scanner.go: the entries that `git diff-index` prints. Git's process and the scanner
-- of its output are not modelled: a line is an argument.
pub mod Lines
mod Tests
use git_lfs.Prelude.{
  ℕ, ◌+◌, ◌-◌, ◌^◌, Bool, true, false, ◌&&◌, Option, none, some, List, [], ◌∷◌, ◌++◌, Text, codes,
  all, eqb, if◌then◌else◌,
}
use git_lfs.Prelude.Int.{ℤ, pos, negsuc}
use git_lfs.Strings.{split, trim_prefix, parse_int, is_digit}
use git_lfs.Strings.Fields.{fields}

-- The statuses that have a name, and any other letter.
unfoldable pub status_name : ℕ → Text
status_name s =
    if eqb s b'A'
    then codes "addition"
    else if eqb s b'C'
    then codes "copy"
    else if eqb s b'D'
    then codes "deletion"
    else if eqb s b'M'
    then codes "modification"
    else if eqb s b'R'
    then codes "rename"
    else if eqb s b'T'
    then codes "change"
    else if eqb s b'U'
    then codes "unmerged"
    else if eqb s b'X'
    then codes "unknown"
    else codes "<unknown>"

pub record DiffIndexEntry : Type 0 where
  pub src_mode : Text
  pub dst_mode : Text
  pub src_sha : Text
  pub dst_sha : Text
  pub status : ℕ
  pub status_score : ℤ
  pub src_name : Text
  pub dst_name : Text

pub data Scanned : Type 0 where
  entry : DiffIndexEntry → Scanned
  invalid_line invalid_description : Text → Scanned
  -- an index out of range
  panicked : Scanned

-- The number that `strconv.Atoi` returns with an error: the nearest one for a numeral out of range,
-- and zero for what is no numeral.
unfoldable pub failed_atoi : Text → ℤ
failed_atoi [] = pos 0
failed_atoi (c ∷ s) =
    if eqb c b'-' && is_numeral s
    then negsuc (2 ^ 63 - 1)
    else if is_numeral (c ∷ s)
    then pos (2 ^ 63 - 1)
    else if eqb c b'+' && is_numeral s
    then pos (2 ^ 63 - 1)
    else pos 0
  where
    is_numeral : Text → Bool
    is_numeral [] = false
    is_numeral (d ∷ t) = all is_digit (d ∷ t)

-- The score is only set where `Atoi` fails.
unfoldable pub score_of : Text → ℤ
unfolding failed_atoi
score_of s = elim (parse_int s) [ some n ↦ pos 0 | none ↦ failed_atoi s ]

-- `parts[2]`, if there is one.
abbrev pub second_name : List Text → Text
second_name [] = []
second_name (dst ∷ more) = dst

unfoldable pub described : Text → (names : List Text) → (src : Text) → List Text → Scanned
unfolding score_of
described desc names src (src_mode ∷ dst_mode ∷ src_sha ∷ dst_sha ∷ (status ∷ score) ∷ more) =
    entry (record {
      src_mode = trim_prefix (codes ":") src_mode;
      dst_mode = dst_mode;
      src_sha = src_sha;
      dst_sha = dst_sha;
      status = status;
      status_score = score_of score;
      src_name = src;
      dst_name = second_name names;
    })
described desc names src (_ ∷ _ ∷ _ ∷ _ ∷ [] ∷ more) = panicked
described desc names src _ = invalid_description desc

unfoldable pub scan_parts : Text → List Text → Scanned
unfolding described
scan_parts line (desc ∷ src ∷ names) = described desc names src (fields desc)
scan_parts line _ = invalid_line line

unfoldable pub scan_line : Text → Scanned
unfolding scan_parts
scan_line line = scan_parts line (split 9 line)
