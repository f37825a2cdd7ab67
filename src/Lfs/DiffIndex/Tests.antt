-- ===== src/Lfs/DiffIndex/Tests.antt =====
-- A line of `git diff-index` for lfs/diff_index_scanner.go.
use git_lfs.Prelude.{◌≡◌, refl, some, codes, arith}
use git_lfs.Prelude.Int.{pos}
use git_lfs.Strings.{parse_int}
use git_lfs.Lfs.DiffIndex.{DiffIndexEntry, entry, scan_line, invalid_line}
use git_lfs.Lfs.DiffIndex.Lines.{IsListed, line_of, scan_line-line_of}

abbrev renamed : DiffIndexEntry
renamed = record {
  src_mode = codes "100644";
  dst_mode = codes "100644";
  src_sha = codes "c5b3";
  dst_sha = codes "9e82";
  status = b'R';
  status_score = pos 86;
  src_name = codes "a.gif";
  dst_name = codes "b c.gif";
}

no_tab : scan_line (codes ":100644") ≡ invalid_line (codes ":100644")
unfolding scan_line git_lfs.Strings.split
no_tab = refl

score_is_number : parse_int (codes "86") ≡ some (pos 86)
unfolding parse_int
score_is_number = refl

renamed-IsListed : IsListed renamed (codes "86")
renamed-IsListed = record {
  src_mode = omega arith;
  dst_mode = record { plain = omega arith; written = cc };
  src_sha = record { plain = omega arith; written = cc };
  dst_sha = record { plain = omega arith; written = cc };
  status_score = omega arith;
  src_name = omega arith;
  dst_name = omega arith;
}

scan_line-line_of_example :
    scan_line (line_of renamed (codes "86")) ≡ entry (record renamed { status_score = pos 0 })
scan_line-line_of_example =
    scan_line-line_of renamed (codes "86") (pos 86) renamed-IsListed score_is_number
