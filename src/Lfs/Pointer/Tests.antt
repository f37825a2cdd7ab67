-- ===== src/Lfs/Pointer/Tests.antt =====
-- A pointer of lfs/pointer.go, and the theorems at it.
use mathlib.Core.List.Permᴰ
use git_lfs.Prelude.{
  ℕ, ◌≤◌, ◌<◌, ◌≡◌, ◌≢◌, ◌↔◌, refl, inr, inl, true, false, none, some, List, [], ◌∷◌, ◌++◌, Text,
  codes, text_comparable, ◌==◌, arith,
}
use git_lfs.Prelude.Dict.{Dict}
use git_lfs.Strings.{split_first, scan_lines, trim_space, cut_prefix}
use git_lfs.Lfs.Pointer.{
  Pointer, PointerExtension, encoded, latest, sha256, empty_object, extension_lines, extension_line,
}
use git_lfs.Lfs.Pointer.Errors.{decoded}
use git_lfs.Lfs.Pointer.Decoding.{
  Reader, ReadStatus, more, end_of_file, failed, decode_from, decode_pointer_from_blob, matches_ext,
  matches_oid,
}
use git_lfs.Lfs.Pointer.Valid.{IsPointer, IsExtension}
use git_lfs.Lfs.Pointer.RoundTrip.{IsOrder, decode_from-encoded}
use git_lfs.Lfs.Pointer.Sound.{IsDecoded, decode_from_sound}
use git_lfs.Lfs.Pointer.Rejects.{Refused, decode_from_foreign}

abbrev as_listed : Dict Text Text → Dict Text Text
as_listed m = m

as_listed-IsOrder : IsOrder as_listed
as_listed-IsOrder m = Permᴰ.refl m

abbrev ext : ℕ → PointerExtension
ext n = record { name = codes "case"; priority = n; oid = empty_object; oid_type = sha256 }

abbrev sample : Pointer
sample = record {
  version = latest;
  oid = empty_object;
  size = 12345;
  oid_type = sha256;
  extensions = ext 0 ∷ ext 3 ∷ [];
  canonical = true;
}

empty_object_matches : matches_oid empty_object ≡ true
unfolding matches_oid git_lfs.Prelude.all
empty_object_matches = refl

ext-IsExtension : (n : ℕ) → n < 10 → IsExtension (ext n)
unfolding git_lfs.Lfs.Pointer.Decoding.is_word
ext-IsExtension n h = record {
  named = (refl, omega arith, omega arith);
  one_digit = h;
  hashed = empty_object_matches;
  typed = refl;
}

sample-IsPointer : IsPointer sample
sample-IsPointer = record {
  versioned = refl;
  hashed = empty_object_matches;
  typed = refl;
  positive = omega arith;
  fits = omega arith;
  extended = (ext-IsExtension 0 (omega arith), (ext-IsExtension 3 (omega arith), tt));
  rising = omega arith;
}

abbrev reader : Text → Reader
reader s = record { first = s; status = more; rest = [] }

decode_from-encoded_example :
    (decode_from as_listed (reader (encoded sample))).0
    ≡ decoded (record sample { canonical = true })
decode_from-encoded_example =
    decode_from-encoded as_listed as_listed-IsOrder sample sample-IsPointer
      (reader (encoded sample)) refl (cc)

encoded_starts : encoded sample ≢ []
unfolding encoded
encoded_starts = cc

decode_from_sound_example :
    IsDecoded (record sample { canonical = true })
    × ((true ≡ true) ↔ (encoded (record sample { canonical = true }) ≡ encoded sample))
decode_from_sound_example =
    decode_from_sound as_listed (reader (encoded sample)) (record sample { canonical = true })
      encoded_starts
      (decode_from-encoded as_listed as_listed-IsOrder sample sample-IsPointer
        (reader (encoded sample)) refl (cc))

abbrev foreign : Text
foreign = codes "hello git-lfs"

foreign_lines : scan_lines (trim_space foreign) ≡ foreign ∷ []
unfolding scan_lines trim_space
foreign_lines = refl

foreign_key : split_first b' ' foreign ≡ some (codes "hello", codes "git-lfs")
unfolding split_first
foreign_key = refl

hello_no_ext : matches_ext (codes "hello") ≡ false
unfolding matches_ext cut_prefix
hello_no_ext = refl

decode_from_foreign_example : Refused (decode_from as_listed (reader foreign)).0
decode_from_foreign_example =
    decode_from_foreign as_listed (reader foreign) b'h' (codes "ello git-lfs") [] (cc) (cc)
      foreign_lines (inr (codes "hello", codes "git-lfs", foreign_key, refl, hello_no_ext))
