-- ===== src/Lfs/Pointer/Rejects.antt =====
-- What is no pointer, and what is handed back in every case.
use git_lfs.Prelude.{
  ℕ, ◌≤◌, ◌<◌, ◌≡◌, ◌≢◌, ◌⊎◌, inl, inr, refl, ap, Bool-cases, true, false, none, some, List, [],
  ◌∷◌, ◌++◌, append-nil, Text, codes, text_comparable, ◌==◌, arith,
}
use git_lfs.Prelude.Dict.{Dict}
use git_lfs.Strings.{split_first, scan_lines, trim_space}
use git_lfs.Lfs.Pointer.{Pointer}
use git_lfs.Lfs.Pointer.Errors.{
  invalid_header, error_reading_line, not_a_version, over_cutoff, PointerError, Decoded, refused,
  is_not_a_pointer_error, standardize,
}
use git_lfs.Lfs.Pointer.Decoding.{
  matches_header, matches_ext, scan, decode_kv_data, standardized, decode_kv, decode_buffer,
  decode_from, Reader, failed, end_of_file, contents, decode_pointer_from_blob, decode_pointer,
}

-- The first line is not a key of a pointer file that has its place there.
abbrev pub IsForeign : Text → Type 0
IsForeign line =
    (split_first b' ' line ≡ none)
    ⊎ ((key value : Text) × (split_first b' ' line ≡ some (key, value))
        × ((key == codes "version") ≡ false)
        × (matches_ext key ≡ false))

abbrev pub Refused : Decoded Pointer → Type 0
Refused r = (e : PointerError) × (r ≡ refused e) × (is_not_a_pointer_error e ≡ true)

module _ (order : Dict Text Text → Dict Text Text) (s : Text) where
  Refused-header : matches_header s ≡ false → Refused (decode_kv order s)
  unfolding decode_kv standardized decode_kv_data standardize is_not_a_pointer_error
  Refused-header h = (invalid_header, rw h, refl)

  Refused-line :
      (c : ℕ) (l : Text) (lines : List Text)
      → matches_header s ≡ true
      → scan_lines s ≡ (c ∷ l) ∷ lines
      → IsForeign (c ∷ l)
      → Refused (decode_kv order s)
  unfolding decode_kv standardized decode_kv_data scan standardize is_not_a_pointer_error
  Refused-line c l lines h e (inl n) =
      (error_reading_line (c ∷ l), rw h (rw e (rw (n, scan))), refl)
  Refused-line c l lines h e (inr (key, value, n, k, x)) =
      (not_a_version key, rw h (rw e (rw (n, scan) (rw (k, scan) (rw (x, scan))))), refl)

  foreign-Refused :
      (c : ℕ) (l : Text) (lines : List Text)
      → scan_lines s ≡ (c ∷ l) ∷ lines
      → IsForeign (c ∷ l)
      → Refused (decode_kv order s)
  foreign-Refused c l lines e f = elim (Bool-cases (matches_header s)) [
    | inl matches ↦ Refused-line c l lines matches e f
    | inr not_lfs ↦ Refused-header not_lfs
  ]

-- If the trimmed bytes of a read that did not fail begin with a line without a space, or whose key
-- is neither `version` nor that of an extension, decoding fails with an error that counts as not-a-
-- pointer.
pub decode_from_foreign :
    (order : Dict Text Text → Dict Text Text) (r : Reader) (c : ℕ) (l : Text) (lines : List Text)
    → r.first ≢ []
    → r.status ≢ failed
    → scan_lines (trim_space r.first) ≡ (c ∷ l) ∷ lines
    → IsForeign (c ∷ l)
    → Refused (decode_from order r).0
unfolding decode_from
decode_from_foreign order r c l lines n s e f =
    let (reason, stops, kind) = foreign-Refused order (trim_space r.first) c l lines e f in
    (reason, ground (arith, buffer r.first n stops), kind)
  where
    buffer :
        {reason : PointerError} (t : Text)
        → t ≢ []
        → decode_kv order (trim_space t) ≡ refused reason
        → decode_buffer order t ≡ refused reason
    buffer [] n h = absurd (n refl)
    buffer (x ∷ t) n h = unfold decode_buffer in rw h

-- Whatever the outcome of decoding, the reader that is returned reads all that the given one would,
-- if nothing follows an end of file.
pub contents-decode_from :
    (order : Dict Text Text → Dict Text Text) (r : Reader)
    → (r.status ≡ end_of_file → r.rest ≡ [])
    → (decode_from order r).1 ≡ r.first ++ r.rest
unfolding decode_from contents
contents-decode_from order r h =
    ground (arith, append-nil r.first, ap (λ t. r.first ++ t) {x = r.rest} {y = []})

-- A blob of 1024 bytes or more is refused with an error that counts as not-a-pointer; a smaller one
-- is decoded.
pub decode_pointer_from_blob_cases :
    (order : Dict Text Text → Dict Text Text) (size : ℕ) (r : Reader)
    → (1024 ≤ size → Refused (decode_pointer_from_blob order size r))
      × (size < 1024 → decode_pointer_from_blob order size r ≡ (decode_from order r).0)
unfolding decode_pointer_from_blob decode_pointer is_not_a_pointer_error
decode_pointer_from_blob_cases order size r =
    (λ h. (over_cutoff, ground arith, refl), λ h. ground arith)
