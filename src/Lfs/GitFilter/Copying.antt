-- ===== src/Lfs/GitFilter/Copying.antt =====
-- The clean filter without extensions: copyToTemp of lfs/gitfilter_clean.go, on content that is no
-- pointer.
use git_lfs.Prelude.{
  ◌≡◌, ◌≢◌, ◌⊎◌, refl, sym, ap, ◌∙◌, Bool, true, false, ◌&&◌, Option, inl, inr, List, [], ◌∷◌, ◌++◌,
  append-nil, Text, length, text_comparable, ltb, if◌then◌else◌,
}
use git_lfs.Prelude.Int.{ℤ}
use git_lfs.Prelude.Dict.{Dict}
use git_lfs.Lfs.Pointer.Decoding.{
  Reader, ReadStatus, more, end_of_file, blob_size_cutoff, contents, decode_from, matches_oid,
}
use git_lfs.Lfs.Pointer.Decoding
use git_lfs.Lfs.GitFilter.Pipe.{is_written}
use git_lfs.Lfs.GitFilter.Cleaning.{copied, is_decoded, reads_on, buffered, copy_to_temp}

-- Content that the clean filter takes for no pointer, and reads to its end.
pub record IsPlain (order : Dict Text Text → Dict Text Text) (r : Reader) (file_size : ℤ) (x : Text)
    : Type 0 where
  pub given : is_written r.first ≡ true
  pub no_failure : r.status ≢ Decoding.failed
  pub no_pointer :
      (is_decoded (decode_from order r).0 && ltb (length r.first) blob_size_cutoff) ≡ false
  pub whole : (reads_on file_size (length r.first) ≡ true) ⊎ (x ≡ r.first)
  pub all : contents r ≡ x

module _ (sha256_hex : Text → Text) (run : List Text → Text → Option Text)
    (order : Dict Text Text → Dict Text Text) where
  -- Whether the rest is read on to or not, all is copied.
  chosen_copy :
      (b : Bool) (first all x : Text)
      → all ≡ x
      → (b ≡ true) ⊎ (x ≡ first)
      → (if b then copied sha256_hex all else copied sha256_hex first) ≡ copied sha256_hex x
  chosen_copy true first all x e whole = ap (copied sha256_hex) e
  chosen_copy false first all x e (inl y) = cc
  chosen_copy false first all x e (inr same) = ap (copied sha256_hex) (sym same)

  copy_plain :
      (first : Text) (status : ReadStatus) (rest : Text) (file_size : ℤ) (x : Text)
      → IsPlain order (record { first = first; status = status; rest = rest }) file_size x
      → copy_to_temp sha256_hex run order
          (record { first = first; status = status; rest = rest })
          file_size
        ≡ copied sha256_hex x
  unfolding copy_to_temp buffered contents
  copy_plain [] status rest file_size x w = cc (w.given)
  copy_plain (c ∷ s) end_of_file rest file_size x w =
      rw (w.no_pointer, if◌then◌else◌)
        (chosen_copy (reads_on file_size (length (c ∷ s))) (c ∷ s) ((c ∷ s) ++ []) x
          (append-nil (c ∷ s) ∙ w.all) w.whole)
  copy_plain (c ∷ s) more rest file_size x w =
      rw (w.no_pointer, if◌then◌else◌)
        (chosen_copy (reads_on file_size (length (c ∷ s))) (c ∷ s) ((c ∷ s) ++ rest) x w.all
          w.whole)
  copy_plain (c ∷ s) Decoding.failed rest file_size x w = absurd (w.no_failure refl)

  pub copy_to_temp_plain :
      (r : Reader) (file_size : ℤ) (x : Text)
      → IsPlain order r file_size x
      → copy_to_temp sha256_hex run order r file_size ≡ copied sha256_hex x
  copy_to_temp_plain r file_size x w = copy_plain r.first r.status r.rest file_size x w
