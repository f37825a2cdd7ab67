-- ===== src/Lfs/GitFilter/RoundTrip.antt =====
-- The commands clean and smudge after each other: commands/command_clean.go, then
-- commands/command_smudge.go on the pointer that was written.
use git_lfs.Prelude.{
  ℕ, ◌<◌, ◌^◌, ◌≡◌, ◌≢◌, ◌⊎◌, refl, sym, ap, ◌∙◌, Bool, false, Option, none, some, List, [], ◌∷◌,
  Text, length, text_comparable, ◌==◌,
}
use git_lfs.Prelude.Int.{ℤ}
use git_lfs.Prelude.Dict
use git_lfs.Prelude.Dict.{Dict}
use git_lfs.Config.{Extension}
use git_lfs.Config.Values.{sort_extensions}
use git_lfs.Lfs.Pointer.{Pointer, PointerExtension, new_pointer, encoded, empty_object}
use git_lfs.Lfs.Pointer.Decoding.{
  Reader, ReadStatus, more, end_of_file, blob_size_cutoff, contents, decode_from, matches_oid,
}
use git_lfs.Lfs.Pointer.Decoding
use git_lfs.Lfs.Pointer.Valid.{IsPointer, matches_oid-All}
use git_lfs.Lfs.Pointer.RoundTrip.{IsOrder, decode_from-encoded}
use git_lfs.Lfs.GitFilter.{done, Store}
use git_lfs.Lfs.GitFilter.Cleaning.{
  copied, cleaned, read_all, pipe_read, clean, wrote, finish_clean,
}
use git_lfs.Lfs.GitFilter.Smudging.{read_content, smudge_command}
use git_lfs.Lfs.GitFilter.Storing.{object_path_lem, smudge_command_stored, store_object-IsStored}
use git_lfs.Lfs.GitFilter.Copying.{IsPlain, copy_to_temp_plain}
use git_lfs.Lfs.GitFilter.Smudging.Restoring.{Leads, AreNamed, AreValid, restore}

-- What the clean filter reads: everything, if there are extensions, or else plain content.
abbrev pub Reads : (Dict Text Text → Dict Text Text) → List Extension → Reader → ℤ → Text → Type 0
Reads order [] r file_size x = IsPlain order r file_size x
Reads order (e ∷ es) r file_size x = read_all r ≡ done x

module _ (sha256_hex : Text → Text) (run : List Text → Text → Option Text)
    (order : Dict Text Text → Dict Text Text) (registered : Dict Text Extension)
    (file_name : Text) where
  clean_restores :
      (es : List Extension) (r : Reader) (file_size : ℤ) (x z : Text)
      → sort_extensions registered ≡ some es
      → AreNamed sha256_hex run registered file_name es
      → Leads sha256_hex run registered file_name es x z
      → Reads order es r file_size x
      → (exts : List PointerExtension) × (clean sha256_hex run order registered r file_name
            file_size
          ≡ cleaned (new_pointer (sha256_hex z) (length z) exts) z)
        × (read_content sha256_hex run registered
              (new_pointer (sha256_hex z) (length z) exts)
              file_name
              z
            ≡ done x)
        × AreValid sha256_hex run registered file_name exts
  unfolding clean read_content copied new_pointer
  clean_restores [] r file_size x z sorted named same reads = (
    [],
    rw (sorted, clean)
        (copy_to_temp_plain sha256_hex run order r file_size x reads ∙ ap (copied sha256_hex) same),
    ap done (sym same),
    (tt, tt),
  )
  clean_restores (e ∷ es) r file_size x z sorted named leads reads =
      let (exts, (piped, read, valid)) =
        restore sha256_hex run registered file_name e es x z named leads in
      (
        exts,
        rw (sorted, clean) (ap (pipe_read sha256_hex run file_name (e ∷ es)) reads ∙ piped),
        read,
        valid,
      )

  -- What is cleaned is smudged back: the command clean writes the pointer and keeps the content,
  -- and the command smudge on that pointer writes the content that was read, without an error and
  -- without a download. This holds with up to two extensions of different names that are configured
  -- with priorities of their own, if the smudge of each undoes its clean on the content and the two
  -- hashes are equal only if the content is; without extensions for content that is read whole and
  -- is taken for no pointer; if the hash has 64 hexadecimal digits, the cleaned content is not
  -- empty, is below 2^63 bytes and has not the hash of the empty object, nothing else is stored
  -- under its hash, the extensions have names that a pointer file can carry, and one read gives the
  -- pointer whole without failing.
  pub smudge_command-clean :
      (es : List Extension) (r : Reader) (file_size : ℤ) (x z : Text) (s : Store)
      (status : ReadStatus) (rest : Text) (skip allowed : Bool)
      (downloaded : Text → ℕ → Option Text)
      → IsOrder order
      → sort_extensions registered ≡ some es
      → AreNamed sha256_hex run registered file_name es
      → Leads sha256_hex run registered file_name es x z
      → Reads order es r file_size x
      → (sha256_hex z == empty_object) ≡ false
      → 0 < length z
      → length z < 2 ^ 63
      → (Dict.lookup (sha256_hex z) s.objects ≡ none)
        ⊎ (Dict.lookup (sha256_hex z) s.objects ≡ some z)
      → status ≢ Decoding.failed
      → (p : Pointer) × (s' : Store) × (finish_clean s
            (clean sha256_hex run order registered r file_name file_size)
          ≡ wrote (encoded p) s')
        × (smudge_command sha256_hex run order registered s'
              (record { first = encoded p; status = status; rest = rest })
              file_name
              skip
              allowed
              downloaded
            ≡ (s', x, none))
  unfolding finish_clean new_pointer
  smudge_command-clean es r file_size x z s status rest skip allowed downloaded visits sorted named
        leads reads other given fits kept reader =
      let (exts, cleans, read, valid) =
        clean_restores es r file_size x z sorted named leads reads in
      let p : Pointer = new_pointer (sha256_hex z) (length z) exts in
      let (s', stored, w) = store_object-IsStored s p z other refl given kept in
      let long : length (sha256_hex z) ≡ 64 = (matches_oid-All (sha256_hex z) (named.0 z)).0 in
      let sound : IsPointer p = record {
        versioned = refl;
        hashed = named.0 z;
        typed = refl;
        positive = given;
        fits = fits;
        extended = valid.0;
        rising = valid.1;
      } in
      (
        p,
        s',
        rw (cleans, finish_clean) (rw (object_path_lem (sha256_hex z) long, finish_clean) stored),
        smudge_command_stored sha256_hex run registered file_name order s'
            (record { first = encoded p; status = status; rest = rest }) p z x skip allowed
            downloaded
            (decode_from-encoded order visits p sound
              (record { first = encoded p; status = status; rest = rest }) refl reader)
            long refl w read,
      )
