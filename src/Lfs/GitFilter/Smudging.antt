-- ===== src/Lfs/GitFilter/Smudging.antt =====
-- lfs/gitfilter_smudge.go and the command of commands/command_smudge.go: an object is written in place
-- of its pointer. What a download leaves at the path of an object is an argument.
pub mod Restoring
use mathlib.Core.List.{reverse}
use git_lfs.Prelude.{
  ℕ, ◌+◌, Bool, true, false, not, ◌&&◌, ◌||◌, Option, none, some, List, [], ◌∷◌, ◌++◌, Text, length,
  text_comparable, ◌==◌, eqb, if◌then◌else◌,
}
use git_lfs.Prelude.Dict
use git_lfs.Prelude.Dict.{Dict}
use git_lfs.Config.{Extension}
use git_lfs.Config.Values.{sort_extensions}
use git_lfs.Lfs.Pointer.{Pointer, PointerExtension, encoded, empty_object}
use git_lfs.Lfs.Pointer.Errors.{Decoded, refused, decoded}
use git_lfs.Lfs.Pointer.Decoding.{Reader, decode_from}
use git_lfs.Lfs.GitFilter.{
  FilterError, Filtered, failed, done, ◌>>=◌, crashed, same_priority, not_configured, name_mismatch,
  oid_mismatch, download_declined, download_failed, not_opened, not_a_pointer, Store, object_path,
  object_size, put_object, link_or_copy_from_reference,
}
use git_lfs.Lfs.GitFilter.Cleaning.{read_all}
use git_lfs.Lfs.GitFilter.Pipe.{PipeExtResult, smudge_action, pipe_extensions}

-- The extensions of a pointer as they are configured, with the pointer's priorities, by name.
unfoldable pub pointer_extensions :
    Dict Text Extension
    → List PointerExtension
    → Dict Text Extension
    → Filtered (Dict Text Extension)
unfolding Dict.lookup Dict.insert
pointer_extensions registered [] found = done found
pointer_extensions registered (x ∷ exts) found = elim (Dict.lookup x.name registered) [
  | none ↦ failed (not_configured x.name)
  | some ext ↦
      pointer_extensions registered exts
        (Dict.insert ext.name (record ext { priority = x.priority }) found)
]

abbrev pub sorted_or_failed : Option (List Extension) → Filtered (List Extension)
sorted_or_failed none = failed same_priority
sorted_or_failed (some exts) = done exts

-- The map of the results by name: of two with one name, the last.
abbrev pub result_named : Text → List PipeExtResult → Option PipeExtResult → Option PipeExtResult
result_named name [] found = found
result_named name (r ∷ results) found =
    result_named name results (if r.name == name then some r else found)

unfoldable pub verify_extensions : List PointerExtension → List PipeExtResult → Filtered (Unit {0})
verify_extensions [] results = done tt
verify_extensions (expected ∷ exts) results =
    let rest = verify_extensions exts results in
    elim (result_named expected.name results none) [
      | none ↦ failed crashed
      | some actual ↦
          if not (actual.name == expected.name)
          then failed (name_mismatch expected.name)
          else if not (actual.oid_out == expected.oid)
          then failed (oid_mismatch expected.oid)
          else rest
    ]

-- "verify name, order, and oids"
unfoldable pub verify_results : Pointer → Text × List PipeExtResult → Filtered Text
unfolding verify_extensions
verify_results p (file, []) = failed crashed
verify_results p (file, r ∷ results) =
    if not (p.oid == r.oid_in)
    then failed (oid_mismatch p.oid)
    else verify_extensions p.extensions (r ∷ results) >>= λ _. done file

-- An object of another size than the pointer's is removed.
unfoldable pub drop_invalid : Store → Text → ℕ → Store
unfolding object_size Dict.delete
drop_invalid s oid size = elim (object_size s oid) [
  | none ↦ s
  | some n ↦ if eqb n size then s else record s { objects = Dict.delete oid s.objects }
]

abbrev pub is_present : Option ℕ → ℕ → Bool
is_present none size = false
is_present (some n) size = eqb n size

-- The command `smudge`: the objects, what is written, and the error that is reported if any.
-- A download that is declined is no error where none was asked for.
abbrev pub reported_error : (download : Bool) → FilterError → Option FilterError
reported_error false download_declined = none
reported_error download e = some e

abbrev pub smudged :
    (download : Bool) → Pointer → Store × Filtered Text → Store × Text × Option FilterError
smudged download p (s, done content) = (s, content, none)
smudged download p (s, failed e) = (s, encoded p, reported_error download e)

-- What is no pointer is written as it is, which is an error unless it is empty.
abbrev pub is_not_a_pointer : Text → Option FilterError
is_not_a_pointer [] = none
is_not_a_pointer (c ∷ content) = some not_a_pointer

abbrev pub spooled : Store → Filtered Text → Store × Text × Option FilterError
spooled s (failed e) = (s, [], some e)
spooled s (done content) = (s, content, is_not_a_pointer content)

module _ (sha256_hex : Text → Text) (run : List Text → Text → Option Text) where
  unfoldable pub smudge_extensions : Dict Text Extension → Pointer → Text → Text → Filtered Text
  unfolding pointer_extensions sort_extensions pipe_extensions verify_results
  smudge_extensions registered p file_name content = do
    extensions ← pointer_extensions registered p.extensions []
    exts ← sorted_or_failed (sort_extensions extensions)
    piped ← pipe_extensions sha256_hex run smudge_action file_name (reverse exts) content
    verify_results p piped

  -- What `readLocalFile` writes of the file with that content.
  unfoldable pub read_content : Dict Text Extension → Pointer → Text → Text → Filtered Text
  unfolding smudge_extensions
  read_content registered p file_name content = elim p.extensions [
    | [] ↦ done content
    | _ ∷ _ ↦ smudge_extensions registered p file_name content
  ]

  -- The null device can be opened, and is empty.
  unfoldable pub read_local_file : Dict Text Extension → Store → Pointer → Text → Filtered Text
  unfolding read_content Dict.lookup
  read_local_file registered s p file_name =
      if p.oid == empty_object
      then read_content registered p file_name []
      else elim (Dict.lookup p.oid s.objects) [
        | none ↦ failed not_opened
        | some content ↦ read_content registered p file_name content
      ]

  -- `downloadFile`, given what the transfer queue leaves at the path; `none` where it has errors.
  unfoldable pub download_file :
      Dict Text Extension → Store → Pointer → Text → Option Text → Store × Filtered Text
  unfolding read_local_file put_object
  download_file registered s p file_name none = (s, failed download_failed)
  download_file registered s p file_name (some content) =
      let s' = put_object s p.oid content in (s', read_local_file registered s' p file_name)

  -- `GitFilter.Smudge`: the objects, and what is written.
  unfoldable pub smudge :
      Dict Text Extension
      → Store
      → Pointer
      → Text
      → (download : Bool) → (downloaded : Text → ℕ → Option Text) → Store × Filtered Text
  smudge registered s p file_name download downloaded = elim (object_path p.oid) [
    | failed e ↦ (s, failed e)
    | done path ↦
        let linked = link_or_copy_from_reference s p.oid p.size in
        let s' = drop_invalid linked p.oid p.size in
        if eqb p.size 0
        then (s', done [])
        else if is_present (object_size linked p.oid) p.size
        then (s', read_local_file registered s' p file_name)
        else if download
        then download_file registered s' p file_name (downloaded p.oid p.size)
        else (s', failed download_declined)
  ]

module _ (sha256_hex : Text → Text) (run : List Text → Text → Option Text)
    (order : Dict Text Text → Dict Text Text) where
  unfoldable pub smudge_command :
      Dict Text Extension
      → Store
      → Reader
      → Text
      → (skip allowed : Bool) → (downloaded : Text → ℕ → Option Text)
      → Store × Text × Option FilterError
  smudge_command registered s r file_name skip allowed downloaded = elim (decode_from order r).0 [
    | refused e ↦ spooled s (read_all r)
    | decoded p ↦
        let linked = link_or_copy_from_reference s p.oid p.size in
        smudged (not skip && allowed) p
          (smudge sha256_hex run registered linked p file_name (not skip && allowed) downloaded)
  ]
