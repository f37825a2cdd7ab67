-- ===== src/Lfs/GitFilter/Cleaning.antt =====
-- lfs/gitfilter_clean.go and the command of commands/command_clean.go: content is stored, and a
-- pointer is written in its place.
use git_lfs.Prelude.{
  ℕ, ◌+◌, Bool, true, false, not, ◌&&◌, Option, none, some, List, [], ◌∷◌, ◌++◌, Text, length, take,
  drop, text_comparable, ◌==◌, eqb, ltb, if◌then◌else◌,
}
use git_lfs.Prelude.Int.{ℤ, pos, negsuc}
use git_lfs.Prelude.Dict.{Dict}
use git_lfs.Config.{Extension}
use git_lfs.Config.Values.{sort_extensions}
use git_lfs.Lfs.Pointer.{Pointer, PointerExtension, new_pointer, new_pointer_extension, encoded}
use git_lfs.Lfs.Pointer.Errors.{Decoded, refused, decoded}
use git_lfs.Lfs.Pointer.Decoding.{
  Reader, ReadStatus, more, end_of_file, blob_size_cutoff, contents, decode_from,
}
use git_lfs.Lfs.Pointer.Decoding
use git_lfs.Lfs.GitFilter.{
  FilterError, Filtered, failed, done, same_priority, read_failed, Store, object_path, object_size,
  put_object,
}
use git_lfs.Lfs.GitFilter.Pipe.{PipeExtResult, clean_action, pipe_extensions}

pub data CleanOutcome : Type 0 where
  not_cleaned : FilterError → CleanOutcome
  -- a `CleanPointerError`, with the bytes
  already_pointer : Text → CleanOutcome
  -- the pointer and the content of the temporary file
  cleaned : Pointer → Text → CleanOutcome

-- What the first `Read` of the decoder's second reader gives, and what is behind it; `none` at the
-- end of the file or at an error.
unfoldable pub buffered : Reader → Option (Text × Text)
buffered r = by_first r.first r.status r.rest
  where
    from_rest : Text → Option (Text × Text)
    from_rest [] = none
    from_rest (c ∷ s) = some (take blob_size_cutoff (c ∷ s), drop blob_size_cutoff (c ∷ s))

    by_first : Text → ReadStatus → Text → Option (Text × Text)
    by_first [] end_of_file rest = none
    by_first [] more rest = from_rest rest
    by_first [] Decoding.failed rest = none
    by_first (c ∷ s) end_of_file rest = some (c ∷ s, [])
    by_first (c ∷ s) more rest = some (c ∷ s, rest)
    by_first (c ∷ s) Decoding.failed rest = some (c ∷ s, rest)

-- `fileSize < 0 || int64(len(by)) < fileSize`
unfoldable pub reads_on : ℤ → ℕ → Bool
reads_on (pos n) read = ltb read n
reads_on (negsuc n) read = true

abbrev pub is_decoded : Decoded Pointer → Bool
is_decoded (refused e) = false
is_decoded (decoded p) = true

-- Everything that a reader gives, if it does not fail.
unfoldable pub read_all : Reader → Filtered Text
unfolding contents
read_all r = elim r.status [ Decoding.failed ↦ failed read_failed | _ ↦ done (contents r) ]

-- The extensions that changed the content, numbered in order.
unfoldable pub changed_extensions : ℕ → List PipeExtResult → List PointerExtension
unfolding new_pointer_extension
changed_extensions n [] = []
changed_extensions n (r ∷ results) =
    let changed = new_pointer_extension r.name n r.oid_in ∷ changed_extensions (n + 1) results in
    let same = changed_extensions n results in if r.oid_in == r.oid_out then same else changed

abbrev pub last_oid : List PipeExtResult → Text
last_oid [] = []
last_oid (r ∷ []) = r.oid_out
last_oid (r ∷ s ∷ results) = last_oid (s ∷ results)

unfoldable pub copied : (Text → Text) → Text → CleanOutcome
unfolding new_pointer
copied sha256_hex content = cleaned (new_pointer (sha256_hex content) (length content) []) content

module _ (sha256_hex : Text → Text) (run : List Text → Text → Option Text) where
  abbrev pub piped : Filtered (Text × List PipeExtResult) → CleanOutcome
  piped (failed e) = not_cleaned e
  piped (done (file, results)) =
      cleaned (new_pointer (last_oid results) (length file) (changed_extensions 0 results)) file

  unfoldable pub pipe_read : Text → List Extension → Filtered Text → CleanOutcome
  unfolding pipe_extensions changed_extensions new_pointer
  pipe_read file_name extensions (failed e) = not_cleaned e
  pipe_read file_name extensions (done content) =
      piped (pipe_extensions sha256_hex run clean_action file_name extensions content)

module _ (sha256_hex : Text → Text) (run : List Text → Text → Option Text)
    (order : Dict Text Text → Dict Text Text) where
  -- `copyToTemp`, with the pointer that `Clean` makes.
  unfoldable pub copy_to_temp : Reader → (file_size : ℤ) → CleanOutcome
  unfolding buffered decode_from reads_on copied
  copy_to_temp r file_size = elim (buffered r) [
    | none ↦ already_pointer []
    | some (by, behind) ↦
        if is_decoded (decode_from order r).0 && ltb (length by) blob_size_cutoff
        then already_pointer by
        else if reads_on file_size (length by)
        then copy_on r.status by behind
        else copied sha256_hex by
  ]
    where
      copy_on : ReadStatus → Text → Text → CleanOutcome
      copy_on Decoding.failed by behind = not_cleaned read_failed
      copy_on end_of_file by behind = copied sha256_hex (by ++ behind)
      copy_on more by behind = copied sha256_hex (by ++ behind)

  -- `GitFilter.Clean`
  unfoldable pub clean : Dict Text Extension → Reader → Text → (file_size : ℤ) → CleanOutcome
  unfolding sort_extensions copy_to_temp pipe_read read_all
  clean extensions r file_name file_size = elim (sort_extensions extensions) [
    | none ↦ not_cleaned same_priority
    | some [] ↦ copy_to_temp r file_size
    | some (e ∷ es) ↦ pipe_read sha256_hex run file_name (e ∷ es) (read_all r)
  ]

-- How the command ends: with what it wrote and the objects, or by an exit.
pub data CleanCommand : Type 0 where
  wrote : Text → Store → CleanCommand
  exited : FilterError → CleanCommand
  files_differ : CleanCommand

abbrev pub has_extensions : List PointerExtension → Bool
has_extensions [] = false
has_extensions (ext ∷ exts) = true

-- The content goes to the path of its object unless one is there.
unfoldable pub store_object : Store → Pointer → Text → CleanCommand
unfolding object_size put_object encoded
store_object s p content = elim (object_size s p.oid) [
  | none ↦ wrote (encoded p) (put_object s p.oid content)
  | some n ↦
      if not (eqb n p.size) && not (has_extensions p.extensions)
      then files_differ
      else wrote (encoded p) s
]

unfoldable pub store_at : Filtered Text → Store → Pointer → Text → CleanCommand
unfolding store_object
store_at (failed e) s p content = exited e
store_at (done path) s p content = store_object s p content

-- What the command `clean` does with what the filter gives.
unfoldable pub finish_clean : Store → CleanOutcome → CleanCommand
unfolding object_path store_at
finish_clean s (not_cleaned e) = exited e
finish_clean s (already_pointer by) = wrote by s
finish_clean s (cleaned p content) = store_at (object_path p.oid) s p content
