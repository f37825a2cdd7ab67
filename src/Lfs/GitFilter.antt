-- ===== src/Lfs/GitFilter.antt =====
-- The clean and smudge filters: lfs/gitfilter_clean.go, lfs/gitfilter_smudge.go, with the commands of
-- commands/command_clean.go and commands/command_smudge.go; `Pipe` has lfs/extension.go. SHA-256 in
-- hexadecimal, the programs of the extensions and the downloads are arguments. Files are their
-- contents: temporary files work, and a file that is written can be read.
pub mod Pipe
pub mod Cleaning
pub mod Smudging
pub mod Copying
pub mod RoundTrip
pub mod Storing
mod Tests
use git_lfs.Prelude.{
  ℕ, ◌+◌, Bool, true, false, not, ◌||◌, ◌&&◌, Option, none, some, List, [], ◌∷◌, ◌++◌, Text, codes,
  length, text_comparable, ◌==◌, eqb, ltb, if◌then◌else◌,
}
use git_lfs.Prelude.Dict
use git_lfs.Prelude.Dict.{Dict}
use git_lfs.Lfs.Pointer.{empty_object}

pub data FilterError : Type 0 where
  -- with the name of the extension unless it is the last
  extension_failed : Option Text → FilterError
  -- "Invalid action", or an index or a nil pointer that is followed
  crashed : FilterError
  same_priority short_oid read_failed download_failed download_declined not_opened not_a_pointer :
      FilterError
  not_configured name_mismatch oid_mismatch : Text → FilterError

pub data Filtered {ι} (Val : Type ι) : Type ι where
  failed : FilterError → Filtered Val
  done : Val → Filtered Val

infixl 5 ◌>>=◌
abbrev pub ◌>>=◌ {ι ν} :
    {Val : Type ι} {Next : Type ν} → Filtered Val → (Val → Filtered Next) → Filtered Next
failed why >>= _ = failed why
done v >>= next = next v

-- The local objects by their ID, and those of the reference repositories.
pub record Store : Type 0 where
  pub objects : Dict Text Text
  pub references : List (Dict Text Text)

-- `ObjectPath`: the empty object stands for the null device, which is there and is empty.
unfoldable pub object_path : Text → Filtered Text
object_path oid = if ltb (length oid) 4 then failed short_oid else done oid

abbrev size_of : Option Text → Option ℕ
size_of none = none
size_of (some content) = some (length content)

-- `os.Stat` at the path of an object.
unfoldable pub object_size : Store → Text → Option ℕ
unfolding Dict.lookup
object_size s oid = if oid == empty_object then some 0 else size_of (Dict.lookup oid s.objects)

abbrev is_size : Option ℕ → ℕ → Bool
is_size none size = false
is_size (some n) size = eqb n size

unfoldable pub object_exists : Store → Text → ℕ → Bool
unfolding object_size
object_exists s oid size = eqb size 0 || is_size (object_size s oid) size

-- The first reference that has the object with that size.
unfoldable pub find_reference : List (Dict Text Text) → Text → ℕ → Option Text
unfolding Dict.lookup
find_reference [] oid size = none
find_reference (r ∷ references) oid size =
    let others = find_reference references oid size in
    if is_size (size_of (Dict.lookup oid r)) size then Dict.lookup oid r else others

-- The object is put at its path: over the null device, nothing is.
unfoldable pub put_object : Store → Text → Text → Store
unfolding Dict.insert
put_object s oid content =
    if oid == empty_object then s else record s { objects = Dict.insert oid content s.objects }

unfoldable pub link_or_copy_from_reference : Store → Text → ℕ → Store
unfolding object_exists object_path find_reference put_object
link_or_copy_from_reference s oid size =
    if object_exists s oid size || ltb (length oid) 4
    then s
    else elim (find_reference s.references oid size) [
      | none ↦ s
      | some content ↦ put_object s oid content
    ]
