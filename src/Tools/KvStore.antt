-- ===== src/Tools/KvStore.antt =====
-- tools/kv/keyvaluestore.go: a map with a log of unsaved changes, and a file with a version.
-- Values are of any type `V`. The gob coder, the file system and the mutexes are not modelled: a
-- file is what the decoder reads in it, and whether a system call works is an argument.
pub mod Replay
pub mod Session
pub mod Saving
mod Tests
use git_lfs.Prelude.{
  ℕ, ◌+◌, ◌%◌, ◌^◌, Bool, true, false, not, Option, none, some, List, [], ◌∷◌, ◌++◌, map, Text,
  text_comparable, eqb, if◌then◌else◌,
}
use git_lfs.Prelude.Dict
use git_lfs.Prelude.Dict.{Dict}
use git_lfs.Prelude.Dict.Laws.{keys}

pub data Change (V : Type 0) : Type 0 where
  set_operation : Text → V → Change V
  remove_operation : Text → Change V

pub record Store (V : Type 0) : Type 0 where
  pub log : List (Change V)
  -- an `int64`, as its bit pattern
  pub version : ℕ
  pub db : Dict Text V

-- What `Stat` and the decoder find at the store's file name. `no_version` is a file whose first
-- value is not decoded (so is one whose writing failed), and `no_db` one whose second is not.
pub data File (V : Type 0) : Type 0 where
  absent : File V
  empty : File V
  no_version : File V
  no_db : ℕ → File V
  contents : ℕ → Dict Text V → File V

pub data Error : Type 0 where
  stat_failed open_failed bad_version bad_db version_not_written db_not_written : Error

pub next_version : ℕ → ℕ
next_version v = (v + 1) % 2 ^ 64

module _ {V : Type 0} where
  abbrev pub log_change : List (Change V) → Change V → List (Change V)
  log_change log c = log ++ c ∷ []

  unfoldable pub set : Store V → Text → V → Store V
  set k key value = record k {
    db = Dict.insert key value k.db;
    log = log_change k.log (set_operation key value);
  }

  unfoldable pub remove : Store V → Text → Store V
  remove k key = record k {
    db = Dict.delete key k.db;
    log = log_change k.log (remove_operation key);
  }

  unfoldable pub remove_all : Store V → Store V
  remove_all k = record k { log = k.log ++ map (λ key. remove_operation key) (keys k.db); db = [] }

  unfoldable pub get : Store V → Text → Option V
  get k key = Dict.lookup key k.db

  -- `Visit`: the entries that the callback is given, up to the first that it stops at.
  unfoldable pub visit : (Text → V → Bool) → Dict Text V → List (Text × V)
  visit cb [] = []
  visit cb ((key, v) ∷ m) = (key, v) ∷ (if cb key v then visit cb m else [])

  unfoldable pub apply : Dict Text V → Change V → Dict Text V
  apply base (set_operation key value) = Dict.insert key value base
  apply base (remove_operation key) = Dict.delete key base

  -- The loop of `reapplyChanges`.
  unfoldable pub reapply : Dict Text V → List (Change V) → Dict Text V
  unfolding apply
  reapply base [] = base
  reapply base (c ∷ log) = reapply (apply base c) log

  pub reapply_changes : Store V → Dict Text V → Store V
  reapply_changes k base = record k { db = reapply base k.log }

  -- `loadAndMergeReaderIfNeeded` on a file that is not empty.
  pub load_and_merge_reader : Store V → File V → Store V × Option Error
  unfolding reapply_changes
  load_and_merge_reader k absent = (k, some bad_version)
  load_and_merge_reader k empty = (k, some bad_version)
  load_and_merge_reader k no_version = (k, some bad_version)
  load_and_merge_reader k (no_db v) = if eqb v k.version then (k, none) else (k, some bad_db)
  load_and_merge_reader k (contents v base) =
      if eqb v k.version then (k, none) else (record (reapply_changes k base) { version = v }, none)

  -- `loadAndMergeIfNeeded`; the flags say whether `Stat` (of a file that is there) and the opening
  -- work.
  pub load_and_merge : (stats opens : Bool) → Store V → File V → Store V × Option Error
  unfolding load_and_merge_reader
  load_and_merge stats opens k absent = if stats then (k, none) else (k, some stat_failed)
  load_and_merge stats opens k empty = if stats then (k, none) else (k, some stat_failed)
  load_and_merge stats opens k f =
      if stats
      then if opens then load_and_merge_reader k f else (k, some open_failed)
      else (k, some stat_failed)

  unfoldable pub new_store : (stats opens : Bool) → File V → Store V × Option Error
  unfolding load_and_merge
  new_store stats opens f = load_and_merge stats opens (record { log = []; version = 0; db = [] }) f

  -- Only a file with something in it is merged; the error of the merge is dropped.
  merged : Store V → File V → Store V
  unfolding load_and_merge_reader
  merged k absent = k
  merged k empty = k
  merged k f = (load_and_merge_reader k f).0

  -- `Save`: the store, the file, and the error.
  unfoldable pub save :
      (opens version_ok db_ok : Bool) → Store V → File V → Store V × File V × Option Error
  unfolding merged next_version
  save opens version_ok db_ok k f = elim k.log [
    | [] ↦ (k, f, none)
    | _ ∷ _ ↦
        if opens
        then (let k' = record (merged k f) { version = next_version (merged k f).version } in
            if version_ok
            then if db_ok
              then (record k' { log = [] }, contents k'.version k'.db, none)
              else (k', no_db k'.version, some db_not_written)
            else (k', no_version, some version_not_written))
        else (k, f, some open_failed)
  ]
