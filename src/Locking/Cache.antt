-- ===== src/Locking/Cache.antt =====
-- locking/cache.go: the locks that the client holds, in the store of tools/kv, each under its path
-- and under its ID; and their search (searchLocalLocks in locking/locks.go). The source's store keeps
-- values of any type; this one only pointers to locks, which none but `Add` puts there.
pub mod Pairs
pub mod Reaching
pub mod Searching
mod Tests
use git_lfs.Prelude.{
  ℕ, ◌+◌, ◌⊎◌, inl, inr, Bool, true, false, not, ◌&&◌, ◌||◌, Option, none, some, List, [], ◌∷◌,
  ◌++◌, length, drop, Text, codes, text_comparable, ◌==◌, leb, if◌then◌else◌,
}
use git_lfs.Prelude.Int.{ℤ, pos, negsuc}
use git_lfs.Prelude.Dict
use git_lfs.Prelude.Dict.{Dict}
use git_lfs.Strings.{has_prefix}
use git_lfs.Tools.KvStore.{Store, File, Error, new_store, save, set, get, remove, remove_all, visit}

pub record Lock : Type 0 where
  pub id : Text
  pub path : Text
  -- the owner's name, if there is an owner
  pub owner : Option Text
  pub locked_at : ℕ

abbrev pub LockCache : Type 0
LockCache = Store Lock

-- `NewLockCache`, on what the store finds.
pub new_lock_cache : (stats opens : Bool) → File Lock → LockCache ⊎ Error
unfolding new_store
new_lock_cache stats opens f = opened (new_store stats opens f)
  where
    opened : Store Lock × Option Error → LockCache ⊎ Error
    opened (kv, none) = inl kv
    opened (kv, some err) = inr err

abbrev pub id_key_prefix : Text
id_key_prefix = codes "*id*://"

unfoldable pub is_id_key : Text → Bool
unfolding has_prefix
is_id_key key = has_prefix id_key_prefix key

unfoldable pub encode_id_key : Text → Text
unfolding is_id_key
encode_id_key id = if not (is_id_key id) then id_key_prefix ++ id else id

unfoldable pub decode_id_key : Text → Text
unfolding is_id_key
decode_id_key key = if is_id_key key then drop (length id_key_prefix) key else key

unfoldable pub add : LockCache → Lock → LockCache
unfolding set encode_id_key
add c l = set (set c l.path l) (encode_id_key l.id) l

unfoldable pub remove_by_path : LockCache → Text → LockCache
unfolding get remove encode_id_key
remove_by_path c file_path = elim (get c file_path) [
  | none ↦ c
  | some lock ↦ remove (remove c lock.path) (encode_id_key lock.id)
]

unfoldable pub remove_by_id : LockCache → Text → LockCache
unfolding get remove encode_id_key
remove_by_id c id = elim (get c (encode_id_key id)) [
  | none ↦ c
  | some lock ↦ remove (remove c (encode_id_key id)) lock.path
]

pub save_cache :
    (opens version_ok db_ok : Bool) → LockCache → File Lock → LockCache × File Lock × Option Error
unfolding save
save_cache opens version_ok db_ok c f = save opens version_ok db_ok c f

-- What the callback of `Locks` keeps of the entries that it is given.
unfoldable pub locks_of : List (Text × Lock) → List Lock
unfolding is_id_key
locks_of [] = []
locks_of ((key, lock) ∷ entries) =
    let rest = locks_of entries in if not (is_id_key key) then lock ∷ rest else rest

unfoldable pub locks : LockCache → List Lock
unfolding locks_of visit
locks c = locks_of (visit (λ key val. true) c.db)

unfoldable pub clear : LockCache → LockCache
unfolding remove_all
clear c = remove_all c

-- Whether a filter is given and asks for another value.
abbrev pub asks_other : Option Text → Text → Bool
asks_other none value = false
asks_other (some asked) value = not (asked == value)

-- `limit > 0 && lockCount >= limit`
unfoldable pub is_enough : ℤ → ℕ → Bool
is_enough (pos n) count = not (leb n 0) && leb n count
is_enough (negsuc n) count = false

-- The loop of `searchLocalLocks`, with the locks that it found so far counted.
unfoldable pub search_from : (path id : Option Text) → (limit : ℤ) → ℕ → List Lock → List Lock
unfolding is_enough
search_from path id limit count [] = []
search_from path id limit count (l ∷ cached_locks) =
    let skipped = search_from path id limit count cached_locks in
    let rest = search_from path id limit (count + 1) cached_locks in
    if asks_other path l.path || asks_other id l.id
    then skipped
    else if is_enough limit (count + 1)
    then l ∷ []
    else l ∷ rest

unfoldable pub search_local_locks : LockCache → Dict Text Text → (limit : ℤ) → List Lock
unfolding search_from locks Dict.lookup
search_local_locks c filter limit =
    search_from (Dict.lookup (codes "path") filter) (Dict.lookup (codes "id") filter) limit 0
      (locks c)
