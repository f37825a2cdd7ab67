-- ===== src/Locking/Cache/Tests.antt =====
-- The cache of locking/cache.go at concrete locks.
use git_lfs.Prelude.{
  ◌≡◌, refl, ◌||◌, none, some, [], ◌∷◌, Text, codes, text_comparable, ◌==◌, keep, arith,
  if◌then◌else◌,
}
use git_lfs.Prelude.Int.{pos}
use git_lfs.Prelude.Dict
use git_lfs.Tools.KvStore.{get}
use git_lfs.Locking.Cache.{
  Lock, LockCache, is_id_key, encode_id_key, add, remove_by_path, remove_by_id, locks,
  search_local_locks,
}
use git_lfs.Locking.Cache.Pairs.{IsPaired, IsAddable}
use git_lfs.Locking.Cache.Reaching.{adds, here, next, reached-IsPaired, remove_by_id-remove_by_path}
use git_lfs.Locking.Cache.Searching.{is_asked, limited, search_local_locks-limited}

abbrev lock_of : Text → Text → Lock
lock_of id path = record { id = id; path = path; owner = none; locked_at = 0 }

abbrev a : Lock
a = lock_of (codes "1") (codes "a")

abbrev b : Lock
b = lock_of (codes "2") (codes "b")

abbrev nothing_cached : LockCache
nothing_cached = record { log = []; version = 0; db = [] }

nothing_cached-IsPaired : IsPaired nothing_cached
unfolding get Dict.lookup
nothing_cached-IsPaired = record {
  by_path = λ key l plain found. absurd (ground arith);
  by_id = λ key l id found. absurd (ground arith);
}

a-IsAddable : IsAddable nothing_cached a
unfolding get Dict.lookup is_id_key
a-IsAddable = record {
  plain = refl;
  same_id = λ old found. absurd (ground arith);
  same_path = λ old found. absurd (ground arith);
}

abbrev only_a : LockCache
only_a = add nothing_cached a

only_a-IsPaired : IsPaired only_a
only_a-IsPaired = reached-IsPaired (next (adds a a-IsAddable) here) nothing_cached-IsPaired

remove_by_id-remove_by_path_example :
    (get (remove_by_id only_a (codes "1")) (codes "a")
      ≡ get (remove_by_path only_a (codes "a")) (codes "a"))
    × (get (remove_by_path only_a (codes "a")) (codes "a") ≡ (
        if encode_id_key (codes "1") == codes "a" || codes "a" == codes "a"
        then none
        else get only_a (codes "a")))
unfolding get add is_id_key Dict.lookup Dict.insert
remove_by_id-remove_by_path_example =
    remove_by_id-remove_by_path only_a a only_a-IsPaired refl refl (codes "a")

search_local_locks-limited_example :
    search_local_locks (add only_a b) ((codes "path", codes "b") ∷ []) (pos 1)
    ≡ limited (pos 1) (keep (is_asked (some (codes "b")) none) (locks (add only_a b)))
unfolding Dict.lookup
search_local_locks-limited_example =
    search_local_locks-limited (add only_a b) ((codes "path", codes "b") ∷ []) (pos 1)

-- The path was locked anew under another ID: the old ID still removes the new lock by its path.
stale_id :
    get (remove_by_id (add only_a (lock_of (codes "2") (codes "a"))) (codes "1")) (codes "a") ≡ none
unfolding get remove_by_id add Dict.lookup Dict.insert Dict.delete
stale_id = refl
