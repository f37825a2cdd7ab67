-- ===== src/Locking/Cache/Searching.antt =====
-- The search of the cached locks, searchLocalLocks of locking/locks.go.
use git_lfs.Prelude.{
  ℕ, zero, suc, ◌+◌, ◌≡◌, refl, Bool, false, not, ◌||◌, Option, inl, inr, Bool-cases, List, [], ◌∷◌,
  Text, codes, text_comparable, keep, take, arith, if◌then◌else◌,
}
use git_lfs.Prelude.Int.{ℤ, pos, negsuc}
use git_lfs.Prelude.Dict
use git_lfs.Prelude.Dict.{Dict}
use git_lfs.Locking.Cache.{
  Lock, LockCache, locks, asks_other, is_enough, search_from, search_local_locks,
}

-- The lock has the path and the ID that are asked for.
abbrev pub is_asked : (path id : Option Text) → Lock → Bool
is_asked path id l = not (asks_other path l.path || asks_other id l.id)

-- The first locks, at most the limit if it is above zero.
abbrev pub limited : ℤ → List Lock → List Lock
limited (pos zero) ls = ls
limited (pos (suc n)) ls = take (suc n) ls
limited (negsuc n) ls = ls

search_from-unlimited :
    (path id : Option Text) (limit : ℤ) (count : ℕ) (ls : List Lock)
    → ((n : ℕ) → is_enough limit n ≡ false)
    → search_from path id limit count ls ≡ keep (is_asked path id) ls
unfolding search_from keep
search_from-unlimited path id limit count [] free = refl
search_from-unlimited path id limit count (l ∷ ls) free = ground (
  arith,
  free (count + 1),
  search_from-unlimited path id limit count ls free,
  search_from-unlimited path id limit (count + 1) ls free,
)

-- The loop stops at a lock, or goes on with one less to find.
is_enough-take :
    (n m count : ℕ) (l : Lock) (rest kept : List Lock)
    → count + suc m ≡ suc n
    → ((k : ℕ) → m ≡ suc k → rest ≡ take (suc k) kept)
    → (if is_enough (pos (suc n)) (count + 1) then l ∷ [] else l ∷ rest) ≡ l ∷ take m kept
unfolding is_enough
is_enough-take n zero count l rest kept h more = ground arith
is_enough-take n (suc k) count l rest kept h more = ground (arith, more k refl)

search_from-take :
    (path id : Option Text) (n m count : ℕ) (ls : List Lock)
    → count + suc m ≡ suc n
    → search_from path id (pos (suc n)) count ls ≡ take (suc m) (keep (is_asked path id) ls)
unfolding search_from keep
search_from-take path id n m count [] h = refl
search_from-take path id n m count (l ∷ ls) h =
    elim (Bool-cases (asks_other path l.path || asks_other id l.id)) [
      | inl y ↦ rw (y, if◌then◌else◌) (search_from-take path id n m count ls h)
      | inr d ↦
          rw (d, if◌then◌else◌)
            (is_enough-take n m count l _ _ h
              (λ k e. search_from-take path id n k (count + 1) ls (omega (arith, e, h))))
    ]

-- A search of the cached locks finds those of them with the path and the ID that the filter asks
-- for, in the order of the cache, and of these the first ones up to the limit if the limit is above
-- zero.
pub search_local_locks-limited :
    (c : LockCache) (filter : Dict Text Text) (limit : ℤ)
    → search_local_locks c filter limit
      ≡ limited limit (
          keep
            (is_asked (Dict.lookup (codes "path") filter) (Dict.lookup (codes "id") filter))
            (locks c))
unfolding search_local_locks is_enough
search_local_locks-limited c filter (pos zero) =
    search_from-unlimited _ _ (pos zero) 0 (locks c) (λ n. refl)
search_local_locks-limited c filter (pos (suc n)) =
    search_from-take _ _ n n 0 (locks c) (omega arith)
search_local_locks-limited c filter (negsuc n) =
    search_from-unlimited _ _ (negsuc n) 0 (locks c) (λ n. refl)
