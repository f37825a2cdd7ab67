-- ===== src/Prelude/Dict/Laws.antt =====
-- What a read sees after a write or a delete.
use git_lfs.Prelude.Equality.{Comparable, ◌==◌, eq_refl}
use git_lfs.Prelude.Tests.{if◌then◌else◌, Bool-cases}
use git_lfs.Prelude.Dict.{Dict, lookup, insert, delete}
use git_lfs.Prelude.Members.{all, elem, Uniq}
use mathlib.Core.Bool.{Bool, true, ◌||◌}
use mathlib.Core.Path.{◌≡◌, refl}
use mathlib.Core.List.{List, [], ◌∷◌}
use mathlib.Core.Logic.{inl, inr}
use mathlib.Core.Option.{none, some}
use native.Mathlib.Omega.{arith}

module _ {ℓ κ} {K : Type ℓ} {V : Type κ} ⦃c : Comparable K⦄ where
  pub lookup-delete :
      (gone key : K) (m : Dict K V)
      → lookup key (delete gone m) ≡ (if gone == key then none else lookup key m)
  unfolding lookup delete
  lookup-delete gone key [] = ground arith
  lookup-delete gone key ((k, old) ∷ m) =
      ground
        (arith, lookup-delete gone key m, c.same_iff k gone, c.same_iff k key, c.same_iff gone key)

  pub lookup-insert :
      (put key : K) (new : V) (m : Dict K V)
      → lookup key (insert put new m) ≡ (if put == key then some new else lookup key m)
  unfolding lookup insert
  lookup-insert put key new [] = ground arith
  lookup-insert put key new ((k, old) ∷ m) =
      ground
        (arith, lookup-insert put key new m, c.same_iff k put, c.same_iff k key, c.same_iff put key)

  -- The keys that a loop over the map visits.
  abbrev pub keys : Dict K V → List K
  keys [] = []
  keys ((k, v) ∷ m) = k ∷ keys m

  pub elem-keys-insert :
      (k j : K) (v : V) (m : Dict K V) → elem j (keys (insert k v m)) ≡ (k == j || elem j (keys m))
  unfolding insert elem
  elem-keys-insert k j v [] = ground arith
  elem-keys-insert k j v ((i, w) ∷ m) =
      ground (arith, c.same_iff k j, c.same_iff i k, c.same_iff i j, elem-keys-insert k j v m)

  pub insert-Uniq : (k : K) (v : V) (m : Dict K V) → Uniq (keys m) → Uniq (keys (insert k v m))
  unfolding insert elem
  insert-Uniq k v [] u = (refl, tt)
  insert-Uniq k v ((i, w) ∷ m) u = elim (Bool-cases (i == k)) [
    | inl same ↦ rw same (rw ((c.same_iff i k).0 same) at u)
    | inr other ↦ rw other (
      ground (arith, elem-keys-insert k i v m, c.same_iff k i, c.same_iff i k),
      insert-Uniq k v m u.1,
    )
  ]

  -- A test on all entries holds at each entry that a read finds, and conversely.
  pub all-lookup :
      (p : K × V → Bool) (m : Dict K V) (k : K) (v : V)
      → all p m ≡ true
      → lookup k m ≡ some v
      → p (k, v) ≡ true
  unfolding all lookup
  all-lookup p [] k v h l = ground arith
  all-lookup p ((j, w) ∷ m) k v h l = ground (arith, c.same_iff j k, all-lookup p m k v)

  pub lookup-elem : (m : Dict K V) (k : K) (v : V) → lookup k m ≡ some v → elem k (keys m) ≡ true
  unfolding lookup elem
  lookup-elem [] k v h = ground arith
  lookup-elem ((j, w) ∷ m) k v h = ground (arith, lookup-elem m k v)

  pub all_of_lookup :
      (p : K × V → Bool) (m : Dict K V)
      → Uniq (keys m)
      → ((k : K) (v : V) → lookup k m ≡ some v → p (k, v) ≡ true)
      → all p m ≡ true
  unfolding all lookup
  all_of_lookup p [] u h = refl
  all_of_lookup p ((j, w) ∷ m) u h =
      rw (h j w (rw eq_refl)) (
        all_of_lookup p m u.1
          (λ k v l. h k v (ground (arith, lookup-elem m k v l, c.same_iff j k))))
