-- ===== src/Prelude/Dict.antt =====
-- Go's maps: a list of entries, in which a read finds the first entry of a key and a write replaces
-- it, or adds an entry behind the others.
pub mod Laws
use git_lfs.Prelude.Equality.{Comparable, ◌==◌}
use git_lfs.Prelude.Tests.{if◌then◌else◌}
use mathlib.Core.Bool.{Bool, true, false}
use mathlib.Core.List.{List, [], ◌∷◌}
use mathlib.Core.Option.{Option, none, some}

abbrev pub Dict {ι κ} : Type ι → Type κ → Type (ι ⊔ κ)
Dict Key Val = List (Key × Val)

module _ {ι κ} {Key : Type ι} {Val : Type κ} ⦃c : Comparable Key⦄ where
  -- `delete(m, key)`
  unfoldable pub delete : Key → Dict Key Val → Dict Key Val
  delete key [] = []
  delete key ((k, old) ∷ more) =
      let rest = delete key more in if k == key then rest else (k, old) ∷ rest

  -- `m[key] = new`
  unfoldable pub insert : Key → Val → Dict Key Val → Dict Key Val
  insert key new [] = (key, new) ∷ []
  insert key new ((k, old) ∷ more) =
      let rest = (k, old) ∷ insert key new more in if k == key then (key, new) ∷ more else rest

  -- `m[key]`
  unfoldable pub lookup : Key → Dict Key Val → Option Val
  lookup key [] = none
  lookup key ((k, found) ∷ more) =
      let rest = lookup key more in if k == key then some found else rest

  -- `_, ok := m[key]`
  unfoldable pub has_key : Key → Dict Key Val → Bool
  unfolding lookup
  has_key key entries = elim (lookup key entries) [ none ↦ false | some _ ↦ true ]
