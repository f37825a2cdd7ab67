-- ===== src/Tools/OrderedSet.antt =====
-- tools/ordered_set.go: a set of strings in insertion order, kept as a slice and an index map.
-- `MinInt` is that of tools/math.go. A slice expression out of range is a panic, `none`.
pub mod Valid
pub mod Content
pub mod Equality
pub mod Removal
mod Tests
use Prim.Native.Nat.{min}
use git_lfs.Prelude.{
  ℕ, ◌+◌, ◌-◌, Bool, true, false, not, ◌&&◌, Option, none, some, List, [], ◌∷◌, ◌++◌, Text, length,
  take, drop, keep, all, leb, ltb, ◌==◌, text_comparable, if◌then◌else◌,
}
use git_lfs.Prelude.Int.{ℤ, pos, negsuc, sub_ℕ, pred_ℤ, int_comparable}
use git_lfs.Prelude.Dict
use git_lfs.Prelude.Dict.{Dict}

pub record OrderedSet : Type 0 where
  pub s : List Text
  pub m : Dict Text ℤ

abbrev pub new_ordered_set : OrderedSet
new_ordered_set = record { s = []; m = [] }

-- `Add`: the set, and whether the element was added.
unfoldable pub add : OrderedSet → Text → OrderedSet × Bool
add st i = elim (Dict.lookup i st.m) [
  | some _ ↦ (st, false)
  | none ↦
      let s' = st.s ++ i ∷ [] in
      (record { s = s'; m = Dict.insert i (sub_ℕ (length s') 1) st.m }, true)
]

-- The loops that call `Add` for each element.
unfoldable pub add_all : OrderedSet → List Text → OrderedSet
add_all st [] = st
add_all st (e ∷ es) = add_all (add st e).0 es

pub from_slice : List Text → OrderedSet
from_slice xs = add_all new_ordered_set xs

unfoldable pub contains : OrderedSet → Text → Bool
contains st i = elim (Dict.lookup i st.m) [ some _ ↦ true | none ↦ false ]

pub contains_all : OrderedSet → List Text → Bool
contains_all st xs = all (contains st) xs

pub is_subset : OrderedSet → OrderedSet → Bool
is_subset st other = all (contains st) other.s

pub is_superset : OrderedSet → OrderedSet → Bool
is_superset st other = is_subset other st

pub cardinality : OrderedSet → ℕ
cardinality st = length st.s

pub union : OrderedSet → OrderedSet → OrderedSet
union st other = add_all (add_all new_ordered_set st.s) other.s

pub intersect : OrderedSet → OrderedSet → OrderedSet
unfolding cardinality
intersect st other =
    if ltb (cardinality st) (cardinality other)
    then add_all new_ordered_set (keep (contains other) st.s)
    else add_all new_ordered_set (keep (contains st) other.s)

pub difference : OrderedSet → OrderedSet → OrderedSet
difference st other = add_all new_ordered_set (keep (λ e. not (contains other e)) st.s)

pub symmetric_difference : OrderedSet → OrderedSet → OrderedSet
symmetric_difference st other = union (difference st other) (difference other st)

pub clear : OrderedSet → OrderedSet
clear st = record { s = []; m = [] }

-- `m[e]`; a key that is missing reads as 0.
index_at : Dict Text ℤ → Text → ℤ
index_at m e = elim (Dict.lookup e m) [ some v ↦ v | none ↦ pos 0 ]

decrement : Dict Text ℤ → Text → Dict Text ℤ
decrement m e = Dict.insert e (pred_ℤ (index_at m e)) m

decrement_all : Dict Text ℤ → List Text → Dict Text ℤ
decrement_all m [] = m
decrement_all m (e ∷ es) = decrement_all (decrement m e) es

-- The body of `Remove` once the index is known; `none` is a panic. An index above the length, which
-- no set has whose indices are right, counts as one: Go slices up to the capacity, which is not
-- modelled.
remove_at : OrderedSet → Text → ℤ → Option OrderedSet
unfolding index_at decrement decrement_all
remove_at st i (negsuc _) = none
remove_at st i (pos idx) =
    let n = length st.s in
    let rest = min (idx + 1) (n - 1) in
    let s' = take idx st.s ++ drop rest st.s in
    if ltb 0 n && leb idx n
    then some (record { s = s'; m = Dict.delete i (decrement_all st.m (drop rest s')) })
    else none

pub remove : OrderedSet → Text → Option OrderedSet
unfolding remove_at
remove st i = elim (Dict.lookup i st.m) [ none ↦ some st | some idx ↦ remove_at st i idx ]

-- `Iter` yields the elements in this order.
pub iter : OrderedSet → List Text
iter st = st.s

same_index : OrderedSet → Text × ℤ → Bool
same_index other (e, i) = elim (Dict.lookup e other.m) [ none ↦ false | some ci ↦ ci == i ]

pub equal : OrderedSet → OrderedSet → Bool
unfolding cardinality same_index
equal st other =
    if not (leb (cardinality st) (cardinality other) && leb (cardinality other) (cardinality st))
    then false
    else all (same_index other) st.m

pub clone : OrderedSet → OrderedSet
clone st = add_all new_ordered_set st.s
