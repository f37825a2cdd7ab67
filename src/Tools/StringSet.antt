-- ===== src/Tools/StringSet.antt =====
-- tools/stringset.go: a Go map to `struct{}`, which is its list of keys. A loop over the map visits
-- the keys in an order that Go leaves open: here it is the list's, and the theorems hold for each.
pub mod Algebra
pub mod Size
mod Tests
use git_lfs.Prelude.{
  ℕ, Bool, true, false, not, ◌&&◌, List, [], ◌∷◌, ◌++◌, Text, length, keep, all, elem, leb, ltb,
  ◌==◌, text_comparable, if◌then◌else◌,
}

abbrev pub StringSet : Type 0
StringSet = List Text

abbrev pub new_string_set : StringSet
new_string_set = []

unfoldable pub contains : StringSet → Text → Bool
contains set i = elem i set

-- `Add`: the set, and whether the item was not in it.
unfoldable pub add : StringSet → Text → StringSet × Bool
unfolding contains
add set i = (if contains set i then set else set ++ i ∷ [], not (contains set i))

-- The loops that call `Add` for each element, and drop its result.
pub add_all : StringSet → List Text → StringSet
add_all set [] = set
add_all set (x ∷ xs) = add_all (add set x).0 xs

pub from_slice : List Text → StringSet
from_slice xs = add_all new_string_set xs

pub is_subset : StringSet → StringSet → Bool
is_subset set other = all (contains other) set

pub is_superset : StringSet → StringSet → Bool
is_superset set other = is_subset other set

pub contains_all : StringSet → List Text → Bool
contains_all set xs = is_subset (from_slice xs) set

pub cardinality : StringSet → ℕ
cardinality set = length set

pub union : StringSet → StringSet → StringSet
union set other = add_all (add_all new_string_set set) other

pub intersect : StringSet → StringSet → StringSet
unfolding cardinality
intersect set other =
    if ltb (cardinality set) (cardinality other)
    then add_all new_string_set (keep (contains other) set)
    else add_all new_string_set (keep (contains set) other)

pub difference : StringSet → StringSet → StringSet
difference set other = add_all new_string_set (keep (λ x. not (contains other x)) set)

pub symmetric_difference : StringSet → StringSet → StringSet
symmetric_difference set other = union (difference set other) (difference other set)

pub clear : StringSet → StringSet
clear set = []

pub remove : StringSet → Text → StringSet
remove set i = keep (λ x. not (x == i)) set

pub iter : StringSet → List Text
iter set = set

pub equal : StringSet → StringSet → Bool
unfolding cardinality
equal set other =
    if not (leb (cardinality set) (cardinality other) && leb (cardinality other) (cardinality set))
    then false
    else all (contains other) set

pub clone : StringSet → StringSet
clone set = add_all new_string_set set
