-- ===== src/Tools/StringSet/Algebra.antt =====
-- Membership in the results of the set operations.
use git_lfs.Prelude.{
  ◌≡◌, ◌↔◌, refl, sym, ◌∙◌, true, false, not, ◌&&◌, ◌||◌, List, [], ◌∷◌, Text, keep, elem,
  elem-append, elem-keep, Uniq, Uniq-append-new, all-elem, all_of_elem, ◌==◌, text_comparable,
  same_text_iff, arith, Bool-cases, inl, inr,
}
use git_lfs.Tools.StringSet.{
  StringSet, new_string_set, contains, add, add_all, from_slice, is_subset, contains_all, union,
  intersect, difference, symmetric_difference, remove, clone,
}

pub contains-add :
    (set : StringSet) (i k : Text) → contains (add set i).0 k ≡ (i == k || contains set k)
unfolding contains add elem
contains-add set i k = ground (arith, elem-append k set (i ∷ []), same_text_iff i k)

pub add-Uniq : (set : StringSet) (i : Text) → Uniq set → Uniq (add set i).0
unfolding add
add-Uniq set i u = elim (Bool-cases (elem i set)) [
  | inl old ↦ rw (old) u
  | inr new ↦ rw (new) (Uniq-append-new set i u new)
]

pub contains-add_all :
    (set : StringSet) (xs : List Text) (k : Text)
    → contains (add_all set xs) k ≡ (contains set k || elem k xs)
unfolding add_all elem
contains-add_all set [] k = ground arith
contains-add_all set (x ∷ xs) k =
    ground (arith, contains-add_all (add set x).0 xs k, contains-add set x k)

pub add_all-Uniq : (set : StringSet) (xs : List Text) → Uniq set → Uniq (add_all set xs)
unfolding add_all
add_all-Uniq set [] u = u
add_all-Uniq set (x ∷ xs) u = add_all-Uniq (add set x).0 xs (add-Uniq set x u)

contains-new : (k : Text) → contains new_string_set k ≡ false
unfolding contains elem
contains-new k = refl

contains-from_slice :
    (xs : List Text) (k : Text) → contains (add_all new_string_set xs) k ≡ elem k xs
contains-from_slice xs k = ground (arith, contains-add_all new_string_set xs k, contains-new k)

module _ (a b : StringSet) (k : Text) where
  contains-union : contains (union a b) k ≡ (contains a k || contains b k)
  unfolding union contains
  contains-union =
      ground (arith, contains-add_all (add_all new_string_set a) b k, contains-from_slice a k)

  contains-intersect : contains (intersect a b) k ≡ (contains a k && contains b k)
  unfolding intersect contains
  contains-intersect = ground (
    arith,
    contains-from_slice (keep (contains b) a) k,
    contains-from_slice (keep (contains a) b) k,
    elem-keep (contains b) k a,
    elem-keep (contains a) k b,
  )

  contains-difference : contains (difference a b) k ≡ (contains a k && not (contains b k))
  unfolding difference contains
  contains-difference = ground (
    arith,
    contains-from_slice (keep (λ x. not (contains b x)) a) k,
    elem-keep (λ x. not (contains b x)) k a,
  )

contains-symmetric_difference :
    (a b : StringSet) (k : Text)
    → contains (symmetric_difference a b) k
      ≡ ((contains a k && not (contains b k)) || (contains b k && not (contains a k)))
unfolding symmetric_difference
contains-symmetric_difference a b k =
    rw contains-union (rw contains-difference (rw contains-difference refl))

contains-remove :
    (a : StringSet) (i k : Text) → contains (remove a i) k ≡ (contains a k && not (k == i))
unfolding remove contains
contains-remove a i k = elem-keep (λ x. not (x == i)) k a

contains-clone : (a : StringSet) (k : Text) → contains (clone a) k ≡ contains a k
unfolding clone contains
contains-clone a k = contains-from_slice a k

-- For all string sets, what Union, Intersect, Difference, SymmetricDifference, Remove and Clone
-- contain, in terms of what the arguments contain.
pub contains_operations :
    (a b : StringSet) (k : Text)
    → (contains (union a b) k ≡ (contains a k || contains b k))
      × (contains (intersect a b) k ≡ (contains a k && contains b k))
      × (contains (difference a b) k ≡ (contains a k && not (contains b k)))
      × (contains (symmetric_difference a b) k
          ≡ ((contains a k && not (contains b k)) || (contains b k && not (contains a k))))
      × ((i : Text) → contains (remove a i) k ≡ (contains a k && not (k == i)))
      × (contains (clone a) k ≡ contains a k)
contains_operations a b k = (
  contains-union a b k,
  contains-intersect a b k,
  contains-difference a b k,
  contains-symmetric_difference a b k,
  λ i. contains-remove a i k,
  contains-clone a k,
)

-- `IsSubset` is true exactly when every item of this set is in the other.
pub is_subset_iff :
    (a b : StringSet)
    → (is_subset a b ≡ true) ↔ ((k : Text) → contains a k ≡ true → contains b k ≡ true)
unfolding is_subset contains
is_subset_iff a b = (λ h k m. all-elem (contains b) k a h m, λ h. all_of_elem (contains b) a h)

-- `ContainsAll` is true exactly when the set contains each of the items.
pub contains_all_iff :
    (set : StringSet) (xs : List Text)
    → (contains_all set xs ≡ true) ↔ ((k : Text) → elem k xs ≡ true → contains set k ≡ true)
unfolding contains_all from_slice
contains_all_iff set xs = (
  λ h k m. (is_subset_iff (add_all new_string_set xs) set).0 h k (contains-from_slice xs k ∙ m),
  λ h.
      (is_subset_iff (add_all new_string_set xs) set).1
        (λ k m. h k (sym (contains-from_slice xs k) ∙ m)),
)
