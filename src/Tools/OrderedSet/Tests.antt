-- ===== src/Tools/OrderedSet/Tests.antt =====
-- Runs of tools/ordered_set.go, and the theorems at concrete sets.
use git_lfs.Prelude.{
  ℕ, ◌≡◌, refl, true, not, ◌&&◌, none, some, [], ◌∷◌, Text, codes, length, keep, elem, index_of,
  ◌-◌, Option, text_comparable, ◌||◌,
}
use git_lfs.Prelude.Dict
use git_lfs.Tools.OrderedSet.{
  OrderedSet, add, clone, add_all, from_slice, new_ordered_set, contains, remove, difference,
  symmetric_difference, equal, cardinality,
}
use git_lfs.Tools.OrderedSet.Valid.{IsValid, IsValid-new, add-IsValid, add_all-IsValid}
use git_lfs.Tools.OrderedSet.Content.{outside, difference_content, symmetric_difference_content}
use git_lfs.Tools.OrderedSet.Equality.{equal-clone}
use git_lfs.Tools.OrderedSet.Removal.{remove_invalid}

abbrev a : Text
a = codes "a"

abbrev b : Text
b = codes "b"

abbrev c : Text
c = codes "c"

abbrev abc : OrderedSet
abc = add_all new_ordered_set (a ∷ b ∷ c ∷ [])

abbrev bc : OrderedSet
bc = add_all new_ordered_set (b ∷ c ∷ [])

abc-IsValid : IsValid abc
abc-IsValid = add_all-IsValid new_ordered_set (a ∷ b ∷ c ∷ []) IsValid-new

bc-IsValid : IsValid bc
bc-IsValid = add_all-IsValid new_ordered_set (b ∷ c ∷ []) IsValid-new

holds_b : contains abc b ≡ true
unfolding add_all add contains Dict.lookup Dict.insert
holds_b = refl

infixl 5 ◌>>=◌
abbrev ◌>>=◌ : {A B : Type 0} → Option A → (A → Option B) → Option B
none >>= f = none
some x >>= f = f x

-- Removing a, c and b of three elements puts c back with the index -1, and the next removal panics.
removals_panic : (do s ← remove abc a; s ← remove s c; s ← remove s b; remove s c) ≡ none
unfolding add_all add remove Dict.lookup Dict.insert Dict.delete
removals_panic = refl

-- Two removals empty the set, and its cardinality is two.
emptied : Option ℕ
emptied = do
  s ← remove (add_all new_ordered_set (a ∷ b ∷ [])) a
  s ← remove s b
  some (cardinality s)

emptied_size : emptied ≡ some 2
unfolding emptied cardinality add_all add remove Dict.lookup Dict.insert Dict.delete
emptied_size = refl

add-IsValid_example : IsValid (add abc (codes "d")).0
add-IsValid_example = add-IsValid abc (codes "d") abc-IsValid

difference_content_example :
    IsValid (difference abc bc) × ((difference abc bc).s ≡ keep (outside bc) abc.s)
difference_content_example = difference_content abc bc abc-IsValid bc-IsValid

symmetric_difference_content_example :
    IsValid (symmetric_difference abc bc)
    × ((k : Text)
        → contains (symmetric_difference abc bc) k
          ≡ ((elem k abc.s && not (elem k bc.s)) || (elem k bc.s && not (elem k abc.s))))
symmetric_difference_content_example = symmetric_difference_content abc bc abc-IsValid bc-IsValid

equal-clone_example :
    equal (from_slice (a ∷ a ∷ b ∷ [])) (clone (from_slice (a ∷ a ∷ b ∷ []))) ≡ true
equal-clone_example = equal-clone (a ∷ a ∷ b ∷ [])

remove_invalid_example :
    (st' : OrderedSet) × (remove abc b ≡ some st')
    × (¬ IsValid st')
    × (index_of b abc.s ≡ some (length abc.s - 1) → st'.s ≡ abc.s)
remove_invalid_example = remove_invalid abc b abc-IsValid holds_b
