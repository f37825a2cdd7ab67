-- ===== src/Tools/StringSet/Tests.antt =====
-- The theorems on tools/stringset.go at concrete sets.
use git_lfs.Prelude.{
  ◌≡◌, ◌↔◌, refl, true, not, ◌&&◌, ◌||◌, [], ◌∷◌, Text, codes, elem, ◌==◌, text_comparable, ◌+◌,
  if◌then◌else◌,
}
use git_lfs.Tools.StringSet.{
  StringSet, add_all, new_string_set, contains, contains_all, is_subset, add, equal,
}
use git_lfs.Tools.StringSet.Algebra.{add_all-Uniq, is_subset_iff, contains_all_iff}
use git_lfs.Tools.StringSet.Size.{equal_iff_keys}

abbrev a : Text
a = codes "a"

abbrev b : Text
b = codes "b"

abbrev ab : StringSet
ab = add_all new_string_set (a ∷ b ∷ a ∷ [])

abbrev ba : StringSet
ba = add_all new_string_set (b ∷ a ∷ [])

equal_other_order : equal ab ba ≡ true
unfolding equal add_all add contains elem git_lfs.Prelude.all
equal_other_order = refl

equal_iff_keys_example : (equal ab ba ≡ true) ↔ ((k : Text) → contains ab k ≡ contains ba k)
equal_iff_keys_example =
    equal_iff_keys ab ba (add_all-Uniq new_string_set (a ∷ b ∷ a ∷ []) tt)
      (add_all-Uniq new_string_set (b ∷ a ∷ []) tt)

is_subset_iff_example :
    (is_subset ab ba ≡ true) ↔ ((k : Text) → contains ab k ≡ true → contains ba k ≡ true)
is_subset_iff_example = is_subset_iff ab ba

contains_all_iff_example :
    (contains_all ab (a ∷ a ∷ []) ≡ true)
    ↔ ((k : Text) → elem k (a ∷ a ∷ []) ≡ true → contains ab k ≡ true)
contains_all_iff_example = contains_all_iff ab (a ∷ a ∷ [])
