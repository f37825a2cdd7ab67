-- ===== src/Tools/OrderedSet/Equality.antt =====
-- `Equal` compares the index maps; on valid sets that decides equality of the sequences.
use git_lfs.Prelude.{
  ℕ, ◌≡◌, ◌↔◌, sym, ◌∙◌, ap, true, some, List, [], ◌∷◌, Text, length, index_of, Uniq, get_elem?,
  get_elem?-index_of, index_of-get_elem?, eq_of_positions, Option-cases, arith, inl, inr,
  text_comparable, all,
}
use git_lfs.Prelude.Int.{pos, int_comparable, same_int_iff}
use git_lfs.Prelude.Dict
use git_lfs.Prelude.Dict.Laws.{keys, insert-Uniq, all-lookup, all_of_lookup}
use git_lfs.Tools.OrderedSet.{
  OrderedSet, add, add_all, new_ordered_set, equal, same_index, clone, from_slice,
}
use git_lfs.Tools.OrderedSet.Valid.{IsValid, as_index, add_all-IsValid, IsValid-new}
use git_lfs.Tools.OrderedSet.Content.{clone_content}

-- The map lists no key twice, as a Go map does.
abbrev pub IsMap : OrderedSet → Type 0
IsMap st = Uniq (keys st.m)

pub add-IsMap : (st : OrderedSet) (i : Text) → IsMap st → IsMap (add st i).0
unfolding add
add-IsMap st i u = elim (Option-cases (Dict.lookup i st.m)) [
  | inl new ↦ rw (new, add) (insert-Uniq i _ st.m u)
  | inr (j, old) ↦ rw (old, add) u
]

pub add_all-IsMap : (st : OrderedSet) (es : List Text) → IsMap st → IsMap (add_all st es)
unfolding add_all
add_all-IsMap st [] u = u
add_all-IsMap st (x ∷ es) u = add_all-IsMap (add st x).0 es (add-IsMap st x u)

module _ (a b : OrderedSet) (va : IsValid a) (vb : IsValid b) where
  same_positions :
      all (same_index b) a.m ≡ true
      → (i : ℕ) (k : Text) → get_elem? a.s i ≡ some k
      → get_elem? b.s i ≡ some k
  unfolding same_index
  same_positions h i k g =
      let in_a : Dict.lookup k a.m ≡ some (pos i) =
        va.indexed k ∙ ap as_index (get_elem?-index_of k a.s i va.unique g) in
      let hit = all-lookup (same_index b) a.m k (pos i) h in_a in
      index_of-get_elem? k b.s i (ground (arith, vb.indexed k, hit))

  same_entries : a.s ≡ b.s → IsMap a → all (same_index b) a.m ≡ true
  unfolding same_index
  same_entries e u =
      all_of_lookup (same_index b) a.m u
        (λ k v l. ground (arith, va.indexed k, vb.indexed k, ap (index_of k) e, same_int_iff v v))

-- For valid ordered sets of which the first's index map has no key twice, Equal is true exactly
-- when the two sequences are equal.
pub equal_iff :
    (a b : OrderedSet) → IsValid a → IsValid b → IsMap a → (equal a b ≡ true) ↔ (a.s ≡ b.s)
unfolding equal
equal_iff a b va vb u = (
  λ h.
      eq_of_positions a.s b.s (ground arith)
        (λ i k g. same_positions a b va vb (ground arith) i k g),
  λ e. ground (arith, same_entries a b va vb e u, ap length e),
)

-- Every set that the constructor builds from a slice equals its clone.
pub equal-clone : (xs : List Text) → equal (from_slice xs) (clone (from_slice xs)) ≡ true
equal-clone xs =
    let built : IsValid (from_slice xs) =
      unfold from_slice in add_all-IsValid new_ordered_set xs IsValid-new in
    let mapped : IsMap (from_slice xs) = unfold from_slice in add_all-IsMap new_ordered_set xs tt in
    let (vc, same) = clone_content (from_slice xs) built in
    (equal_iff (from_slice xs) (clone (from_slice xs)) built vc mapped).1 (sym same)
