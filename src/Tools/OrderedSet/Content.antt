-- ===== src/Tools/OrderedSet/Content.antt =====
-- What the set operations hold, and in what order.
use mathlib.Core.Path.{ap₂}
use git_lfs.Prelude.{
  ◌≡◌, refl, sym, ◌∙◌, false, not, ◌&&◌, ◌||◌, List, [], ◌∷◌, ◌++◌, append_assoc, append-nil, Text,
  elem, keep, keep_congr, keep_all, keep-Uniq, elem-keep, Uniq, text_comparable, same_text_iff,
  elem-append, arith, Bool-cases, inl, inr, ltb, length, if◌then◌else◌, ap, Bool,
}
use git_lfs.Tools.OrderedSet.{
  OrderedSet, new_ordered_set, add, add_all, contains, union, intersect, difference,
  symmetric_difference, clone,
}
use git_lfs.Tools.OrderedSet.Valid.{
  IsValid, IsValid-new, contains-elem, contains-add, s-add, add_all-IsValid, contains-add_all,
}

-- Adding elements without duplicates appends those that are new, in their order.
pub s-add_all :
    (st : OrderedSet) (es : List Text)
    → Uniq es
    → (add_all st es).s ≡ st.s ++ keep (λ x. not (contains st x)) es
unfolding add_all keep
s-add_all st [] u = sym (append-nil st.s)
s-add_all st (x ∷ es) u =
    let same : keep (λ y. not (contains (add st x).0 y)) es ≡ keep (λ y. not (contains st y)) es =
      keep_congr _ _ es (λ a m. ground (arith, contains-add st x a, same_text_iff x a)) in
    elim (Bool-cases (contains st x)) [
      | inl old ↦ rw (s-add_all (add st x).0 es u.1, same, s-add, old) (refl)
      | inr new ↦
          rw (s-add_all (add st x).0 es u.1, same, s-add, new) (append_assoc st.s (x ∷ []) _)
    ]

contains-new : (k : Text) → contains new_ordered_set k ≡ false
contains-new k = contains-elem new_ordered_set IsValid-new k ∙ (unfold elem in refl)

pub s-add_all_new : (es : List Text) → Uniq es → (add_all new_ordered_set es).s ≡ es
s-add_all_new es u = s-add_all new_ordered_set es u ∙ keep_all _ es (λ a. ap not (contains-new a))

-- Shorthand for the statements below.
abbrev pub outside : OrderedSet → Text → Bool
outside st x = not (elem x st.s)

-- Union of valid ordered sets is valid, and its sequence is the receiver's elements and then those
-- of the argument that the receiver lacks, each in its order.
pub union_content :
    (a b : OrderedSet)
    → IsValid a
    → IsValid b
    → IsValid (union a b) × ((union a b).s ≡ a.s ++ keep (outside a) b.s)
unfolding union
union_content a b va vb =
    let first = add_all new_ordered_set a.s in
    let valid : IsValid first = add_all-IsValid new_ordered_set a.s IsValid-new in
    let same : first.s ≡ a.s = s-add_all_new a.s va.unique in
    (
      add_all-IsValid first b.s valid,
      s-add_all first b.s vb.unique
          ∙ ap₂ ◌++◌ same (
              keep_congr _ _ b.s
                (λ x m. ground (arith, contains-add_all new_ordered_set a.s x, contains-new x))),
    )

-- `Difference` of valid sets is valid, and is this set's elements that are not in the other, in
-- their order.
pub difference_content :
    (a b : OrderedSet)
    → IsValid a
    → IsValid b
    → IsValid (difference a b) × ((difference a b).s ≡ keep (outside b) a.s)
unfolding difference
difference_content a b va vb = (
  add_all-IsValid new_ordered_set _ IsValid-new,
  s-add_all_new _ (keep-Uniq _ a.s va.unique)
      ∙ keep_congr _ _ a.s (λ x m. rw (contains-elem b vb x)),
)

-- Intersect of valid ordered sets is valid, and its sequence is the common elements in the order of
-- the smaller set (of the argument, when both have one size).
pub intersect_content :
    (a b : OrderedSet)
    → IsValid a
    → IsValid b
    → IsValid (intersect a b)
      × ((intersect a b).s ≡ (
          if ltb (length a.s) (length b.s)
          then keep (λ x. elem x b.s) a.s
          else keep (λ x. elem x a.s) b.s))
unfolding intersect
intersect_content a b va vb = elim (Bool-cases (ltb (length a.s) (length b.s))) [
  | inl less ↦ rw less (
    add_all-IsValid new_ordered_set _ IsValid-new,
    s-add_all_new _ (keep-Uniq _ a.s va.unique) ∙ keep_congr _ _ a.s (λ x m. contains-elem b vb x),
  )
  | inr more ↦ rw more (
    add_all-IsValid new_ordered_set _ IsValid-new,
    s-add_all_new _ (keep-Uniq _ b.s vb.unique) ∙ keep_congr _ _ b.s (λ x m. contains-elem a va x),
  )
]

-- `SymmetricDifference` of valid sets is valid, and contains what exactly one of the two contains.
pub symmetric_difference_content :
    (a b : OrderedSet)
    → IsValid a
    → IsValid b
    → IsValid (symmetric_difference a b)
      × ((k : Text)
          → contains (symmetric_difference a b) k
            ≡ ((elem k a.s && not (elem k b.s)) || (elem k b.s && not (elem k a.s))))
unfolding symmetric_difference
symmetric_difference_content a b va vb =
    let (vl, l) = difference_content a b va vb in
    let (vr, r) = difference_content b a vb va in
    let (vu, u) = union_content (difference a b) (difference b a) vl vr in
    (
      vu,
      λ k.
          contains-elem _ vu k
          ∙ rw u (
              rw elem-append (
                ground (
                  arith,
                  ap (elem k) l,
                  ap (elem k) r,
                  elem-keep (outside b) k a.s,
                  elem-keep (outside a) k b.s,
                  elem-keep (outside (difference a b)) k (difference b a).s,
                ))),
    )

-- A clone of a valid set is valid, with the same elements in the same order.
pub clone_content : (a : OrderedSet) → IsValid a → IsValid (clone a) × ((clone a).s ≡ a.s)
unfolding clone
clone_content a va = (add_all-IsValid new_ordered_set a.s IsValid-new, s-add_all_new a.s va.unique)
