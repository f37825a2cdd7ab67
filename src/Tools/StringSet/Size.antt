-- ===== src/Tools/StringSet/Size.antt =====
-- Cardinality, and equality by cardinality and inclusion.
use git_lfs.Prelude.{
  ◌+◌, ◌≤◌, ◌≡◌, ◌↔◌, sym, ◌∙◌, true, [], ◌∷◌, Text, length, length-append, Uniq, all-elem,
  all_of_elem, included_back, length_le_of_included, length-others, text_comparable, arith,
  if◌then◌else◌,
}
use git_lfs.Tools.StringSet.{StringSet, contains, add, remove, cardinality, equal}

-- For string sets without duplicate keys, Equal is true exactly when both contain the same keys.
pub equal_iff_keys :
    (a b : StringSet)
    → Uniq a
    → Uniq b
    → (equal a b ≡ true) ↔ ((k : Text) → contains a k ≡ contains b k)
unfolding equal contains
equal_iff_keys a b ua ub = (
  λ h k.
      let forth = all-elem (contains b) k a (ground arith) in
      let back =
        included_back a b ua ub (λ j m. all-elem (contains b) j a (ground arith) m) (ground arith)
          k in
      ground (arith, forth, back),
  λ h.
      let size_le : length a ≤ length b = length_le_of_included a b ua ub (λ k m. sym (h k) ∙ m) in
      let size_ge : length b ≤ length a = length_le_of_included b a ub ua (λ k m. h k ∙ m) in
      ground (arith, all_of_elem (contains b) a (λ k m. sym (h k) ∙ m)),
)

-- For a string set without duplicate keys, Add reports a new item exactly when the cardinality
-- grows, by one, and Remove of an item that is there takes one off.
pub cardinality_changes :
    (set : StringSet) (i : Text)
    → Uniq set
    → (cardinality (add set i).0 ≡ cardinality set + (if (add set i).1 then 1 else 0))
      × (contains set i ≡ true → cardinality (remove set i) + 1 ≡ cardinality set)
unfolding cardinality add remove contains
cardinality_changes set i u =
    (ground (arith, length-append set (i ∷ [])), λ h. omega (arith, length-others i set u h))
