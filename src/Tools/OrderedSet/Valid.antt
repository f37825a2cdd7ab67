-- ===== src/Tools/OrderedSet/Valid.antt =====
-- The slice holds each element once, and the map holds each element's position.
use git_lfs.Prelude.{
  ℕ, ◌≡◌, refl, ◌||◌, Option, none, some, List, [], ◌∷◌, ◌++◌, Text, length, elem, index_of, Uniq,
  Uniq-append-new, index_of-append-new, elem-index_of, not, sym, ◌∙◌, length-append,
  text_comparable, ◌==◌, same_text_iff, arith, Bool-cases, inl, inr, if◌then◌else◌,
}
use git_lfs.Prelude.Int.{ℤ, pos, sub_ℕ}
use git_lfs.Prelude.Dict
use git_lfs.Prelude.Dict.{Dict}
use git_lfs.Prelude.Dict.Laws.{lookup-insert}
use git_lfs.Tools.OrderedSet.{OrderedSet, add, add_all, contains, new_ordered_set}

abbrev pub as_index : Option ℕ → Option ℤ
as_index none = none
as_index (some i) = some (pos i)

pub record IsValid (st : OrderedSet) : Type 0 where
  pub unique : Uniq st.s
  pub indexed : (k : Text) → Dict.lookup k st.m ≡ as_index (index_of k st.s)

pub IsValid-new : IsValid new_ordered_set
unfolding Dict.lookup index_of
IsValid-new = record { unique = tt; indexed = λ k. refl }

pub contains-elem : (st : OrderedSet) → IsValid st → (k : Text) → contains st k ≡ elem k st.s
unfolding contains
contains-elem st v k = ground (arith, v.indexed k, elem-index_of k st.s)

pub contains-add :
    (st : OrderedSet) (i k : Text) → contains (add st i).0 k ≡ (i == k || contains st k)
unfolding contains add
contains-add st i k =
    ground (arith, lookup-insert i k (sub_ℕ (length (st.s ++ i ∷ [])) 1) st.m, same_text_iff i k)

pub added-add : (st : OrderedSet) (i : Text) → (add st i).1 ≡ not (contains st i)
unfolding contains add
added-add st i = ground arith

-- The slice after `Add`.
pub s-add :
    (st : OrderedSet) (i : Text) → (add st i).0.s ≡ (if contains st i then st.s else st.s ++ i ∷ [])
unfolding contains add
s-add st i = ground arith

pub indexed-add :
    (st : OrderedSet)
    → IsValid st
    → (i k : Text) → Dict.lookup k (add st i).0.m ≡ as_index (index_of k (add st i).0.s)
unfolding add
indexed-add st v i k = ground (
  arith,
  v.indexed k,
  v.indexed i,
  index_of-append-new k i st.s,
  same_text_iff i k,
  lookup-insert i k (sub_ℕ (length (st.s ++ i ∷ [])) 1) st.m,
  length-append st.s (i ∷ []),
)

-- `Add` keeps a set valid.
pub add-IsValid : (st : OrderedSet) (i : Text) → IsValid st → IsValid (add st i).0
add-IsValid st i v = record {
  unique = rw s-add (elim (Bool-cases (contains st i)) [
    | inl old ↦ rw old v.unique
    | inr new ↦ rw new (Uniq-append-new st.s i v.unique (sym (contains-elem st v i) ∙ new))
  ]);
  indexed = indexed-add st v i;
}

pub add_all-IsValid : (st : OrderedSet) (es : List Text) → IsValid st → IsValid (add_all st es)
unfolding add_all
add_all-IsValid st [] v = v
add_all-IsValid st (x ∷ es) v = add_all-IsValid (add st x).0 es (add-IsValid st x v)

pub contains-add_all :
    (st : OrderedSet) (es : List Text) (k : Text)
    → contains (add_all st es) k ≡ (contains st k || elem k es)
unfolding add_all elem
contains-add_all st [] k = ground arith
contains-add_all st (x ∷ es) k =
    ground (arith, contains-add_all (add st x).0 es k, contains-add st x k)
