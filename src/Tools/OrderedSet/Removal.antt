-- ===== src/Tools/OrderedSet/Removal.antt =====
-- `Remove` on valid sets: what the map and the slice hold afterwards.
use Prim.Native.Nat.{min}
use mathlib.Core.Path.{subst}
use native.Mathlib.Decide.{dec_lt}
use git_lfs.Prelude.{
  ℕ, suc, ◌+◌, ◌-◌, ◌<◌, ◌≡◌, refl, ◌∙◌, ap, true, false, not, ◌&&◌, ◌||◌, none, some, List, [],
  ◌∷◌, ◌++◌, Text, length, take, drop, elem, elem-append, elem-drop, elem-take, drop-Uniq, index_of,
  index_of-lt-length, get_elem?, get_elem?-index_of, get_elem?-take-append, drop-take-append,
  drop_cons, get_elem?_lt, elem-index_of, lt→ltb, le→leb, ◌==◌, text_comparable, same_text_iff,
  arith, Option-cases, Uniq, take-append-drop, eq_refl, inl, inr,
}
use git_lfs.Prelude.Int.{ℤ, pos, pred_ℤ}
use git_lfs.Prelude.Dict
use git_lfs.Prelude.Dict.{Dict}
use git_lfs.Prelude.Dict.Laws.{lookup-insert, lookup-delete}
use git_lfs.Tools.OrderedSet.{
  OrderedSet, contains, remove, remove_at, decrement, decrement_all, index_at,
}
use git_lfs.Tools.OrderedSet.Valid.{IsValid, as_index, contains-elem}

lookup-decrement_all :
    (m : Dict Text ℤ) (es : List Text) (k : Text)
    → elem k es ≡ false
    → Dict.lookup k (decrement_all m es) ≡ Dict.lookup k m
unfolding decrement_all decrement elem
lookup-decrement_all m [] k h = refl
lookup-decrement_all m (x ∷ es) k h = ground (
  arith,
  lookup-decrement_all (decrement m x) es k,
  same_text_iff x k,
  lookup-insert x k (pred_ℤ (index_at m x)) m,
)

-- The slice that `Remove` leaves when the element stands at `idx`.
abbrev left_over : List Text → ℕ → List Text
left_over s idx = take idx s ++ drop (min (idx + 1) (length s - 1)) s

abbrev removed : OrderedSet → Text → ℕ → OrderedSet
removed st i idx = record {
  s = left_over st.s idx;
  m =
      Dict.delete i
        (decrement_all st.m (drop (min (idx + 1) (length st.s - 1)) (left_over st.s idx)));
}

remove_missing : (st : OrderedSet) (i : Text) → Dict.lookup i st.m ≡ none → remove st i ≡ some st
unfolding remove
remove_missing st i l = rw (l, remove)

remove_found :
    (st : OrderedSet) (i : Text) (idx : ℕ)
    → Dict.lookup i st.m ≡ some (pos idx)
    → idx < length st.s
    → remove st i ≡ some (removed st i idx)
unfolding remove remove_at
remove_found st i idx l h =
    rw (l, remove)
      (rw (lt→ltb 0 (length st.s) (omega arith), le→leb idx (length st.s) (omega arith)))

contains-decrement_all :
    (m : Dict Text ℤ) (es : List Text) (k : Text)
    → Dict.has_key k (decrement_all m es) ≡ (Dict.has_key k m || elem k es)
unfolding decrement_all decrement elem Dict.has_key
contains-decrement_all m [] k = ground arith
contains-decrement_all m (x ∷ es) k = ground (
  arith,
  contains-decrement_all (decrement m x) es k,
  same_text_iff x k,
  lookup-insert x k (pred_ℤ (index_at m x)) m,
)

elem-left_over :
    (s : List Text) (idx : ℕ) (k : Text) → elem k (left_over s idx) ≡ true → elem k s ≡ true
elem-left_over s idx k h = ground (
  arith,
  elem-append k (take idx s) (drop (min (idx + 1) (length s - 1)) s),
  elem-take idx k s,
  elem-drop (min (idx + 1) (length s - 1)) k s,
)

contains-removed :
    (st : OrderedSet) (i : Text) (idx : ℕ)
    → IsValid st
    → (k : Text) → contains (removed st i idx) k ≡ (not (i == k) && contains st k)
unfolding contains Dict.has_key
contains-removed st i idx v k =
    let n = min (idx + 1) (length st.s - 1) in
    let moved = drop n (left_over st.s idx) in
    let keys_after = contains-decrement_all st.m moved k in
    ground (
      arith,
      keys_after,
      lookup-delete i k (decrement_all st.m moved),
      elem-drop n k (left_over st.s idx),
      elem-left_over st.s idx k,
      contains-elem st v k,
    )

-- The position of a key of a valid set.
position :
    (st : OrderedSet) (i : Text)
    → IsValid st
    → contains st i ≡ true
    → (idx : ℕ) × (index_of i st.s ≡ some idx)
position st i v h = elim (Option-cases (index_of i st.s)) [
  | inl absent ↦ absurd (ground (arith, contains-elem st v i, elem-index_of i st.s))
  | inr found ↦ found
]

-- For a valid ordered set, Remove returns, and Contains is then false for the removed element and
-- unchanged for all others.
pub contains-remove :
    (st : OrderedSet) (i : Text)
    → IsValid st
    → (st' : OrderedSet) × (remove st i ≡ some st')
      × ((k : Text) → contains st' k ≡ (not (i == k) && contains st k))
contains-remove st i v = elim (Option-cases (index_of i st.s)) [
  | inl absent ↦ (
    st,
    remove_missing st i (v.indexed i ∙ ap as_index absent),
    λ k. ground (arith, contains-elem st v i, elem-index_of i st.s, same_text_iff i k),
  )
  | inr (idx, found) ↦ (
    removed st i idx,
    remove_found st i idx (v.indexed i ∙ ap as_index found) (index_of-lt-length i st.s idx found),
    contains-removed st i idx v,
  )
]

-- The last element stays in the slice.
last_stays : (s : List Text) (idx : ℕ) → idx + 1 ≡ length s → left_over s idx ≡ s
last_stays s idx h =
    let e : min (idx + 1) (length s - 1) ≡ idx = omega arith in rw e (take-append-drop idx s)

removed_last_invalid :
    (st : OrderedSet) (i : Text) (idx : ℕ)
    → IsValid st
    → index_of i st.s ≡ some idx
    → idx + 1 ≡ length st.s
    → ¬ IsValid (removed st i idx)
removed_last_invalid st i idx v found last w = ground (
  arith,
  contains-elem (removed st i idx) w i,
  contains-removed st i idx v i,
  eq_refl i,
  ap (elem i) (last_stays st.s idx last),
  elem-index_of i st.s,
)

module _ (st : OrderedSet) (i k : Text) (idx : ℕ) (v : IsValid st)
    (found : index_of i st.s ≡ some idx) (next : get_elem? st.s (suc idx) ≡ some k)
    (inner : idx + 1 < length st.s) where
  follower : drop (suc idx) st.s ≡ k ∷ drop (suc (suc idx)) st.s
  follower = drop_cons (suc idx) st.s k next

  kept : left_over st.s idx ≡ take idx st.s ++ drop (suc idx) st.s
  kept = let e : min (idx + 1) (length st.s - 1) ≡ suc idx = omega arith in rw e

  follower_moves : get_elem? (left_over st.s idx) idx ≡ some k
  follower_moves =
      ap (λ l. get_elem? l idx) kept
      ∙ get_elem?-take-append idx st.s (drop (suc idx) st.s) (omega arith)
      ∙ ap (λ l. get_elem? l 0) follower

  follower_not_decremented :
      elem k (drop (min (idx + 1) (length st.s - 1)) (left_over st.s idx)) ≡ false
  follower_not_decremented =
      let e : min (idx + 1) (length st.s - 1) ≡ suc idx = omega arith in
      let tail_unique : Uniq (k ∷ drop (suc (suc idx)) st.s) =
        subst Uniq follower (drop-Uniq (suc idx) st.s v.unique) in
      rw e (
        rw (drop-take-append idx st.s (drop (suc idx) st.s) (omega arith))
          (rw follower tail_unique.0))

  follower_index : Dict.lookup k (removed st i idx).m ≡ some (pos (suc idx))
  follower_index =
      let moved = drop (min (idx + 1) (length st.s - 1)) (left_over st.s idx) in
      ground (
        arith,
        lookup-delete i k (decrement_all st.m moved),
        same_text_iff i k,
        lookup-decrement_all st.m moved k follower_not_decremented,
        v.indexed k,
        get_elem?-index_of k st.s (suc idx) v.unique next,
        found,
      )

  removed_inner_invalid : ¬ IsValid (removed st i idx)
  removed_inner_invalid w = ground (
    arith,
    follower_index,
    w.indexed k,
    get_elem?-index_of k (left_over st.s idx) idx w.unique follower_moves,
  )

-- For a valid ordered set that contains an element, Remove of it returns a set that is not valid,
-- and when the element is the last one the slice does not change at all.
pub remove_invalid :
    (st : OrderedSet) (i : Text)
    → IsValid st
    → contains st i ≡ true
    → (st' : OrderedSet) × (remove st i ≡ some st')
      × (¬ IsValid st')
      × (index_of i st.s ≡ some (length st.s - 1) → st'.s ≡ st.s)
remove_invalid st i v h =
    let (idx, found) = position st i v h in
    let below = index_of-lt-length i st.s idx found in
    (
      removed st i idx,
      remove_found st i idx (v.indexed i ∙ ap as_index found) below,
      elim (dec_lt (idx + 1) (length st.s)) [
        | yes inner ↦
            let (k, next) = get_elem?_lt (suc idx) st.s (omega arith) in
            removed_inner_invalid st i k idx v found next inner
        | no last ↦ removed_last_invalid st i idx v found (omega arith)
      ],
      λ at_end. last_stays st.s idx (ground arith),
    )
