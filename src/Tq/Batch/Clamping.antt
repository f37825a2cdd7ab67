-- ===== src/Tq/Batch/Clamping.antt =====
-- What `Concat` of tq/transfer_queue.go makes of two batches.
use mathlib.Core.Path.{subst}
use git_lfs.Prelude.{
  ℕ, zero, suc, ◌-◌, ◌≤◌, ◌<◌, ◌≡◌, ◌≢◌, All, refl, sym, ap, ◌∙◌, Bool, true, false, not, ltb, leb,
  eqb, ◌||◌, [], ◌∷◌, ◌++◌, length, take, drop, keep, append_assoc, append-nil, inl, inr,
  Bool-cases, arith, if◌then◌else◌,
}
use git_lfs.Tq.Batch.{ObjectTuple, Batch, place, place_all, clamp, concat}

abbrev pub is_ready : ℕ → ObjectTuple → Bool
is_ready now ot = ltb ot.ready_time now

abbrev pub is_waiting : ℕ → ObjectTuple → Bool
is_waiting now ot = not (ltb ot.ready_time now)

place_ready :
    (now : ℕ) (ot : ObjectTuple) (left right : Batch) (w : ℕ)
    → ltb ot.ready_time now ≡ true
    → place now ot (left, right, w) ≡ (left ++ ot ∷ [], right, w)
unfolding place
place_ready now ot left right w y = rw y

place_waiting :
    (now : ℕ) (ot : ObjectTuple) (left right : Batch) (w : ℕ)
    → ltb ot.ready_time now ≡ false
    → place now ot (left, right, w) ≡ (
      left,
      right ++ ot ∷ [],
      if eqb w 0 || ltb (ot.ready_time - now) w then ot.ready_time - now else w,
    )
unfolding place
place_waiting now ot left right w n = rw n

place_all-lefts :
    (now : ℕ) (u : Batch) (left right : Batch) (w : ℕ)
    → (place_all now u (left, right, w)).0 ≡ left ++ keep (is_ready now) u
unfolding place_all keep
place_all-lefts now [] left right w = sym (append-nil left)
place_all-lefts now (ot ∷ u) left right w = elim (Bool-cases (ltb ot.ready_time now)) [
  | inl y ↦
      rw (place_ready now ot left right w y, place_all)
        (rw y (
          place_all-lefts now u (left ++ ot ∷ []) right w
          ∙ append_assoc left (ot ∷ []) (keep (is_ready now) u)))
  | inr n ↦
      rw (place_waiting now ot left right w n, place_all)
        (rw n (place_all-lefts now u left (right ++ ot ∷ []) _))
]

place_all-rights :
    (now : ℕ) (u : Batch) (left right : Batch) (w : ℕ)
    → (place_all now u (left, right, w)).1 ≡ right ++ keep (is_waiting now) u
unfolding place_all keep
place_all-rights now [] left right w = sym (append-nil right)
place_all-rights now (ot ∷ u) left right w = elim (Bool-cases (ltb ot.ready_time now)) [
  | inl y ↦
      rw (place_ready now ot left right w y, place_all)
        (rw y (place_all-rights now u (left ++ ot ∷ []) right w))
  | inr n ↦
      rw (place_waiting now ot left right w n, place_all)
        (rw n (
          place_all-rights now u left (right ++ ot ∷ []) _
          ∙ append_assoc right (ot ∷ []) (keep (is_waiting now) u)))
]

fits : (n : ℕ) (xs : Batch) → length xs ≤ n → (take n xs ≡ xs) × (drop n xs ≡ [])
fits zero [] h = (refl, refl)
fits zero (x ∷ xs) h = absurd (omega arith)
fits (suc n) [] h = (refl, refl)
fits (suc n) (x ∷ xs) h = (ap (λ t. x ∷ t) (fits n xs (omega arith)).0, (fits n xs (omega arith)).1)

clamp_lem :
    (n : ℕ) (left right : Batch) (w : ℕ)
    → ((clamp n (left, right, w)).0 ≡ take n left)
      × ((clamp n (left, right, w)).1 ≡ right ++ drop n left)
      × ((clamp n (left, right, w)).2 ≡ w)
unfolding clamp
clamp_lem n left right w = elim (Bool-cases (leb (length left) n)) [
  | inl y ↦ rw y (
    sym (fits n left (ground arith)).0,
    sym (ap (λ t. right ++ t) (fits n left (ground arith)).1 ∙ append-nil right),
    refl,
  )
  | inr more ↦ rw more (refl, refl, refl)
]

-- Of two batches that are joined, the left result is the objects that are ready, in order, up to
-- the size; the right result is the objects that are not ready, in order, and then the ready ones
-- beyond the size.
pub concat-split :
    (now size : ℕ) (b other : Batch)
    → ((concat now b other size).0 ≡ take size (keep (is_ready now) (b ++ other)))
      × ((concat now b other size).1
          ≡ keep (is_waiting now) (b ++ other) ++ drop size (keep (is_ready now) (b ++ other)))
unfolding concat
concat-split now size b other =
    let split = place_all now (b ++ other) ([], [], 0) in
    let clamped = clamp_lem size split.0 split.1 split.2 in
    (
      clamped.0 ∙ ap (take size) (place_all-lefts now (b ++ other) [] [] 0),
      clamped.1
          ∙ ap (λ r. r ++ drop size split.0) (place_all-rights now (b ++ other) [] [] 0)
          ∙ ap (λ l. keep (is_waiting now) (b ++ other) ++ drop size l)
              (place_all-lefts now (b ++ other) [] [] 0),
    )

-- Not available at this very instant.
abbrev pub IsApart : ℕ → ObjectTuple → Type 0
IsApart now ot = ot.ready_time ≢ now

-- The wait is over by the time that the object is available, if the object is not yet.
abbrev pub Waits : ℕ → ℕ → ObjectTuple → Type 0
Waits now w ot = now < ot.ready_time → (1 ≤ w) × (w ≤ ot.ready_time - now)

-- What a loop that starts with the wait `w` and ends with `v` has made of it.
abbrev Shortens : ℕ → ℕ → ℕ → Batch → Type 0
Shortens now w v u = (1 ≤ w → (1 ≤ v) × (v ≤ w)) × All (Waits now v) u

place_all-wait :
    (now : ℕ) (u : Batch) (left right : Batch) (w : ℕ)
    → All (IsApart now) u
    → Shortens now w (place_all now u (left, right, w)).2 u
unfolding place_all
place_all-wait now [] left right w h = (λ p. (p, omega arith), tt)
place_all-wait now (ot ∷ u) left right w h = elim (Bool-cases (ltb ot.ready_time now)) [
  | inl y ↦
      let (floor, rest) = place_all-wait now u (left ++ ot ∷ []) right w h.1 in
      subst (λ acc. Shortens now w (place_all now u acc).2 (ot ∷ u))
        (sym (place_ready now ot left right w y)) (floor, (λ p. absurd (ground arith), rest))
  | inr n ↦
      let wait = if eqb w 0 || ltb (ot.ready_time - now) w then ot.ready_time - now else w in
      let (floor, rest) = place_all-wait now u left (right ++ ot ∷ []) wait h.1 in
      subst (λ acc. Shortens now w (place_all now u acc).2 (ot ∷ u))
        (sym (place_waiting now ot left right w n))
        (λ p. shorter ot w _ floor n h.0 p, (λ p. soon ot w _ floor p, rest))
]
  where
    shorter :
        (o : ObjectTuple) (w v : ℕ)
        → (1 ≤ (if eqb w 0 || ltb (o.ready_time - now) w then o.ready_time - now else w)
            → (1 ≤ v)
              × (v ≤ (if eqb w 0 || ltb (o.ready_time - now) w then o.ready_time - now else w)))
        → ltb o.ready_time now ≡ false
        → IsApart now o
        → 1 ≤ w
        → (1 ≤ v) × (v ≤ w)
    shorter o w v floor n apart p = ground arith

    soon :
        (o : ObjectTuple) (w v : ℕ)
        → (1 ≤ (if eqb w 0 || ltb (o.ready_time - now) w then o.ready_time - now else w)
            → (1 ≤ v)
              × (v ≤ (if eqb w 0 || ltb (o.ready_time - now) w then o.ready_time - now else w)))
        → Waits now v o
    soon o w v floor p = ground arith

-- Unless an object becomes ready at this very instant, the wait that goes with the two results is
-- positive and no longer than the time until the object is ready, for each object that is not
-- ready.
pub concat-min_wait :
    (now size : ℕ) (b other : Batch)
    → All (IsApart now) (b ++ other)
    → All (Waits now (concat now b other size).2) (b ++ other)
unfolding concat
concat-min_wait now size b other h =
    let split = place_all now (b ++ other) ([], [], 0) in
    rw (clamp_lem size split.0 split.1 split.2).2 (place_all-wait now (b ++ other) [] [] 0 h).1
