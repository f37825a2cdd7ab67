-- ===== src/Tq/Collector/Moving.antt =====
-- The loops of `collectBatches` of tq/transfer_queue.go that move objects from the channel to the
-- batches: none is lost, and none is made.
use mathlib.Core.List.{Permᴰ}
use git_lfs.Prelude.{
  ℕ, zero, suc, ◌+◌, ◌≤◌, ◌≡◌, refl, ap, ◌∙◌, Bool, true, false, not, ◌&&◌, Option, some, inl, inr,
  Bool-cases, List, [], ◌∷◌, ◌++◌, length, length-append, All-append, Text, text_comparable, ltb,
  arith, elem,
}
use git_lfs.Tq.Batch.{ObjectTuple, Batch, concat}
use git_lfs.Tq.Batch.Conserving.{count, concat-count}
use git_lfs.Tq.Queue.Spending.{Among}
use git_lfs.Tq.Collector.{fill, collect_pending_until}

-- What the loop that fills a batch comes to when the channel is closed.
pub record IsFill (ks : List Text) (size : ℕ) (next incoming : Batch)
    (r : Bool × Batch × List ObjectTuple) : Type 0 where
  pub total : length r.1 + length r.2 ≡ length next + length incoming
  pub longer : length next ≤ length r.1
  pub known : Among ks next → Among ks incoming → Among ks r.1 × Among ks r.2
  -- once the channel was found closed, nothing is left in it
  pub drained : r.0 ≡ true → r.2 ≡ []
  pub empty : length r.1 ≡ 0 → (r.0 ≡ true) × (r.2 ≡ [])

unfoldable pub Filling :
    List Text → ℕ → Batch → Batch → Option (Bool × Batch × List ObjectTuple) → Type 0
Filling ks size next incoming result =
    (r : Bool × Batch × List ObjectTuple) × (result ≡ some r) × IsFill ks size next incoming r

module _ (ks : List Text) (size : ℕ) (positive : 1 ≤ size) where
  stays_lem :
      (closing : Bool) (next incoming : Batch)
      → (closing ≡ true → incoming ≡ [])
      → (not closing && ltb (length next) size) ≡ false
      → IsFill ks size next incoming (closing, next, incoming)
  stays_lem closing next incoming drained full = record {
    total = refl;
    longer = omega arith;
    known = λ a b. (a, b);
    drained = drained;
    empty = λ e. let c = shut closing full e in (c, drained c);
  }
    where
      shut :
          (closing : Bool)
          → (not closing && ltb (length next) size) ≡ false
          → length next ≡ 0
          → closing ≡ true
      shut true f e = refl
      shut false f e = absurd (ground arith)

  -- When the channel is closed, the loop does not wait.
  pub fill-closed :
      (closed closing : Bool) (next incoming : Batch)
      → closed ≡ true
      → (closing ≡ true → incoming ≡ [])
      → Filling ks size next incoming (fill size closed closing next incoming)
  unfolding fill Filling
  fill-closed closed closing next [] shut drained =
      elim (Bool-cases (not closing && ltb (length next) size)) [
        | inl y ↦ (
          (true, next, []),
          rw (y, shut) refl,
          record {
            total = refl;
            longer = omega arith;
            known = λ a b. (a, b);
            drained = λ e. refl;
            empty = λ e. (refl, refl);
          },
        )
        | inr n ↦ ((closing, next, []), rw n refl, stays_lem closing next [] drained n)
      ]
  fill-closed closed closing next (t ∷ incoming) shut drained =
      elim (Bool-cases (not closing && ltb (length next) size)) [
        | inl y ↦
            let (r, done, f) =
              fill-closed closed closing (next ++ t ∷ []) incoming shut (reopen closing y) in
            (
              r,
              rw y done,
              record {
                total = omega (arith, f.total, length-append next (t ∷ []));
                longer = omega (arith, f.longer, length-append next (t ∷ []));
                known = λ a b. f.known (All-append _ next _ a (b.0, tt)) b.1;
                drained = f.drained;
                empty = f.empty;
              },
            )
        | inr n ↦ (
          (closing, next, t ∷ incoming),
          rw n refl,
          stays_lem closing next (t ∷ incoming) drained n,
        )
      ]
    where
      reopen :
          (closing : Bool)
          → (not closing && ltb (length next) size) ≡ true
          → closing ≡ true
          → incoming ≡ []
      reopen true h e = absurd (ground arith)
      reopen false h e = absurd (ground arith)

module _ (ks : List Text) where
  pub collect_pending_until-moves :
      (received : ℕ) (closed : Bool) (incoming : List ObjectTuple)
      → let r = collect_pending_until received closed incoming in
        (length r.0 + length r.2 ≡ length incoming)
        × (Among ks incoming → Among ks r.0 × Among ks r.2)
        × (r.1 ≡ true → r.2 ≡ [])
  unfolding collect_pending_until
  collect_pending_until-moves zero closed incoming =
      (omega arith, λ a. (tt, a), λ e. absurd (ground arith))
  collect_pending_until-moves (suc n) closed [] = (refl, λ a. (tt, tt), λ e. refl)
  collect_pending_until-moves (suc n) closed (t ∷ incoming) =
      let (total, known, drained) = collect_pending_until-moves n closed incoming in
      (omega (arith, total), λ a. ((a.0, (known a.1).0), (known a.1).1), drained)

  abbrev is_foreign : ObjectTuple → Bool
  is_foreign t = not (elem t.oid ks)

  count-Among : (b : Batch) → Among ks b → count is_foreign b ≡ 0
  count-Among [] a = refl
  count-Among (t ∷ b) (known, a) = ground (arith, known, count-Among b a)

  Among-count : (b : Batch) → count is_foreign b ≡ 0 → Among ks b
  Among-count [] h = tt
  Among-count (t ∷ b) h = elim (Bool-cases (elem t.oid ks)) [
    | inl y ↦ (y, Among-count b (ground arith))
    | inr n ↦ absurd (ground arith)
  ]

  count_all : (b : Batch) → count (λ t. true) b ≡ length b
  count_all [] = refl
  count_all (t ∷ b) = omega (arith, count_all b)

  pub concat-moves :
      (now size : ℕ) (b other : Batch)
      → let r = concat now b other size in
        (length r.0 + length r.1 ≡ length b + length other)
        × (Among ks b → Among ks other → Among ks r.0 × Among ks r.1)
  concat-moves now size b other =
      let r = concat now b other size in
      (
        omega (
          arith,
          (concat-count now size b other (λ t. true)).0,
          count_all r.0,
          count_all r.1,
          count_all b,
          count_all other,
        ),
        λ x y.
            let none_foreign = (concat-count now size b other is_foreign).0 in
            let zero_b = count-Among b x in
            let zero_other = count-Among other y in
            (
              Among-count r.0 (omega (arith, none_foreign, zero_b, zero_other)),
              Among-count r.1 (omega (arith, none_foreign, zero_b, zero_other)),
            ),
      )

  pub perm-moves : {b c : Batch} → Permᴰ b c → (length b ≡ length c) × (Among ks c → Among ks b)
  perm-moves Permᴰ.nil = (refl, λ a. a)
  perm-moves (Permᴰ.cons e p) =
      let (same, known) = perm-moves p in
      (
        omega (arith, same),
        λ (a, others). (ap (λ (t : ObjectTuple). elem t.oid ks) e ∙ a, known others),
      )
  perm-moves (Permᴰ.swap e f) = (
    refl,
    λ (a, (b, others)). (
      ap (λ (t : ObjectTuple). elem t.oid ks) e ∙ b,
      (ap (λ (t : ObjectTuple). elem t.oid ks) f ∙ a, others),
    ),
  )
  perm-moves (Permᴰ.trans p q) =
      let (s, f) = perm-moves p in let (t, g) = perm-moves q in (s ∙ t, λ a. f (g a))
