-- ===== src/Tq/Collector/Open.antt =====
-- A turn of the loop of `collectBatches` of tq/transfer_queue.go before the channel is closed: what it
-- comes to is what it would come to if the channel were closed after what is in it.
use git_lfs.Prelude.{
  ℕ, zero, suc, ◌≤◌, ◌≡◌, ◌≢◌, refl, sym, ap, ◌∙◌, Bool, true, false, Option, none, some, inl, inr,
  Bool-cases, List, [], ◌∷◌, ◌++◌, length, Text, ltb, arith, if◌then◌else◌,
}
use git_lfs.Tq.Batch.{ObjectTuple, Batch, concat}
use git_lfs.Tq.Queue.{Queue, Errors}
use git_lfs.Tq.Collector.{
  Turn, Collector, Outcome, goes_on, finished, aborted, blocked, crashed, fill,
  collect_pending_until, choose, regroup, conclude, attend, is_stuck, collect_round,
}

filled :
    (size : ℕ) (next left : Batch) (r : Bool × Batch × List ObjectTuple)
    → ltb (length next) size ≡ false
    → some (false, next, left) ≡ some r
    → (r.0 ≡ false) × (ltb (length r.1) size ≡ false)
filled size next left r n e = (
  sym (ap (λ r. r.0) (some_injective e)),
  ap (λ r. ltb (length r.1) size) (sym (some_injective e)) ∙ n,
)
  where
    some_injective : {a b : Bool × Batch × List ObjectTuple} → some a ≡ some b → a ≡ b
    some_injective h = cc

-- The loop that fills a batch does not see the end of the channel if it does not wait.
pub fill_open :
    (size : ℕ) (next incoming : Batch) (r : Bool × Batch × List ObjectTuple)
    → fill size false false next incoming ≡ some r
    → (fill size true false next incoming ≡ some r)
      × (r.0 ≡ false)
      × (ltb (length r.1) size ≡ false)
unfolding fill
fill_open size next [] r h = elim (Bool-cases (ltb (length next) size)) [
  | inl y ↦ absurd (nothing (rw (y, if◌then◌else◌) at h))
  | inr n ↦
      let (still, full) = filled size next [] r n (rw n at h) in (rw n (rw n at h), still, full)
]
  where
    nothing : none ≢ some r
    nothing e = cc
fill_open size next (t ∷ incoming) r h = elim (Bool-cases (ltb (length next) size)) [
  | inl y ↦ rw y (fill_open size (next ++ t ∷ []) incoming r (rw y at h))
  | inr n ↦
      let (still, full) = filled size next (t ∷ incoming) r n (rw n at h) in
      (rw n (rw n at h), still, full)
]

collect_open :
    (n : ℕ) (incoming : Batch)
    → n ≤ length incoming
    → collect_pending_until n false incoming ≡ collect_pending_until n true incoming
unfolding collect_pending_until
collect_open zero incoming h = refl
collect_open (suc n) [] h = absurd (omega arith)
collect_open (suc n) (t ∷ incoming) h =
    ap (λ r. (t ∷ r.0, r.1, r.2)) (collect_open n incoming (omega (arith, h)))

-- An open channel is not found closed.
collect_still : (n : ℕ) (incoming : Batch) → (collect_pending_until n false incoming).1 ≡ false
unfolding collect_pending_until
collect_still zero incoming = refl
collect_still (suc n) [] = refl
collect_still (suc n) (t ∷ incoming) = collect_still n incoming

module _ {E : Type 0} where
  abbrev pub reopen : Outcome E → Outcome E
  reopen (goes_on sleep c) = goes_on sleep (record c { closed = false })
  reopen (finished q) = finished q
  reopen (aborted q) = aborted q
  reopen blocked = blocked
  reopen crashed = crashed

  module _ (errs : Errors E) (size : ℕ) (agent : Text) (sort_reverse : Batch → Batch)
      (turn : Turn E) where
    choose_open :
        (c : Collector E) (min_wait : ℕ) (next pending : Batch)
        → choose errs size agent sort_reverse (record c { closed = false }) min_wait next pending
          ≡ reopen (choose errs size agent sort_reverse c min_wait next pending)
    unfolding choose
    choose_open c min_wait [] [] = elim (Bool-cases c.closing) [
      | inl y ↦ rw y refl
      | inr n ↦ rw n refl
    ]
    choose_open c min_wait [] (t ∷ pending) = refl
    choose_open c min_wait (t ∷ next) pending = refl

    regroup_open :
        (c : Collector E) (q : Queue E) (retries : Batch)
        → turn.received ≤ length c.incoming
        → regroup errs size agent sort_reverse turn (record c { closed = false }) q retries
          ≡ reopen
              (regroup errs size agent sort_reverse turn (record c { closed = true }) q retries)
    unfolding regroup
    regroup_open c q retries h =
        let (collected, closing, left) = collect_pending_until turn.received true c.incoming in
        let (next, pending, min_wait) = concat turn.clock retries (c.pending ++ collected) size in
        rw (collect_open turn.received c.incoming h, regroup)
          (choose_open
            (record c {
              queue = q;
              incoming = left;
              closed = true;
              closing = closing;
              next = next;
              pending = pending;
            })
            min_wait next pending)

    conclude_open :
        (c : Collector E) (r : Option (Queue E × Batch × Option E))
        → turn.received ≤ length c.incoming
        → conclude errs size agent sort_reverse turn (record c { closed = false }) r
          ≡ reopen (conclude errs size agent sort_reverse turn (record c { closed = true }) r)
    unfolding conclude
    conclude_open c none h = refl
    conclude_open c (some (q, retries, none)) h = regroup_open c q retries h
    conclude_open c (some (q, retries, some err)) h = elim (Bool-cases (errs.is_retriable err)) [
      | inl y ↦ rw y (regroup_open c q retries h)
      | inr n ↦ rw n refl
    ]

    attend_open :
        (c : Collector E) (b : Batch) (r : Option (Queue E × Batch × Option E))
        → turn.received ≤ length c.incoming
        → attend errs size agent sort_reverse turn (record c { closed = false }) b r
          ≡ reopen (attend errs size agent sort_reverse turn (record c { closed = true }) b r)
    unfolding attend
    attend_open c [] r h = conclude_open c r h
    attend_open c (t ∷ b) r h = elim (Bool-cases (is_stuck size turn.reads r)) [
      | inl y ↦ rw y refl
      | inr n ↦ rw n (conclude_open c r h)
    ]

    pub collect_round_open :
        (c : Collector E) (r : Bool × Batch × List ObjectTuple)
        → fill size false false c.next c.incoming ≡ some r
        → turn.received ≤ length r.2
        → collect_round errs size agent sort_reverse turn
            (record c { closed = false; closing = false })
          ≡ reopen (
              collect_round errs size agent sort_reverse turn
                (record c { closed = true; closing = false }))
    unfolding collect_round
    collect_round_open c r f h =
        rw (f, collect_round)
          (rw ((fill_open size c.next c.incoming r f).0, collect_round)
            (attend_open (record c { closing = r.0; next = r.1; incoming = r.2 }) (sort_reverse r.1)
              _ h))

    -- A turn that goes on leaves the channel open.
    abbrev pub StaysOpen : Outcome E → Type 0
    StaysOpen (goes_on sleep c) = (c.closed ≡ false) × (c.closing ≡ false)
    StaysOpen _ = Unit

    choose-StaysOpen :
        (c : Collector E) (min_wait : ℕ) (next pending : Batch)
        → c.closed ≡ false
        → c.closing ≡ false
        → StaysOpen (choose errs size agent sort_reverse c min_wait next pending)
    unfolding choose
    choose-StaysOpen c min_wait [] [] e f = rw (f, if◌then◌else◌) (e, refl)
    choose-StaysOpen c min_wait [] (t ∷ pending) e f = (e, f)
    choose-StaysOpen c min_wait (t ∷ next) pending e f = (e, f)

    regroup-StaysOpen :
        (c : Collector E) (q : Queue E) (retries : Batch)
        → StaysOpen
            (regroup errs size agent sort_reverse turn (record c { closed = false }) q retries)
    unfolding regroup
    regroup-StaysOpen c q retries =
        let (collected, closing, left) = collect_pending_until turn.received false c.incoming in
        let (next, pending, min_wait) = concat turn.clock retries (c.pending ++ collected) size in
        choose-StaysOpen
          (record c {
            queue = q;
            incoming = left;
            closed = false;
            closing = closing;
            next = next;
            pending = pending;
          })
          min_wait next pending refl (collect_still turn.received c.incoming)

    conclude-StaysOpen :
        (c : Collector E) (r : Option (Queue E × Batch × Option E))
        → StaysOpen (conclude errs size agent sort_reverse turn (record c { closed = false }) r)
    unfolding conclude
    conclude-StaysOpen c none = tt
    conclude-StaysOpen c (some (q, retries, none)) = regroup-StaysOpen c q retries
    conclude-StaysOpen c (some (q, retries, some err)) = elim (Bool-cases (errs.is_retriable err)) [
      | inl y ↦ rw y (regroup-StaysOpen c q retries)
      | inr n ↦ rw n tt
    ]

    attend-StaysOpen :
        (c : Collector E) (b : Batch) (r : Option (Queue E × Batch × Option E))
        → StaysOpen (attend errs size agent sort_reverse turn (record c { closed = false }) b r)
    unfolding attend
    attend-StaysOpen c [] r = conclude-StaysOpen c r
    attend-StaysOpen c (t ∷ b) r = elim (Bool-cases (is_stuck size turn.reads r)) [
      | inl y ↦ rw y tt
      | inr n ↦ rw n (conclude-StaysOpen c r)
    ]

    pub collect_round-StaysOpen :
        (c : Collector E) (r : Bool × Batch × List ObjectTuple)
        → fill size false false c.next c.incoming ≡ some r
        → StaysOpen (
            collect_round errs size agent sort_reverse turn
              (record c { closed = false; closing = false }))
    unfolding collect_round
    collect_round-StaysOpen c r f =
        rw (f, collect_round)
          (attend-StaysOpen (record c { closing = r.0; next = r.1; incoming = r.2 })
            (sort_reverse r.1) _)
