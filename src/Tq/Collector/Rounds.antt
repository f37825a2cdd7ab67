-- ===== src/Tq/Collector/Rounds.antt =====
-- A turn of the loop of `collectBatches` of tq/transfer_queue.go that has objects to process comes
-- closer to the end.
use mathlib.Core.List.{Permᴰ}
use mathlib.Core.Path.{subst}
use git_lfs.Prelude.{
  ℕ, ◌+◌, ◌<◌, ◌≤◌, ◌≡◌, refl, sym, ap, ◌∙◌, Bool, true, false, Option, none, some, inl, inr,
  Bool-cases, List, [], ◌∷◌, ◌++◌, length, length-append, All-append, Text, text_comparable, arith,
  if◌then◌else◌,
}
use git_lfs.Tq.Batch.{ObjectTuple, Batch, concat}
use git_lfs.Tq.Queue.{Queue, Event, Errors, emit, error_sent}
use git_lfs.Tq.Queue.Enqueue.{World, enqueue_and_collect_retries_for}
use git_lfs.Tq.Queue.Accounting.{dones, IsFilled}
use git_lfs.Tq.Queue.Adding.{waits}
use git_lfs.Tq.Queue.Whole.{Answers}
use git_lfs.Tq.Queue.Spending.{Among, IsOwned, Pays, Pays-trans, Pays-quiet}
use git_lfs.Tq.Queue.Charging.{IsExact, Settles, enqueue_and_collect_retries_for-Charges}
use git_lfs.Tq.Collector.{
  Turn, Collector, Outcome, goes_on, finished, aborted, blocked, crashed, fill,
  collect_pending_until, process, choose, regroup, conclude, attend, is_stuck, waits_for_reader,
  collect_round,
}
use git_lfs.Tq.Collector.Moving.{IsFill, collect_pending_until-moves, concat-moves, perm-moves}
use git_lfs.Tq.Collector.Progress.{
  budget, budget-le, budget-lt, owned_lem, live, IsAccounted, distance, Lands, Advances,
}

waits_for_reader-read :
    {E : Type 0} (size : ℕ) (reads : ℕ → Option ℕ) (watchers : List ℕ) (events : List (Event E))
    → ((w : ℕ) → reads w ≡ none)
    → waits_for_reader size reads watchers events ≡ false
unfolding waits_for_reader
waits_for_reader-read size reads [] events read = refl
waits_for_reader-read size reads (w ∷ watchers) events read =
    rw (read w, waits_for_reader) (waits_for_reader-read size reads watchers events read)

-- A send to watchers that are read does not wait for ever.
is_stuck-read :
    {E : Type 0} (size : ℕ) (reads : ℕ → Option ℕ) (r : Option (Queue E × Batch × Option E))
    → ((w : ℕ) → reads w ≡ none)
    → is_stuck size reads r ≡ false
is_stuck-read size reads none read = refl
is_stuck-read size reads (some (q, retries, err)) read =
    waits_for_reader-read size reads q.watchers q.events read

module _ {E : Type 0} where
  module _ (ks : List Text) where
    module _ (errs : Errors E) (size : ℕ) (agent : Text) (sort_reverse : Batch → Batch) where
      choose-Lands :
          (c : Collector E) (min_wait : ℕ) (next pending : Batch)
          → IsAccounted ks c
          → c.next ≡ next
          → c.pending ≡ pending
          → Lands ks c.queue (live c) (choose errs size agent sort_reverse c min_wait next pending)
      unfolding choose
      choose-Lands c min_wait [] [] a n p = elim (Bool-cases c.closing) [
        | inl y ↦
            subst (λ b. Lands ks c.queue (live c) (if b then finished c.queue else goes_on 0 c))
              (sym y)
              (refl, omega (arith, a.total, ap length n, ap length p, ap length (a.drained y)))
        | inr m ↦
            subst (λ b. Lands ks c.queue (live c) (if b then finished c.queue else goes_on 0 c))
              (sym m) (a, refl, refl)
      ]
      choose-Lands c min_wait [] (t ∷ pending) a n p = (a, refl, refl)
      choose-Lands c min_wait (t ∷ next) pending a n p = (a, refl, refl)

      pub regroup-Lands :
          (turn : Turn E) (c : Collector E) (q : Queue E) (retries : Batch)
          → c.closed ≡ true
          → IsOwned ks q.transfers
          → IsFilled q.transfers
          → Among ks retries
          → Among ks c.pending
          → Among ks c.incoming
          → dones q.events + (length retries + length c.pending + length c.incoming)
            ≡ waits q.events
          → Lands ks q
              (length retries + length c.pending + length c.incoming)
              (regroup errs size agent sort_reverse turn c q retries)
      unfolding regroup
      regroup-Lands turn c q retries closed owned filled kr kp ki total =
          let (moved, known, drained) =
            collect_pending_until-moves ks turn.received c.closed c.incoming in
          let got = collect_pending_until turn.received c.closed c.incoming in
          let (conserved, kept) = concat-moves ks turn.clock size retries (c.pending ++ got.0) in
          let chosen = concat turn.clock retries (c.pending ++ got.0) size in
          let (known_next, known_pending) = kept kr (All-append _ c.pending _ kp (known ki).0) in
          let c' : Collector E = record c {
            queue = q;
            incoming = got.2;
            closing = got.1;
            next = chosen.0;
            pending = chosen.1;
          } in
          let same : live c' ≡ length retries + length c.pending + length c.incoming =
            omega (arith, moved, conserved, length-append c.pending got.0) in
          subst
            (λ n. Lands ks q n (choose errs size agent sort_reverse c' chosen.2 chosen.0 chosen.1))
            same
            (choose-Lands c' chosen.2 chosen.0 chosen.1
              (record {
                closed = closed;
                drained = drained;
                owned = owned;
                filled = filled;
                known_incoming = (known ki).1;
                known_next = known_next;
                known_pending = known_pending;
                total = ap (λ n. dones q.events + n) same ∙ total;
              })
              refl refl)

      Lands-Advances :
          (q : Queue E) (n m : ℕ) (o : Outcome E)
          → Lands ks q n o
          → n + budget ks q.rc < m
          → Advances ks m o
      Lands-Advances q n m (goes_on sleep c) (a, same, counted) h =
          (a, omega (arith, h, counted, ap (λ (q : Queue E). budget ks q.rc) same))
      Lands-Advances q n m (finished p) (same, done) h =
          subst (λ (p : Queue E). dones p.events ≡ waits p.events) (sym same) done
      Lands-Advances q n m (aborted p) l h = tt
      Lands-Advances q n m blocked l h = elim l [ ]
      Lands-Advances q n m crashed l h = elim l [ ]

      -- A batch that is paid for leaves less to do than there was.
      paid_lem :
          (q p : Queue E) (batch retries : Batch)
          → Pays ks (q, []) (p, retries)
          → 1 ≤ length batch
          → dones p.events + length retries ≡ dones q.events + length batch
          → length retries + budget ks p.rc < length batch + budget ks q.rc
      paid_lem q p batch [] pays some_left settled =
          omega (arith, some_left, budget-le ks q.rc p.rc pays.keeps.same_max pays.keeps.counts)
      paid_lem q p batch (t ∷ retries) pays some_left settled =
          let (k, known, left, used) = pays.spends (omega arith) in
          omega (
            arith,
            settled,
            pays.keeps.settled,
            budget-lt ks q.rc p.rc pays.keeps.same_max pays.keeps.counts k known left used,
          )

      -- What the goroutine of a turn hands back.
      abbrev handed_back : Queue E × Batch × Option E → Queue E × Batch × Option E
      handed_back (q, retries, none) = (q, retries, none)
      handed_back (q, retries, some e) = (emit (error_sent e) q, retries, some e)

      process_lem :
          (w : World E) (q : Queue E) (t : ObjectTuple) (batch : Batch)
          (p : Queue E × Batch × Option E)
          → enqueue_and_collect_retries_for errs w agent q (t ∷ batch) ≡ some p
          → process errs size agent sort_reverse w q (t ∷ batch) ≡ some (handed_back p)
      unfolding process
      process_lem w q t batch (q', retries, none) e = rw (e, process) refl
      process_lem w q t batch (q', retries, some err) e = rw (e, process) refl

      module _ (turn : Turn E) (answers : Answers errs turn.world.results)
          (exact : IsExact turn.world)
          (final : (oid : Text) → errs.is_retriable (errs.missing_source oid) ≡ false) where
        abbrev PaidFor : Collector E → Batch → Queue E → Batch → Type 0
        PaidFor c batch p retries =
            Pays ks (c.queue, []) (p, retries)
            × (dones p.events + length retries ≡ dones c.queue.events + length batch)

        regroup-Advances :
            (c : Collector E) (t : ObjectTuple) (batch retries : Batch) (p : Queue E)
            → IsAccounted ks c
            → length (t ∷ batch) ≡ length c.next
            → PaidFor c (t ∷ batch) p retries
            → Advances ks (distance ks c) (regroup errs size agent sort_reverse turn c p retries)
        regroup-Advances c t batch retries p a whole (pays, settled) =
            Lands-Advances p (length retries + length c.pending + length c.incoming) (distance ks c)
              _
              (regroup-Lands turn c p retries a.closed
                (owned_lem ks c.queue.transfers p.transfers pays.keeps.same_oldest a.owned)
                (pays.keeps.filled a.filled) (pays.keeps.among tt) a.known_pending a.known_incoming
                (omega (arith, settled, whole, a.total, pays.keeps.waited)))
              (omega
                (arith, whole, paid_lem c.queue p (t ∷ batch) retries pays (omega arith) settled))

        -- Whatever a batch that is paid for returns.
        handed_back-Advances :
            (c : Collector E) (t : ObjectTuple) (batch : Batch) (p : Queue E × Batch × Option E)
            → IsAccounted ks c
            → length (t ∷ batch) ≡ length c.next
            → Pays ks (c.queue, []) (p.0, p.1)
            → Settles ks errs turn.world c.queue (t ∷ batch) p
            → Advances ks
                (distance ks c)
                (conclude errs size agent sort_reverse turn c (some (handed_back p)))
        unfolding conclude
        handed_back-Advances c t batch (q, retries, none) a whole pays (inl settled) =
            regroup-Advances c t batch retries q a whole (pays, settled)
        handed_back-Advances c t batch (q, retries, none) a whole pays
              (inr (err, e, not_retriable)) =
            absurd (ground arith)
        handed_back-Advances c t batch (q, retries, some e) a whole pays settles =
            elim (Bool-cases (errs.is_retriable e)) [
              | inr n ↦
                  subst
                    (λ b. Advances ks (distance ks c) (
                      if b
                      then regroup errs size agent sort_reverse turn c (emit (error_sent e) q)
                          retries
                      else aborted (emit (error_sent e) q)))
                    (sym n) tt
              | inl y ↦
                  subst
                    (λ b. Advances ks (distance ks c) (
                      if b
                      then regroup errs size agent sort_reverse turn c (emit (error_sent e) q)
                          retries
                      else aborted (emit (error_sent e) q)))
                    (sym y)
                    (regroup-Advances c t batch retries (emit (error_sent e) q) a whole (
                      Pays-trans ks _ _ _ pays (
                          Pays-quiet ks q (emit (error_sent e) q) retries refl refl (omega arith)
                            refl),
                      can_only_settle y settles,
                    ))
            ]
          where
            can_only_settle :
                errs.is_retriable e ≡ true
                → Settles ks errs turn.world c.queue (t ∷ batch) (q, retries, some e)
                → dones q.events + length retries ≡ dones c.queue.events + length (t ∷ batch)
            can_only_settle y (inl settled) = settled
            can_only_settle y (inr (err, same, not_retriable)) = absurd (ground arith)

        conclude-Advances :
            (c : Collector E) (t : ObjectTuple) (batch : Batch)
            → IsAccounted ks c
            → length (t ∷ batch) ≡ length c.next
            → Among ks (t ∷ batch)
            → Advances ks (distance ks c) (
                conclude errs size agent sort_reverse turn c
                  (process errs size agent sort_reverse turn.world c.queue (t ∷ batch)))
        conclude-Advances c t batch a whole known =
            let (p, done, pays, settles) =
              enqueue_and_collect_retries_for-Charges ks errs turn.world answers final agent c.queue
                (t ∷ batch) exact a.filled a.owned known in
            subst
              (λ o. Advances ks (distance ks c) (conclude errs size agent sort_reverse turn c o))
              (sym (process_lem turn.world c.queue t batch p done))
              (handed_back-Advances c t batch p a whole pays settles)

        -- A turn that finds objects to process.
        pub collect_round-Advances :
            (c : Collector E) (r : Bool × Batch × List ObjectTuple)
            → 1 ≤ size
            → ((b : Batch) → Permᴰ (sort_reverse b) b)
            → IsAccounted ks c
            → fill size c.closed c.closing c.next c.incoming ≡ some r
            → IsFill ks size c.next c.incoming r
            → 1 ≤ length r.1
            → ((w : ℕ) → turn.reads w ≡ none)
            → Advances ks (distance ks c) (collect_round errs size agent sort_reverse turn c)
        unfolding collect_round attend
        collect_round-Advances c r positive sorts a filled f some_left read =
            rw (filled, collect_round) (go (sort_reverse r.1) (sorts r.1))
          where
            c' : Collector E
            c' = record c { closing = r.0; next = r.1; incoming = r.2 }

            accounted : IsAccounted ks c'
            accounted = record {
              closed = a.closed;
              drained = f.drained;
              owned = a.owned;
              filled = a.filled;
              known_incoming = (f.known a.known_next a.known_incoming).1;
              known_next = (f.known a.known_next a.known_incoming).0;
              known_pending = a.known_pending;
              total = omega (arith, a.total, f.total);
            }

            go :
                (b : Batch)
                → Permᴰ b r.1
                → Advances ks (distance ks c) (
                    attend errs size agent sort_reverse turn c' b
                      (process errs size agent sort_reverse turn.world c.queue b))
            go [] p = absurd (omega (arith, (perm-moves ks p).0))
            go (t ∷ b) p =
                let (whole, known) = perm-moves ks p in
                let r = process errs size agent sort_reverse turn.world c.queue (t ∷ b) in
                rw (is_stuck-read size turn.reads r read, attend)
                  (subst
                    (λ n. Advances ks n (
                      conclude errs size agent sort_reverse turn c'
                        (process errs size agent sort_reverse turn.world c.queue (t ∷ b))))
                    (omega (arith, f.total))
                    (conclude-Advances c' t b accounted whole (known accounted.known_next)))
