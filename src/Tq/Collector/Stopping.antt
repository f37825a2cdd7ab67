-- ===== src/Tq/Collector/Stopping.antt =====
-- `collectBatches` and `Wait` of tq/transfer_queue.go come to an end.
use mathlib.Core.List.{Permᴰ}
use mathlib.Core.Path.{subst}
use git_lfs.Prelude.{
  ℕ, zero, suc, ◌<◌, ◌≤◌, ◌≡◌, refl, sym, ap, ◌∙◌, Bool, true, false, some, inl, inr, Bool-cases,
  List, [], ◌∷◌, length, Text, eqb, arith,
}
use git_lfs.Tq.Batch.{ObjectTuple, Batch}
use git_lfs.Tq.Queue.{Queue, Errors}
use git_lfs.Tq.Queue.Accounting.{dones}
use git_lfs.Tq.Queue.Adding.{waits}
use git_lfs.Tq.Collector.{
  Turn, Collector, Outcome, goes_on, finished, aborted, blocked, crashed, fill, collect_round,
  collect_batches, regroup,
}
use git_lfs.Tq.Collector.Moving.{IsFill, Filling, fill-closed}
use git_lfs.Tq.Collector.Progress.{IsAccounted, budget, distance, Advances, Lands}
use git_lfs.Tq.Collector.Rounds.{collect_round-Advances, regroup-Lands}
use git_lfs.Tq.Collector.Idle.{
  IdleTurn, promotes, stays, ends, idle_at, idle_round, nil_of_length, regroup-IdleTurn,
}
use git_lfs.Tq.Collector.Fairness.{IsFair, ready_by, some_ready}

module _ {E : Type 0} (ks : List Text) (errs : Errors E) (size : ℕ) (agent : Text)
    (sort_reverse : Batch → Batch) where
  abbrev after_first : (ℕ → Turn E) → ℕ → Turn E
  after_first turns n = turns (suc n)

  after_first-IsFair : (turns : ℕ → Turn E) → IsFair errs turns → IsFair errs (after_first turns)
  after_first-IsFair turns f = record {
    answers = λ n. f.answers (suc n);
    exact = λ n. f.exact (suc n);
    read = λ n. f.read (suc n);
    passes = λ n t.
        let (m, h) = f.passes (suc n) t in (m, subst (λ k. t < (turns k).clock) (omega arith) h);
    receives = λ n.
        let (m, h) = f.receives (suc n) in (m, subst (λ k. 1 ≤ (turns k).received) (omega arith) h);
  }

  -- The collector stopped, and each object that is waited for is done unless the wait was aborted.
  abbrev pub HasStopped : Outcome E → Type 0
  HasStopped (goes_on sleep c) = ⊥
  HasStopped (finished q) = dones q.events ≡ waits q.events
  HasStopped (aborted q) = Unit
  HasStopped blocked = ⊥
  HasStopped crashed = ⊥

  abbrev pub Stops : (ℕ → Turn E) → Collector E → Type 0
  Stops turns c =
      (fuel : ℕ) × HasStopped (collect_batches errs size agent sort_reverse fuel turns c)

  abbrev ThenStops : (ℕ → Turn E) → Outcome E → Type 0
  ThenStops turns (goes_on sleep c) = Stops (after_first turns) c
  ThenStops turns (finished q) = dones q.events ≡ waits q.events
  ThenStops turns (aborted q) = Unit
  ThenStops turns blocked = ⊥
  ThenStops turns crashed = ⊥

  one_turn :
      (turns : ℕ → Turn E) (c : Collector E) (o : Outcome E)
      → collect_round errs size agent sort_reverse (turns 0) c ≡ o
      → ThenStops turns o
      → Stops turns c
  unfolding collect_batches
  one_turn turns c (goes_on sleep c') e (fuel, h) = (suc fuel, rw (e, collect_batches) h)
  one_turn turns c (finished q) e h = (1, rw (e, collect_batches) h)
  one_turn turns c (aborted q) e h = (1, rw (e, collect_batches) tt)
  one_turn turns c blocked e h = elim h [ ]
  one_turn turns c crashed e h = elim h [ ]

  module _ (positive : 1 ≤ size) (sorts : (b : Batch) → Permᴰ (sort_reverse b) b)
      (final : (oid : Text) → errs.is_retriable (errs.missing_source oid) ≡ false) where
    -- What is known of the collectors that are closer to their end than `b`.
    abbrev Shorter : ℕ → Type 0
    Shorter b =
        (turns : ℕ → Turn E) (c : Collector E)
        → IsFair errs turns
        → IsAccounted ks c
        → distance ks c < b
        → Stops turns c

    Advances-ThenStops :
        (b : ℕ) (turns : ℕ → Turn E) (o : Outcome E)
        → Shorter b
        → IsFair errs turns
        → Advances ks b o
        → ThenStops turns o
    Advances-ThenStops b turns (goes_on sleep c) shorter fair (a, h) =
        shorter (after_first turns) c (after_first-IsFair turns fair) a h
    Advances-ThenStops b turns (finished q) shorter fair h = h
    Advances-ThenStops b turns (aborted q) shorter fair h = tt
    Advances-ThenStops b turns blocked shorter fair h = elim h [ ]
    Advances-ThenStops b turns crashed shorter fair h = elim h [ ]

    busy :
        (turns : ℕ → Turn E) (c : Collector E) (r : Bool × Batch × List ObjectTuple)
        → Shorter (distance ks c)
        → IsFair errs turns
        → IsAccounted ks c
        → fill size c.closed c.closing c.next c.incoming ≡ some r
        → IsFill ks size c.next c.incoming r
        → 1 ≤ length r.1
        → Stops turns c
    busy turns c r shorter fair a filled f some_left = one_turn turns c _ refl (
        Advances-ThenStops (distance ks c) turns _ shorter fair (
          collect_round-Advances ks errs size agent sort_reverse (turns 0) (fair.answers 0)
            (fair.exact 0) final c r positive sorts a filled f some_left (fair.read 0)))

    busy_next :
        (turns : ℕ → Turn E) (c : Collector E)
        → Shorter (distance ks c)
        → IsFair errs turns
        → IsAccounted ks c
        → 1 ≤ length c.next
        → Stops turns c
    unfolding Filling
    busy_next turns c shorter fair a some_left =
        let (r, filled, f) =
          fill-closed ks size positive c.closed c.closing c.next c.incoming a.closed a.drained in
        busy turns c r shorter fair a filled f (omega (arith, some_left, f.longer))

    idle_Lands :
        (turn : Turn E) (q : Queue E) (closing : Bool) (pending : Batch) (o : Outcome E)
        → collect_round errs size agent sort_reverse turn (idle_at q closing pending) ≡ o
        → IsAccounted ks (idle_at q closing pending)
        → Lands ks q (length pending) o × IdleTurn turn q pending o
    idle_Lands turn q closing pending o e a =
        let round = idle_round errs size agent sort_reverse positive turn q closing pending sorts in
        (
          subst (Lands ks q (length pending)) (sym round ∙ e) (
              subst
                (λ n.
                  Lands ks q n
                    (regroup errs size agent sort_reverse turn (idle_at q true pending) q []))
                (omega arith)
                (regroup-Lands ks errs size agent sort_reverse turn (idle_at q true pending) q []
                  refl a.owned a.filled tt a.known_pending tt (omega (arith, a.total)))),
          subst (IdleTurn turn q pending) (sym round ∙ e)
              (regroup-IdleTurn errs size agent sort_reverse positive turn q pending),
        )

    -- Nothing is left: the loop ends when it receives the end of the channel.
    idle_empty :
        (m : ℕ) (turns : ℕ → Turn E) (q : Queue E) (closing : Bool)
        → IsFair errs turns
        → IsAccounted ks (idle_at q closing [])
        → 1 ≤ (turns m).received
        → Stops turns (idle_at q closing [])
    idle_empty zero turns q closing fair a seen =
        let (lands, turn) = idle_Lands (turns 0) q closing [] _ refl a in
        elim turn [
          | ends p e ↦ one_turn turns _ (finished q) e (omega (arith, a.total))
          | promotes sleep c e h ↦ absurd (omega (arith, h, (subst (Lands ks q 0) e lands).2))
          | stays sleep closing' e r unseen ↦ absurd (omega (arith, seen, unseen refl))
        ]
    idle_empty (suc m) turns q closing fair a seen =
        let (lands, turn) = idle_Lands (turns 0) q closing [] _ refl a in
        elim turn [
          | ends p e ↦ one_turn turns _ (finished q) e (omega (arith, a.total))
          | promotes sleep c e h ↦ absurd (omega (arith, h, (subst (Lands ks q 0) e lands).2))
          | stays sleep closing' e r unseen ↦
              one_turn turns _ (goes_on sleep (idle_at q closing' [])) e (
                idle_empty m (after_first turns) q closing' (after_first-IsFair turns fair)
                  (subst (Lands ks q 0) e lands).0 seen)
        ]

    promoted :
        (turns : ℕ → Turn E) (q : Queue E) (closing : Bool) (pending : Batch) (sleep : ℕ)
        (c : Collector E)
        → Shorter (distance ks (idle_at q closing pending))
        → IsFair errs turns
        → collect_round errs size agent sort_reverse (turns 0) (idle_at q closing pending)
          ≡ goes_on sleep c
        → Lands ks q (length pending) (goes_on sleep c)
        → 1 ≤ length c.next
        → Stops turns (idle_at q closing pending)
    promoted turns q closing pending sleep c shorter fair e (accounted, same, counted) h =
        one_turn turns _ (goes_on sleep c) e (
          busy_next (after_first turns) c
            (λ t d f i less.
              shorter t d f i
                (omega (arith, less, counted, ap (λ (q : Queue E). budget ks q.rc) same)))
            (after_first-IsFair turns fair) accounted h)

    -- The loop goes through idle turns until an object is ready.
    idle_waiting :
        (m : ℕ) (turns : ℕ → Turn E) (q : Queue E) (closing : Bool) (pending : Batch)
        → Shorter (distance ks (idle_at q closing pending))
        → IsFair errs turns
        → IsAccounted ks (idle_at q closing pending)
        → 1 ≤ length pending
        → ready_by pending < (turns m).clock
        → Stops turns (idle_at q closing pending)
    idle_waiting zero turns q closing pending shorter fair a some_left late =
        let (lands, turn) = idle_Lands (turns 0) q closing pending _ refl a in
        elim turn [
          | ends p e ↦ absurd (omega (arith, some_left, ap length p))
          | promotes sleep c e h ↦
              promoted turns q closing pending sleep c shorter fair e
                (subst (Lands ks q (length pending)) e lands) h
          | stays sleep closing' e r unseen ↦
              absurd (some_ready (turns 0).clock pending some_left late r)
        ]
    idle_waiting (suc m) turns q closing pending shorter fair a some_left late =
        let (lands, turn) = idle_Lands (turns 0) q closing pending _ refl a in
        elim turn [
          | ends p e ↦ absurd (omega (arith, some_left, ap length p))
          | promotes sleep c e h ↦
              promoted turns q closing pending sleep c shorter fair e
                (subst (Lands ks q (length pending)) e lands) h
          | stays sleep closing' e r unseen ↦
              one_turn turns _ (goes_on sleep (idle_at q closing' pending)) e (
                idle_waiting m (after_first turns) q closing' pending shorter
                  (after_first-IsFair turns fair) (subst (Lands ks q (length pending)) e lands).0
                  some_left late)
        ]

    idle :
        (turns : ℕ → Turn E) (q : Queue E) (closing : Bool) (pending : Batch)
        → Shorter (distance ks (idle_at q closing pending))
        → IsFair errs turns
        → IsAccounted ks (idle_at q closing pending)
        → Stops turns (idle_at q closing pending)
    idle turns q closing [] shorter fair a =
        let (m, seen) = fair.receives 0 in
        idle_empty m turns q closing fair a (subst (λ k. 1 ≤ (turns k).received) (omega arith) seen)
    idle turns q closing (t ∷ pending) shorter fair a =
        let (m, late) = fair.passes 0 (ready_by (t ∷ pending)) in
        idle_waiting m turns q closing (t ∷ pending) shorter fair a (omega arith)
          (subst (λ k. ready_by (t ∷ pending) < (turns k).clock) (omega arith) late)

    -- A collector is idle if its channel is closed and nothing is left in it nor in the next batch.
    abbrev StopsFrom :
        (ℕ → Turn E) → Queue E → (closed closing : Bool) → (incoming next pending : Batch) → Type 0
    StopsFrom turns q closed closing incoming next pending =
        let c : Collector E = record {
          queue = q;
          incoming = incoming;
          closed = closed;
          closing = closing;
          next = next;
          pending = pending;
        } in
        Shorter (distance ks c) → IsAccounted ks c → Stops turns c

    idle_of :
        (turns : ℕ → Turn E) (c : Collector E)
        → c.incoming ≡ []
        → c.next ≡ []
        → IsFair errs turns
        → Shorter (distance ks c)
        → IsAccounted ks c
        → Stops turns c
    idle_of turns c f g fair shorter a =
        subst (λ x. StopsFrom turns c.queue x c.closing c.incoming c.next c.pending) (sym a.closed)
          (subst (λ x. StopsFrom turns c.queue true c.closing x c.next c.pending) (sym f)
            (subst (λ x. StopsFrom turns c.queue true c.closing [] x c.pending) (sym g)
              (λ s i. idle turns c.queue c.closing c.pending s fair i)))
          shorter a

    stops_within :
        (b : ℕ) (turns : ℕ → Turn E) (c : Collector E)
        → IsFair errs turns
        → IsAccounted ks c
        → distance ks c < b
        → Stops turns c
    unfolding Filling
    stops_within zero turns c fair a h = absurd (omega arith)
    stops_within (suc b) turns c fair a h =
        let shorter : Shorter (distance ks c) =
          λ turns' c' f a' less. stops_within b turns' c' f a' (omega (arith, less)) in
        let (r, filled, f) =
          fill-closed ks size positive c.closed c.closing c.next c.incoming a.closed a.drained in
        elim (Bool-cases (eqb (length r.1) 0)) [
          | inr n ↦ busy turns c r shorter fair a filled f (ground arith)
          | inl y ↦
              idle_of turns c (nil_of_length c.incoming (emptied y f))
                (nil_of_length c.next (omega (arith, f.longer, zero_lem y))) fair shorter a
        ]
      where
        zero_lem : {n : ℕ} → eqb n 0 ≡ true → n ≡ 0
        zero_lem e = ground arith

        emptied :
            {r : Bool × Batch × List ObjectTuple}
            → eqb (length r.1) 0 ≡ true
            → IsFill ks size c.next c.incoming r
            → length c.incoming ≡ 0
        emptied e f = omega (arith, f.total, zero_lem e, ap length (f.empty (zero_lem e)).1)

    -- If batches may hold an object, the sort permutes the batch, a missing source is an error that
    -- is not retried, and the turns are fair (the answers of the server and the adapter are for the
    -- objects that are asked for, time passes every bound, the closed channel is received from
    -- again and again, and the channel of each watcher is read as long as something comes), the
    -- loop of the collector ends, neither waiting for a channel nor at a nil pointer, and if it
    -- ends without aborting, then every object that is waited for is done: from any state in which
    -- the channel is closed and each object that is waited for is done, in the channel or in one of
    -- the two batches.
    pub collect_batches-HasStopped :
        (turns : ℕ → Turn E) (c : Collector E)
        → IsFair errs turns
        → IsAccounted ks c
        → Stops turns c
    collect_batches-HasStopped turns c fair a =
        stops_within (suc (distance ks c)) turns c fair a (omega arith)
