-- ===== src/Tq/Collector/Session.antt =====
-- A whole use of the queue of tq/transfer_queue.go: it is made, objects are added to it while the
-- collector runs, and `Wait` is called.
use mathlib.Core.List.{Permᴰ}
use mathlib.Core.Path.{subst}
use git_lfs.Prelude.{
  ℕ, zero, suc, ◌≤◌, ◌≡◌, refl, sym, ap, ◌∙◌, Bool, true, false, none, some, List, [], length, Text,
  text_comparable, elem, ltb, arith,
}
use git_lfs.Prelude.Int.{ℤ, pos, negsuc}
use git_lfs.Prelude.Dict
use git_lfs.Prelude.Dict.{Dict}
use git_lfs.Tq.Batch.{ObjectTuple, Batch}
use git_lfs.Tq.Queue.{Queue, Errors}
use git_lfs.Tq.Queue.Accounting.{dones, oldest, IsFilled}
use git_lfs.Tq.Queue.Adding.{Addition, waits}
use git_lfs.Tq.Queue.Whole.{Answers}
use git_lfs.Tq.Queue.Charging.{IsExact}
use git_lfs.Tq.Queue.Spending.{IsOwned}
use git_lfs.Tq.Collector.{
  Turn, Collector, Outcome, goes_on, finished, aborted, blocked, crashed, fill, collect_round, wait,
  queue_sizes,
}
use git_lfs.Tq.Collector.Moving.{Filling, IsFill, fill-closed}
use git_lfs.Tq.Collector.Progress.{IsAccounted, Advances}
use git_lfs.Tq.Collector.Rounds.{collect_round-Advances}
use git_lfs.Tq.Collector.Open.{
  reopen, fill_open, collect_round_open, StaysOpen, collect_round-StaysOpen,
}
use git_lfs.Tq.Collector.Fairness.{IsFair}
use git_lfs.Tq.Collector.Waiting.{wait-returns}
use git_lfs.Tq.Collector.Starting.{new_collector, add_to, add_to-IsAccounted, shut}

-- A queue that has just been made.
abbrev pub IsFresh : {E : Type 0} → Queue E → Type 0
IsFresh q = (q.transfers ≡ []) × (q.events ≡ [])

module _ {E : Type 0} (ks : List Text) (errs : Errors E) (size : ℕ) (agent : Text)
    (sort_reverse : Batch → Batch) where
  -- The collectors that a new queue comes to before the channel is closed: by calls of Add, for
  -- objects of the list `ks`, and by turns that find a whole batch and receive no more than there
  -- is, with what a fair turn has beside it.
  pub data Reached (q : Queue E) : Collector E → Type 0 where
    begun : Reached q (new_collector q)
    added :
        (c : Collector E)
        → Reached q c
        → (a : Addition E) → elem a.oid ks ≡ true
        → Reached q (add_to c a)
    turned :
        (c : Collector E)
        → Reached q c
        → (turn : Turn E) (r : Bool × Batch × List ObjectTuple) (sleep : ℕ) (c' : Collector E)
        → Answers errs turn.world.results
        → IsExact turn.world
        → ((w : ℕ) → turn.reads w ≡ none)
        → fill size c.closed c.closing c.next c.incoming ≡ some r
        → turn.received ≤ length r.2
        → collect_round errs size agent sort_reverse turn c ≡ goes_on sleep c'
        → Reached q c'

  -- What stays true: every object that is waited for is accounted for, and the channel is open.
  pub record IsRunning (c : Collector E) : Type 0 where
    pub accounted : IsAccounted ks (shut c)
    pub opened : c.closed ≡ false
    pub still : c.closing ≡ false

  fresh-IsRunning : (q : Queue E) → IsFresh q → IsRunning (new_collector q)
  unfolding IsOwned IsFilled oldest Dict.lookup
  fresh-IsRunning q (no_transfers, no_events) = record {
    accounted = record {
      closed = refl;
      drained = λ e. refl;
      owned = subst (IsOwned ks) (sym no_transfers) (λ k t e. absurd (ground arith));
      filled = subst IsFilled (sym no_transfers) (λ oid objs l. absurd (ground arith));
      known_incoming = tt;
      known_next = tt;
      known_pending = tt;
      total = omega (arith, ap dones no_events, ap waits no_events);
    };
    opened = refl;
    still = refl;
  }

  -- A collector whose channel is open, as such.
  abbrev opened_as : Collector E → Collector E
  opened_as c = record c { closed = false; closing = false }

  is_open : (c : Collector E) → c.closed ≡ false → c.closing ≡ false → c ≡ opened_as c
  is_open c e f =
      ap (λ x. record c { closed = x }) e ∙ ap (λ x. record c { closed = false; closing = x }) f

  -- What a turn that goes on leaves, once the channel is shut.
  reopened :
      (n sleep : ℕ) (o : Outcome E) (c' : Collector E)
      → Advances ks n o
      → reopen o ≡ goes_on sleep c'
      → IsAccounted ks (shut c')
  reopened n sleep (goes_on sleep' c'') c' (a, less) e =
      subst (IsAccounted ks) (shut_lem e) (record {
        closed = refl;
        drained = a.drained;
        owned = a.owned;
        filled = a.filled;
        known_incoming = a.known_incoming;
        known_next = a.known_next;
        known_pending = a.known_pending;
        total = a.total;
      })
    where
      shut_of : Outcome E → Collector E
      shut_of (goes_on s c) = shut c
      shut_of _ = shut c''

      shut_lem :
          goes_on sleep' (record c'' { closed = false }) ≡ goes_on sleep c' → shut c'' ≡ shut c'
      shut_lem h = ap shut_of h
  reopened n sleep (finished q) c' a e = cc
  reopened n sleep (aborted q) c' a e = cc
  reopened n sleep blocked c' a e = cc
  reopened n sleep crashed c' a e = cc

  module _ (positive : 1 ≤ size) (sorts : (b : Batch) → Permᴰ (sort_reverse b) b)
      (final : (oid : Text) → errs.is_retriable (errs.missing_source oid) ≡ false) where
    turned-IsRunning :
        (c : Collector E) (turn : Turn E) (r : Bool × Batch × List ObjectTuple) (sleep : ℕ)
        (c' : Collector E)
        → Answers errs turn.world.results
        → IsExact turn.world
        → ((w : ℕ) → turn.reads w ≡ none)
        → fill size c.closed c.closing c.next c.incoming ≡ some r
        → turn.received ≤ length r.2
        → collect_round errs size agent sort_reverse turn c ≡ goes_on sleep c'
        → IsRunning c
        → IsRunning c'
    unfolding Filling
    turned-IsRunning c turn r sleep c' answers exact read f h e run =
        let same = is_open c run.opened run.still in
        let f' : fill size false false c.next c.incoming ≡ some r =
          sym (ap (λ (c : Collector E). fill size c.closed c.closing c.next c.incoming) same) ∙ f in
        let (f_shut, still, full) = fill_open size c.next c.incoming r f' in
        let e' : collect_round errs size agent sort_reverse turn (opened_as c) ≡ goes_on sleep c' =
          ap (collect_round errs size agent sort_reverse turn) (sym same) ∙ e in
        let a : IsAccounted ks (record c { closed = true; closing = false }) =
          subst (λ x. IsAccounted ks (record c { closed = true; closing = x })) run.still
            run.accounted in
        let (s, f_same, filling) =
          fill-closed ks size positive true false c.next c.incoming refl
            (λ e. absurd (ground arith)) in
        let advances =
          collect_round-Advances ks errs size agent sort_reverse turn answers exact final
            (record c { closed = true; closing = false }) r positive sorts a f_shut
            (subst (IsFill ks size c.next c.incoming) (some_injective (sym f_same ∙ f_shut))
              filling)
            (some_left full) read in
        let stays : StaysOpen errs size agent sort_reverse turn (goes_on sleep c') =
          subst (StaysOpen errs size agent sort_reverse turn) e'
            (collect_round-StaysOpen errs size agent sort_reverse turn c r f') in
        record {
          accounted =
              reopened _ sleep _ c' advances
                (sym (collect_round_open errs size agent sort_reverse turn c r f' h) ∙ e');
          opened = stays.0;
          still = stays.1;
        }
      where
        some_injective : {a b : Bool × Batch × List ObjectTuple} → some a ≡ some b → a ≡ b
        some_injective h = cc

        some_left : ltb (length r.1) size ≡ false → 1 ≤ length r.1
        some_left n = ground (arith, positive)

    pub Reached-IsRunning :
        (q : Queue E) → IsFresh q → {c : Collector E} → Reached q c → IsRunning c
    Reached-IsRunning q fresh begun = fresh-IsRunning q fresh
    Reached-IsRunning q fresh (added c before a named) =
        let run = Reached-IsRunning q fresh before in
        record {
          accounted = add_to-IsAccounted ks c a named run.still run.accounted;
          opened = run.opened;
          still = run.still;
        }
    Reached-IsRunning q fresh (turned c before turn r sleep c' answers exact read f h e) =
        turned-IsRunning c turn r sleep c' answers exact read f h e
          (Reached-IsRunning q fresh before)

queue_sizes-positive : (batch_size buffer_depth : ℤ) → 1 ≤ (queue_sizes batch_size buffer_depth).0
unfolding queue_sizes
queue_sizes-positive (pos zero) buffer_depth = omega arith
queue_sizes-positive (pos (suc n)) buffer_depth = omega arith
queue_sizes-positive (negsuc n) buffer_depth = omega arith

module _ {E : Type 0} (ks : List Text) (errs : Errors E) (batch_size buffer_depth : ℤ)
    (agent : Text) (sort_reverse : Batch → Batch) where
  -- Whenever Wait is called while the collector of a queue runs, it returns after some further
  -- number of turns of the collector, with the adapter ended: after any calls of Add and any turns
  -- that go on, in any order, on a new queue, with any sizes of batches, where a call that waits
  -- for room in the channel counts as made. The conditions are that the sort permutes the batch;
  -- that a missing source is an error that is not retried; that in each turn, before and after, the
  -- server answers with one object for each that it is asked for and the adapter with one result
  -- for each transfer and for no other object, and the channel of each watcher is read as long as
  -- something comes; and that after the call of Wait the clock passes every bound and the closed
  -- channel is received from again and again.
  pub Reached-wait :
      (q : Queue E) (c : Collector E) (turns : ℕ → Turn E)
      → ((b : Batch) → Permᴰ (sort_reverse b) b)
      → ((oid : Text) → errs.is_retriable (errs.missing_source oid) ≡ false)
      → IsFair errs turns
      → IsFresh q
      → Reached ks errs (queue_sizes batch_size buffer_depth).0 agent sort_reverse q c
      → (fuel : ℕ) × (p : Queue E) × (wait errs
            (queue_sizes batch_size buffer_depth).0
            agent
            sort_reverse
            fuel
            turns
            c
          ≡ some p)
        × (p.adapter_in_progress ≡ false)
  Reached-wait q c turns sorts final fair fresh reached =
      let positive = queue_sizes-positive batch_size buffer_depth in
      let size = (queue_sizes batch_size buffer_depth).0 in
      let run =
        Reached-IsRunning ks errs size agent sort_reverse positive sorts final q fresh reached in
      wait-returns ks errs size agent sort_reverse positive sorts final turns c fair run.accounted
