-- ===== src/Tq/Collector/Idle.antt =====
-- A turn of the loop of `collectBatches` of tq/transfer_queue.go that has nothing to process.
use mathlib.Core.List.{Permᴰ}
use git_lfs.Prelude.{
  ℕ, zero, suc, ◌≤◌, ◌≡◌, ◌≢◌, refl, sym, ap, ◌∙◌, Bool, true, false, not, inl, inr, Bool-cases,
  List, [], ◌∷◌, ◌++◌, append-nil, length, take, drop, keep, Text, eqb, ltb, arith,
}
use git_lfs.Tq.Batch.{ObjectTuple, Batch, concat}
use git_lfs.Tq.Batch.Clamping.{is_ready, is_waiting, concat-split}
use git_lfs.Tq.Queue.{Queue, Errors}
use git_lfs.Tq.Collector.{
  Turn, Collector, Outcome, goes_on, finished, fill, collect_pending_until, process, choose,
  regroup, conclude, attend, collect_round,
}

pub nil_of_length : {A : Type 0} (b : List A) → length b ≡ 0 → b ≡ []
nil_of_length [] e = refl
nil_of_length (t ∷ b) e = absurd (omega arith)

take_nil : (n : ℕ) (b : Batch) → 1 ≤ n → take n b ≡ [] → b ≡ []
take_nil zero b h e = absurd (omega arith)
take_nil (suc n) [] h e = refl
take_nil (suc n) (t ∷ b) h e = absurd (ground arith)

keep_none : (now : ℕ) (b : Batch) → keep (is_ready now) b ≡ [] → keep (is_waiting now) b ≡ b
unfolding keep
keep_none now [] e = refl
keep_none now (t ∷ b) e = elim (Bool-cases (ltb t.ready_time now)) [
  | inl y ↦ absurd (ground arith)
  | inr n ↦ rw n (ap (λ b. t ∷ b) (keep_none now b (ground arith)))
]

drop_nil : (n : ℕ) → drop {A = ObjectTuple} n [] ≡ []
drop_nil zero = refl
drop_nil (suc n) = refl

collects_nothing : (n : ℕ) → collect_pending_until n true [] ≡ ([], not (eqb n 0), [])
unfolding collect_pending_until
collects_nothing zero = refl
collects_nothing (suc n) = ground arith

-- A choice that leaves the next batch empty leaves everything pending, and nothing was ready.
concat_empty :
    (now size : ℕ) (pending : Batch)
    → 1 ≤ size
    → (concat now [] pending size).0 ≡ []
    → ((concat now [] pending size).1 ≡ pending) × (keep (is_ready now) pending ≡ [])
concat_empty now size pending positive e =
    let (left, right) = concat-split now size [] pending in
    let none_ready = take_nil size (keep (is_ready now) pending) positive (sym left ∙ e) in
    (
      right
          ∙ ap (λ r. keep (is_waiting now) pending ++ drop size r) none_ready
          ∙ ap (λ d. keep (is_waiting now) pending ++ d) (drop_nil size)
          ∙ append-nil (keep (is_waiting now) pending)
          ∙ keep_none now pending none_ready,
      none_ready,
    )

module _ {E : Type 0} where
  -- A collector that has nothing to process, and for which nothing is left in the closed channel.
  abbrev pub idle_at : Queue E → (closing : Bool) → (pending : Batch) → Collector E
  idle_at q closing pending = record {
    queue = q;
    incoming = [];
    closed = true;
    closing = closing;
    next = [];
    pending = pending;
  }

  -- What an idle turn leads to: objects to process, another idle turn, since none was ready and,
  -- if none is left, the end of the channel was not received, or the end.
  pub data IdleTurn (turn : Turn E) (q : Queue E) (pending : Batch) (o : Outcome E) : Type 0 where
    promotes :
        (sleep : ℕ) (c : Collector E)
        → o ≡ goes_on sleep c
        → 1 ≤ length c.next
        → IdleTurn turn q pending o
    stays :
        (sleep : ℕ) (closing : Bool)
        → o ≡ goes_on sleep (idle_at q closing pending)
        → keep (is_ready turn.clock) pending ≡ []
        → (pending ≡ [] → turn.received ≡ 0)
        → IdleTurn turn q pending o
    ends : pending ≡ [] → o ≡ finished q → IdleTurn turn q pending o

  module _ (errs : Errors E) (size : ℕ) (agent : Text) (sort_reverse : Batch → Batch)
      (positive : 1 ≤ size) where
    sort_nothing : ((b : Batch) → Permᴰ (sort_reverse b) b) → sort_reverse [] ≡ []
    sort_nothing sorts =
        nil_of_length (sort_reverse []) (git_lfs.Tq.Collector.Moving.perm-moves [] (sorts [])).0

    pub idle_round :
        (turn : Turn E) (q : Queue E) (closing : Bool) (pending : Batch)
        → ((b : Batch) → Permᴰ (sort_reverse b) b)
        → collect_round errs size agent sort_reverse turn (idle_at q closing pending)
          ≡ regroup errs size agent sort_reverse turn (idle_at q true pending) q []
    unfolding collect_round fill process attend conclude
    idle_round turn q true pending sorts = rw (sort_nothing sorts, collect_round) refl
    idle_round turn q false pending sorts =
        rw (ltb_lem size positive, collect_round) (rw (sort_nothing sorts) refl)
      where
        ltb_lem : (n : ℕ) → 1 ≤ n → ltb 0 n ≡ true
        ltb_lem n h = ground arith

    choose-IdleTurn :
        (turn : Turn E) (q : Queue E) (pending : Batch) (closing : Bool) (min_wait : ℕ)
        (left right : Batch)
        → closing ≡ not (eqb turn.received 0)
        → (left ≡ [] → (right ≡ pending) × (keep (is_ready turn.clock) pending ≡ []))
        → IdleTurn turn q pending (
            choose errs size agent sort_reverse
              (record (idle_at q closing right) { next = left })
              min_wait
              left
              right)
    unfolding choose
    choose-IdleTurn turn q pending true min_wait [] [] seen h = ends (sym (h refl).0) refl
    choose-IdleTurn turn q pending false min_wait [] [] seen h =
        stays 0 false (ap (λ p. goes_on 0 (idle_at q false p)) (h refl).0) (h refl).1
          (λ e. ground arith)
    choose-IdleTurn turn q pending closing min_wait [] (t ∷ right) seen h =
        stays min_wait closing (ap (λ p. goes_on min_wait (idle_at q closing p)) (h refl).0)
          (h refl).1 (λ e. absurd (some_pending (sym ((h refl).0 ∙ e))))
      where
        some_pending : [] ≢ t ∷ right
        some_pending e = cc
    choose-IdleTurn turn q pending closing min_wait (t ∷ left) right seen h =
        promotes 0 _ refl (omega arith)

    pub regroup-IdleTurn :
        (turn : Turn E) (q : Queue E) (pending : Batch)
        → IdleTurn turn q pending
            (regroup errs size agent sort_reverse turn (idle_at q true pending) q [])
    unfolding regroup
    regroup-IdleTurn turn q pending =
        rw (collects_nothing turn.received, regroup)
          (rw (append-nil pending) (
            let chosen = concat turn.clock [] pending size in
            choose-IdleTurn turn q pending (not (eqb turn.received 0)) chosen.2 chosen.0 chosen.1
              refl (λ e. concat_empty turn.clock size pending positive e)))
