-- ===== src/Tq/Queue/Accounting.antt =====
-- How the transfer queue of tq/transfer_queue.go settles the objects of a batch: each is waited for
-- no more, or stands in the next batch.
use git_lfs.Prelude.{
  ℕ, ◌+◌, ◌≡◌, ◌≢◌, refl, sym, ap, ◌∙◌, Bool, Option, none, some, inl, inr, Bool-cases,
  Option-cases, List, [], ◌∷◌, length, length-append, All, All-append, Text, text_comparable, arith,
}
use git_lfs.Prelude.Dict
use git_lfs.Prelude.Dict.{Dict}
use git_lfs.Tq.Batch.{ObjectTuple, Transfer, Batch}
use git_lfs.Tq.Relations.{Relation, no_action, found, expired, new_transfer}
use git_lfs.Tq.Queue.{
  Queue, Errors, Event, Objects, emit, error_sent, wait_done, send_to, send_each, first,
  can_retry_object, can_retry_object_later,
}
use git_lfs.Tq.Queue.Enqueue.{
  run, enqueue_retry, fail_call, fail_calls, prepare_object, prepare_known, prepare_relation,
  start_transfer, drop_object,
}

module _ {E : Type 0} where
  -- The calls of `Done` on the wait group.
  abbrev pub dones : List (Event E) → ℕ
  dones [] = 0
  dones (wait_done ∷ events) = dones events + 1
  dones (_ ∷ events) = dones events

  send_to-dones :
      (w : ℕ) (ts : List Transfer) (q : Queue E) → dones (send_to w ts q).events ≡ dones q.events
  unfolding send_to
  send_to-dones w [] q = refl
  send_to-dones w (t ∷ ts) q = send_to-dones w ts _

  pub send_each-dones :
      (ws : List ℕ) (ts : List Transfer) (q : Queue E)
      → dones (send_each ws ts q).events ≡ dones q.events
  unfolding send_each
  send_each-dones [] ts q = refl
  send_each-dones (w ∷ ws) ts q = send_each-dones ws ts _ ∙ send_to-dones w ts q

  module _ (errs : Errors E) where
    fail_call-settles :
        (now : ℕ) (err : E) (acc : Queue E × Batch × Bool) (t : ObjectTuple)
        → dones (fail_call errs now err acc t).0.events + length (fail_call errs now err acc t).1
          ≡ dones acc.0.events + length acc.1 + 1
    unfolding fail_call enqueue_retry
    fail_call-settles now err (q, next, flag) t =
        elim (Bool-cases (can_retry_object errs q t.oid err)) [
          | inl y ↦ rw y (omega (arith, length-append next (_ ∷ [])))
          | inr n ↦ elim (Option-cases (can_retry_object_later errs q t.oid err)) [
            | inl none_later ↦ rw n (rw none_later (omega arith))
            | inr (ready, later) ↦ rw n (rw later (omega (arith, length-append next (_ ∷ []))))
          ]
        ]

    pub fail_calls-settles :
        (now : ℕ) (err : E) (b : Batch) (acc : Queue E × Batch × Bool)
        → dones (fail_calls errs now err acc b).0.events + length (fail_calls errs now err acc b).1
          ≡ dones acc.0.events + length acc.1 + length b
    unfolding fail_calls
    fail_calls-settles now err [] acc = omega arith
    fail_calls-settles now err (t ∷ b) acc = omega (
      arith,
      fail_calls-settles now err b (fail_call errs now err acc t),
      fail_call-settles now err acc t,
    )

-- A loop in which each step succeeds, keeps an invariant and adds one to a measure.
pub run_settles :
    {S A : Type 0} (step : S → A → Option S) (m : S → ℕ) (Inv : S → Type 0) (Ok : A → Type 0)
    → ((s : S) (a : A) → Inv s → Ok a → (t : S) × (step s a ≡ some t) × Inv t × (m t ≡ m s + 1))
    → (s : S) (more : List A) → Inv s
    → All Ok more
    → (t : S) × (run step s more ≡ some t) × Inv t × (m t ≡ m s + length more)
unfolding run
run_settles step m Inv Ok each s [] i h = (s, refl, i, omega arith)
run_settles step m Inv Ok each s (a ∷ more) i h =
    let (t, stepped, j, one) = each s a i h.0 in
    let (u, ran, k, rest) = run_settles step m Inv Ok each t more j h.1 in
    (u, rw (stepped, run) ran, k, omega arith)

abbrev pub oldest_of : Option Objects → Option ObjectTuple
oldest_of none = none
oldest_of (some objs) = first objs

-- The first of the transfers that the queue remembers for an object.
unfoldable pub oldest : Dict Text Objects → Text → Option ObjectTuple
oldest transfers oid = oldest_of (Dict.lookup oid transfers)

abbrev pub IsKnown : Dict Text Objects → Text → Type 0
IsKnown transfers oid = (t : ObjectTuple) × (oldest transfers oid ≡ some t)

-- No object is remembered without a transfer.
unfoldable pub IsFilled : Dict Text Objects → Type 0
IsFilled transfers =
    (oid : Text) (objs : Objects) → Dict.lookup oid transfers ≡ some objs → first objs ≢ none

module _ {E : Type 0} (errs : Errors E) (transfers : Dict Text Objects)
    (filled : IsFilled transfers) where
  abbrev pub IsPrepared : Queue E × Batch × List Transfer → Type 0
  IsPrepared s = (s.0.transfers ≡ transfers) × All (λ t. IsKnown transfers t.oid) s.2

  abbrev pub settled : Queue E × Batch × List Transfer → ℕ
  settled s = dones s.0.events + length s.1 + length s.2

  start_transfer-settles :
      (s : Queue E × Batch × List Transfer) (t : ObjectTuple) (tr : Transfer)
      → IsKnown transfers tr.oid
      → IsPrepared s
      → IsPrepared (start_transfer errs s t tr)
        × (settled (start_transfer errs s t tr) ≡ settled s + 1)
  unfolding start_transfer
  start_transfer-settles (q, next, to_transfer) t tr k (same, known) = (
    (same, All-append _ to_transfer _ known (k, tt)),
    omega (arith, length-append to_transfer (tr ∷ [])),
  )

  prepare_relation-settles :
      (now : ℕ) (s : Queue E × Batch × List Transfer) (o : Transfer) (t : ObjectTuple)
      (tr : Transfer) (r : Relation)
      → IsKnown transfers tr.oid
      → IsPrepared s
      → IsPrepared (prepare_relation errs now s o t tr r)
        × (settled (prepare_relation errs now s o t tr r) ≡ settled s + 1)
  unfolding prepare_relation enqueue_retry
  prepare_relation-settles now s o t tr (found a) k p = start_transfer-settles s t tr k p
  prepare_relation-settles now (q, next, to_transfer) o t tr no_action k (same, known) =
      elim (Bool-cases q.is_standalone) [
        | inl y ↦ rw y (start_transfer-settles (q, next, to_transfer) t tr k (same, known))
        | inr n ↦ rw n ((same, known), omega arith)
      ]
  prepare_relation-settles now (q, next, to_transfer) o t tr (expired rel at) k (same, known) =
      elim (Bool-cases (can_retry_object errs q tr.oid (errs.action_expired rel at))) [
        | inl y ↦ rw y ((same, known), omega (arith, length-append next (_ ∷ [])))
        | inr n ↦ rw n ((same, known), omega arith)
      ]

  pub prepare_object-settles :
      (now : ℕ) (s : Queue E × Batch × List Transfer) (o : Transfer)
      → IsPrepared s
      → Unit {0}
      → (p : Queue E × Batch × List Transfer) × (prepare_object errs now s o ≡ some p)
        × IsPrepared p
        × (settled p ≡ settled s + 1)
  unfolding prepare_object prepare_known new_transfer oldest IsFilled
  prepare_object-settles now (q, next, to_transfer) o (same, known) _ =
      elim (Option-cases o.error) [
        | inr (problem, e) ↦ (
          (
            drop_object errs o (emit (error_sent (errs.object_error o.oid problem)) q),
            next,
            to_transfer,
          ),
          rw e refl,
          (same, known),
          omega arith,
        )
        | inl e ↦ elim (Option-cases (Dict.lookup o.oid q.transfers)) [
          | inl l ↦ (
            (drop_object errs o (emit (error_sent (errs.unknown_oid o.oid)) q), next, to_transfer),
            ground arith,
            (same, known),
            omega arith,
          )
          | inr (objs, l) ↦ elim (Option-cases (first objs)) [
            | inl f ↦ absurd (filled o.oid objs (ap (λ m. Dict.lookup o.oid m) (sym same) ∙ l) f)
            | inr (t, f) ↦
                let (p, one) =
                  prepare_relation-settles now (q, next, to_transfer) o t
                    (new_transfer o t.name t.path) _ (t, rw (sym same) (rw (l, oldest) f))
                    (same, known) in
                (prepare_known errs now (q, next, to_transfer) o t, ground arith, p, one)
          ]
        ]
      ]
