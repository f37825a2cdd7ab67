-- ===== src/Tq/Queue/Backoff.antt =====
-- When the retries of tq/transfer_queue.go are ready, and how often an object is retried.
use git_lfs.Prelude.{
  ℕ, ◌≡◌, refl, Bool, true, false, inl, inr, Bool-cases, Option-cases, List, [], ◌∷◌, Text,
  text_comparable, ◌==◌, arith, map,
}
use git_lfs.Tq.Retries.{RetryCounter, can_retry, increment}
use git_lfs.Tq.Retries.Counts.{
  IsBounded, increment-IsBounded, increment-count_for, increment-max_retries,
}
use git_lfs.Tq.Batch.{ObjectTuple, Batch}
use git_lfs.Tq.Queue.{Queue, Errors, can_retry_object, can_retry_object_later}
use git_lfs.Tq.Queue.Enqueue.{enqueue_retry, enqueue_retries, fail_call, fail_calls}

module _ {E : Type 0} (errs : Errors E) (now : ℕ) where
  -- The retries that come from the adapter's results are queued in the same way whatever times to
  -- be ready at they carry.
  pub enqueue_retries-times :
      (time : ObjectTuple → ℕ) (retries : List ObjectTuple) (acc : Queue E × Batch)
      → enqueue_retries errs now acc
          (map {A = ObjectTuple} (λ t. record t { ready_time = time t }) retries)
        ≡ enqueue_retries errs now acc retries
  unfolding enqueue_retries enqueue_retry
  enqueue_retries-times time [] acc = refl
  enqueue_retries-times time (t ∷ retries) acc = enqueue_retries-times time retries _

  fail_call-IsBounded :
      (err : E) (acc : Queue E × Batch × Bool) (t : ObjectTuple)
      → IsBounded acc.0.rc
      → IsBounded (fail_call errs now err acc t).0.rc
  unfolding fail_call enqueue_retry can_retry_object can_retry_object_later
  fail_call-IsBounded err (q, next, flag) t b = elim (Bool-cases (can_retry q.rc t.oid).1) [
    | inl y ↦ elim (Bool-cases (errs.is_retriable err)) [
      | inl r ↦ rw y (rw r (increment-IsBounded q.rc t.oid b y))
      | inr n ↦ elim (Option-cases (errs.is_retriable_later err)) [
        | inl e ↦ rw y (rw n (rw e b))
        | inr (time, e) ↦ rw y (rw n (rw e (increment-IsBounded q.rc t.oid b y)))
      ]
    ]
    | inr n ↦ rw n b
  ]

  -- A batch for which the call of the server failed leaves no object retried more often than
  -- permitted, if none was before.
  pub fail_calls-IsBounded :
      (err : E) (batch : Batch) (acc : Queue E × Batch × Bool)
      → IsBounded acc.0.rc
      → IsBounded (fail_calls errs now err acc batch).0.rc
  unfolding fail_calls
  fail_calls-IsBounded err [] acc b = b
  fail_calls-IsBounded err (t ∷ batch) acc b =
      fail_calls-IsBounded err batch (fail_call errs now err acc t)
        (fail_call-IsBounded err acc t b)

  abbrev pub oids : Batch → List Text
  oids [] = []
  oids (t ∷ ts) = t.oid ∷ oids ts

  -- Another object's counter stays.
  can_retry-other :
      (rc : RetryCounter) (oid other : Text)
      → (oid == other) ≡ false
      → (can_retry rc other).1 ≡ true
      → (can_retry (increment rc oid).0 other).1 ≡ true
  unfolding can_retry
  can_retry-other rc oid other n h =
      ground (arith, increment-count_for rc oid other, increment-max_retries rc oid)
