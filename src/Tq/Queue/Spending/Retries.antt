-- ===== src/Tq/Queue/Spending/Retries.antt =====
-- What the retries that tq/transfer_queue.go queues cost.
use git_lfs.Prelude.{
  ℕ, ◌<◌, ◌≡◌, refl, Bool, true, Option, none, some, inl, inr, Bool-cases, Option-cases, List, [],
  ◌∷◌, length-append, All-append, Text, text_comparable, same_text_iff, arith, elem,
}
use git_lfs.Tq.Retries.{RetryCounter, count_for, can_retry}
use git_lfs.Tq.Retries.Counts.{increment-count_for, increment-max_retries}
use git_lfs.Tq.Batch.{ObjectTuple, Batch}
use git_lfs.Tq.Queue.{Queue, Errors, can_retry_object, can_retry_object_later}
use git_lfs.Tq.Queue.Enqueue.{enqueue_retry, enqueue_retries, fail_call, fail_calls}
use git_lfs.Tq.Queue.Spending.{
  Among, Permitted, Keeps, Pays, Keeps-refl, Keeps-trans, Pays-refl, Pays-trans, Pays-quiet,
}

module _ {E : Type 0} (ks : List Text) where
  module _ (errs : Errors E) (now : ℕ) where
    pub enqueue_retry-Keeps :
        (a : Queue E × Batch) (t : ObjectTuple) (ready : Option ℕ)
        → elem t.oid ks ≡ true
        → Keeps ks a (enqueue_retry errs now a t ready)
    unfolding enqueue_retry
    enqueue_retry-Keeps (q, b) t ready known = record {
      same_max = increment-max_retries q.rc t.oid;
      counts = λ k. ground (arith, increment-count_for q.rc t.oid k, same_text_iff t.oid k);
      settled = omega arith;
      waited = refl;
      same_oldest = λ k. refl;
      filled = λ f. f;
      longer = omega (arith, length-append b (_ ∷ []));
      among = λ h. All-append _ b _ h (known, tt);
    }

    increments :
        (a : Queue E × Batch) (t : ObjectTuple) (ready : Option ℕ)
        → count_for a.0.rc t.oid < count_for (enqueue_retry errs now a t ready).0.rc t.oid
    unfolding enqueue_retry
    increments (q, b) t ready =
        ground (arith, increment-count_for q.rc t.oid t.oid, same_text_iff t.oid t.oid)

    left_lem :
        (rc : RetryCounter) (oid : Text)
        → (can_retry rc oid).1 ≡ true
        → count_for rc oid < rc.max_retries
    unfolding can_retry
    left_lem rc oid h = ground arith

    -- A retry that the counter permits.
    pub enqueue_retry-Pays :
        (a : Queue E × Batch) (t : ObjectTuple) (ready : Option ℕ)
        → elem t.oid ks ≡ true
        → (can_retry a.0.rc t.oid).1 ≡ true
        → Pays ks a (enqueue_retry errs now a t ready)
    enqueue_retry-Pays a t ready known h = record {
      keeps = enqueue_retry-Keeps a t ready known;
      spends = λ l. (t.oid, known, left_lem a.0.rc t.oid h, increments a t ready);
    }

    enqueue_retries-Keeps :
        (a : Queue E × Batch) (retries : List ObjectTuple)
        → Among ks retries
        → Keeps ks a (enqueue_retries errs now a retries)
    unfolding enqueue_retries
    enqueue_retries-Keeps a [] h = Keeps-refl ks a
    enqueue_retries-Keeps a (t ∷ retries) (known, h) =
        Keeps-trans ks _ _ _ (enqueue_retry-Keeps a t none known)
          (enqueue_retries-Keeps (enqueue_retry errs now a t none) retries h)

    -- Retries that were permitted before any was queued; the first of them is paid for.
    pub enqueue_retries-Pays :
        (a : Queue E × Batch) (retries : List ObjectTuple)
        → Among ks retries
        → Permitted a.0.rc retries
        → Pays ks a (enqueue_retries errs now a retries)
    unfolding enqueue_retries
    enqueue_retries-Pays a [] h p = Pays-refl ks a
    enqueue_retries-Pays a (t ∷ retries) (known, h) (first_permitted, _) =
        let rest = enqueue_retries-Keeps (enqueue_retry errs now a t none) retries h in
        record {
          keeps = Keeps-trans ks _ _ _ (enqueue_retry-Keeps a t none known) rest;
          spends = λ l. (
            t.oid,
            known,
            left_lem a.0.rc t.oid first_permitted,
            omega (arith, increments a t none, rest.counts t.oid),
          );
        }

    pub can_retry_object-permitted :
        (q : Queue E) (oid : Text) (err : E)
        → can_retry_object errs q oid err ≡ true
        → (can_retry q.rc oid).1 ≡ true
    unfolding can_retry_object
    can_retry_object-permitted q oid err h = ground arith

    pub can_retry_object_later-permitted :
        (q : Queue E) (oid : Text) (err : E) (time : ℕ)
        → can_retry_object_later errs q oid err ≡ some time
        → (can_retry q.rc oid).1 ≡ true
    unfolding can_retry_object_later
    can_retry_object_later-permitted q oid err time h = elim (Bool-cases (can_retry q.rc oid).1) [
      | inl y ↦ y
      | inr n ↦ absurd (ground arith)
    ]

    fail_call-Pays :
        (err : E) (q : Queue E) (next : Batch) (flag : Bool) (t : ObjectTuple)
        → elem t.oid ks ≡ true
        → Pays ks
            (q, next)
            (
              (fail_call errs now err (q, next, flag) t).0,
              (fail_call errs now err (q, next, flag) t).1,
            )
    unfolding fail_call
    fail_call-Pays err q next flag t known = elim (Bool-cases (can_retry_object errs q t.oid err)) [
      | inl y ↦
          rw y
            (enqueue_retry-Pays (q, next) t none known (can_retry_object-permitted q t.oid err y))
      | inr n ↦ elim (Option-cases (can_retry_object_later errs q t.oid err)) [
        | inl l ↦ rw n (rw l (Pays-quiet ks q _ next refl refl (omega arith) refl))
        | inr (time, l) ↦ rw n (
            rw l (
              enqueue_retry-Pays (q, next) t (some time) known
                (can_retry_object_later-permitted q t.oid err time l)))
      ]
    ]

    pub fail_calls-Pays :
        (err : E) (batch : Batch) (q : Queue E) (next : Batch) (flag : Bool)
        → Among ks batch
        → Pays ks
            (q, next)
            (
              (fail_calls errs now err (q, next, flag) batch).0,
              (fail_calls errs now err (q, next, flag) batch).1,
            )
    unfolding fail_calls
    fail_calls-Pays err [] q next flag h = Pays-refl ks (q, next)
    fail_calls-Pays err (t ∷ batch) q next flag (known, h) =
        let one = fail_call errs now err (q, next, flag) t in
        Pays-trans ks _ _ _ (fail_call-Pays err q next flag t known)
          (fail_calls-Pays err batch one.0 one.1 one.2 h)
