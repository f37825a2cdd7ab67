-- ===== src/Tq/Queue/Charging.antt =====
-- A whole batch: what `enqueueAndCollectRetriesFor` of tq/transfer_queue.go settles and costs.
use git_lfs.Prelude.{
  ◌+◌, ◌≡◌, ◌⊎◌, refl, false, Option, none, some, inl, inr, Bool-cases, ap, sym, ◌∙◌, Option-cases,
  List, [], ◌∷◌, length, Text, arith, if◌then◌else◌,
}
use git_lfs.Tq.Batch.{Batch, Transfer, to_transfers}
use git_lfs.Tq.Queue.{Queue, Errors, emit, paused}
use git_lfs.Tq.Queue.Enqueue.{
  World, answered, enqueue_and_collect_retries_for, fail_calls, offered, respond, wants_source,
  own_objects,
}
use git_lfs.Tq.Queue.Accounting.{dones, IsFilled, fail_calls-settles}
use git_lfs.Tq.Queue.Whole.{Answers, transfer_objects-settles}
use git_lfs.Tq.Queue.Spending.{Among, IsOwned, Pays, Pays-refl, Pays-trans, Pays-quiet}
use git_lfs.Tq.Queue.Spending.Retries.{fail_calls-Pays}
use git_lfs.Tq.Queue.Spending.Adapting.{transfer_objects-Pays}

-- The server answers a batch with as many objects as there are in it.
unfoldable pub IsExact : {E : Type 0} → World E → Type 0
IsExact w =
    (batch : Batch) (objects : List Transfer) (name : Text)
    → w.answer (to_transfers batch) ≡ some (objects, name)
    → length objects ≡ length batch

module _ {E : Type 0} (ks : List Text) (errs : Errors E) (w : World E) where
  -- Each object of the batch is settled or stands in the next batch, or there is an error that is
  -- not to be retried.
  abbrev pub Settles : Queue E → Batch → Queue E × Batch × Option E → Type 0
  Settles q batch p =
      (dones p.0.events + length p.1 ≡ dones q.events + length batch)
      ⊎ ((err : E) × (p.2 ≡ some err) × (errs.is_retriable err ≡ false))

  abbrev Charges : Queue E → Batch → Option (Queue E × Batch × Option E) → Type 0
  Charges q batch result =
      (p : Queue E × Batch × Option E) × (result ≡ some p)
      × Pays ks (q, []) (p.0, p.1)
      × Settles q batch p

  own_objects-length : (batch : Batch) → length (own_objects errs batch) ≡ length batch
  unfolding own_objects
  own_objects-length [] = refl
  own_objects-length (t ∷ batch) = omega (arith, own_objects-length batch)

  offered-length :
      (agent : Text) (q : Queue E) (batch : Batch) (objects : List Transfer) (name : Text)
      → IsExact w
      → offered errs w agent q batch ≡ some (objects, name)
      → length objects ≡ length batch
  unfolding offered IsExact
  offered-length agent q batch objects name exact e = elim (Bool-cases q.is_standalone) [
    | inl y ↦ ap length (sym (taken (ground arith))) ∙ own_objects-length batch
    | inr n ↦ exact batch objects name (ground arith)
  ]
    where
      taken :
          ◌≡◌ {A = Option (List Transfer × Text)}
            (some (own_objects errs batch, agent))
            (some (objects, name))
          → own_objects errs batch ≡ objects
      taken h = cc

  module _ (answers : Answers errs w.results)
      (final : (oid : Text) → errs.is_retriable (errs.missing_source oid) ≡ false) where
    answered-Charges :
        (q : Queue E) (batch : Batch) (objects : List Transfer) (name : Text)
        → length objects ≡ length batch
        → IsFilled q.transfers
        → IsOwned ks q.transfers
        → Charges q batch (answered errs w q objects name)
    unfolding answered
    answered-Charges q batch [] name whole filled owned =
        ((q, [], none), refl, Pays-refl ks (q, []), inl (omega (arith, whole)))
    answered-Charges q batch (o ∷ objects) name whole filled owned =
        elim (Option-cases (wants_source errs q.direction (o ∷ objects))) [
          | inr (oid, l) ↦ (
            (q, [], some (errs.missing_source oid)),
            rw (l, answered) refl,
            Pays-refl ks (q, []),
            inr (errs.missing_source oid, refl, final oid),
          )
          | inl l ↦
              let (p, done, total) =
                transfer_objects-settles errs q.transfers w answers q (o ∷ objects) name refl
                  filled in
              (
                (p.0, p.1, none),
                rw (l, answered) (rw done refl),
                transfer_objects-Pays ks errs w q (o ∷ objects) name p done owned,
                inl (omega (arith, total, whole)),
              )
        ]

    respond-Charges :
        (q : Queue E) (batch : Batch) (offer : Option (List Transfer × Text))
        → ((objects : List Transfer) (name : Text)
            → offer ≡ some (objects, name)
            → length objects ≡ length batch)
        → IsFilled q.transfers
        → IsOwned ks q.transfers
        → Among ks batch
        → Charges q batch (respond errs w q batch offer)
    unfolding respond
    respond-Charges q batch none whole filled owned known =
        let failed = fail_calls errs w.now w.call_error (q, [], false) batch in
        (
          (failed.0, failed.1, if failed.2 then some (errs.new_retriable w.call_error) else none),
          refl,
          fail_calls-Pays ks errs w.now w.call_error batch q [] false known,
          inl (omega (arith, fail_calls-settles errs w.now w.call_error batch (q, [], false))),
        )
    respond-Charges q batch (some (objects, name)) whole filled owned known =
        answered-Charges q batch objects name (whole objects name refl) filled owned

    -- A batch is processed without following a nil pointer; it pays for each retry; and unless it
    -- returns an error that is not to be retried, it settles or retries each of its objects.
    pub enqueue_and_collect_retries_for-Charges :
        (agent : Text) (q : Queue E) (batch : Batch)
        → IsExact w
        → IsFilled q.transfers
        → IsOwned ks q.transfers
        → Among ks batch
        → Charges q batch (enqueue_and_collect_retries_for errs w agent q batch)
    unfolding enqueue_and_collect_retries_for
    enqueue_and_collect_retries_for-Charges agent q batch exact filled owned known =
        let (p, done, pays, settles) =
          respond-Charges (emit paused q) batch (offered errs w agent q batch)
            (λ objects name e. offered-length agent q batch objects name exact e) filled owned
            known in
        (
          p,
          done,
          Pays-trans ks _ _ _ (Pays-quiet ks q (emit paused q) [] refl refl (omega arith) refl)
              pays,
          settles,
        )
