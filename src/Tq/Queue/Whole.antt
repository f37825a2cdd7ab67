-- ===== src/Tq/Queue/Whole.antt =====
-- A whole batch: `addToAdapter` and `enqueueAndCollectRetriesFor` of tq/transfer_queue.go settle each
-- object once.
use git_lfs.Prelude.{
  ℕ, suc, ◌+◌, ◌≡◌, refl, ap, ◌∙◌, Option, none, some, inl, inr, Bool-cases, Option-cases, List, [],
  ◌∷◌, length, length-append, All, All-append, Text, text_comparable, ◌==◌, arith,
}
use git_lfs.Prelude.Dict.{Dict}
use git_lfs.Tq.Batch.{ObjectTuple, Transfer, Batch}
use git_lfs.Tq.Queue.{
  Queue, Errors, Objects, emit, error_sent, started, Direction, upload, download, checkout,
}
use git_lfs.Tq.Queue.Results.{
  TransferResult, Stat, handle_transfer_result, source_error, partition_uploads,
  partition_transfers, make_dry_run_results,
}
use git_lfs.Tq.Queue.Enqueue.{
  World, run, enqueue_retry, enqueue_retries, add_to_adapter, transfer_or_drop,
  ensure_adapter_begun, all_results, drop_all, prepare_object, transfer_objects, use_adapter,
  finish_adapter,
}
use git_lfs.Tq.Queue.Accounting.{
  dones, run_settles, IsKnown, IsFilled, oldest, prepare_object-settles, settled, IsPrepared,
}
use git_lfs.Tq.Queue.Settling.{Remembers, answered_for, handle_transfer_result-settles}

module _ {E : Type 0} (errs : Errors E) where
  enqueue_retries-settles :
      (now : ℕ) (retries : List ObjectTuple) (acc : Queue E × Batch)
      → dones (enqueue_retries errs now acc retries).0.events
          + length (enqueue_retries errs now acc retries).1
        ≡ dones acc.0.events + length acc.1 + length retries
  unfolding enqueue_retries enqueue_retry
  enqueue_retries-settles now [] acc = omega arith
  enqueue_retries-settles now (t ∷ retries) acc = omega (
    arith,
    enqueue_retries-settles now retries (enqueue_retry errs now acc t none),
    length-append acc.1 (_ ∷ []),
  )

  drop_all-settles :
      (pending : List Transfer) (q : Queue E)
      → dones (drop_all errs pending q).events ≡ dones q.events + length pending
  unfolding drop_all
  drop_all-settles [] q = omega arith
  drop_all-settles (t ∷ pending) q = omega (arith, drop_all-settles pending _)

  module _ (transfers : Dict Text Objects) where
    abbrev AllKnown : List Transfer → Type 0
    AllKnown ts = All (λ t. IsKnown transfers t.oid) ts

    abbrev ResultsKnown : List (TransferResult E) → Type 0
    ResultsKnown rs = All (λ res. IsKnown transfers res.of.oid) rs

    abbrev Splits : List Transfer → List Transfer × List (TransferResult E) → Type 0
    Splits ts p = (length p.0 + length p.1 ≡ length ts) × AllKnown p.0 × ResultsKnown p.1

    partition_uploads-Splits :
        (stat : Text → Stat E) (ts : List Transfer)
        → AllKnown ts
        → Splits ts (partition_uploads errs stat ts)
    unfolding partition_uploads
    partition_uploads-Splits stat [] k = (omega arith, tt, tt)
    partition_uploads-Splits stat (t ∷ ts) (kt, kts) =
        let (whole, present, missing) = partition_uploads-Splits stat ts kts in
        elim (source_error errs stat t)
          as (λ e. Splits (t ∷ ts) (elim e [
            | none ↦ (t ∷ (partition_uploads errs stat ts).0, (partition_uploads errs stat ts).1)
            | some err ↦ (
              (partition_uploads errs stat ts).0,
              record { of = t; error = some err } ∷ (partition_uploads errs stat ts).1,
            )
          ])) [
            | none ↦ (omega arith, (kt, present), missing)
            | some err ↦ (omega arith, present, (kt, missing))
          ]

    partition_transfers-Splits :
        (d : Direction) (stat : Text → Stat E) (ts : List Transfer)
        → AllKnown ts
        → Splits ts (partition_transfers errs d stat ts)
    unfolding partition_transfers
    partition_transfers-Splits upload stat ts k = partition_uploads-Splits stat ts k
    partition_transfers-Splits download stat ts k = (omega arith, k, tt)
    partition_transfers-Splits checkout stat ts k = (omega arith, k, tt)

    make_dry_run_results-answers :
        (ts : List Transfer)
        → AllKnown ts
        → (length (make_dry_run_results {E = E} ts) ≡ length ts)
          × ResultsKnown (make_dry_run_results ts)
    unfolding make_dry_run_results
    make_dry_run_results-answers [] k = (refl, tt)
    make_dry_run_results-answers (t ∷ ts) (kt, kts) = (
      ap suc (make_dry_run_results-answers ts kts).0,
      (kt, (make_dry_run_results-answers ts kts).1),
    )

  -- The adapter answers each transfer with one result, and answers for no other object.
  unfoldable pub Answers : (List Transfer → List (TransferResult E)) → Type 0
  Answers results =
      (transfers : Dict Text Objects) (ts : List Transfer)
      → All (λ t. IsKnown transfers t.oid) ts
      → (length (results ts) ≡ length ts) × All (λ res. IsKnown transfers res.of.oid) (results ts)

  module _ (transfers : Dict Text Objects) (w : World E) (answers : Answers w.results) where
    run_results :
        (q : Queue E) (results : List (TransferResult E))
        → ((oid : Text) → oldest q.transfers oid ≡ oldest transfers oid)
        → ResultsKnown transfers results
        → (p : Queue E × List ObjectTuple) × (run (handle_transfer_result errs) (q, []) results
            ≡ some p)
          × (answered_for errs transfers p ≡ dones q.events + length results)
    run_results q results r k =
        let (p, ran, keeps, total) =
          run_settles (handle_transfer_result errs) (answered_for errs transfers)
            (Remembers errs transfers) (λ res. IsKnown transfers res.of.oid)
            (handle_transfer_result-settles errs transfers) (q, []) results r k in
        (p, ran, omega arith)

    all_results-answer :
        (q : Queue E) (pending : List Transfer)
        → AllKnown transfers pending
        → (length (all_results errs w q pending) ≡ length pending)
          × ResultsKnown transfers (all_results errs w q pending)
    unfolding Answers all_results
    all_results-answer q pending k =
        let (whole, present, missing) =
          partition_transfers-Splits transfers q.direction w.stat pending k in
        let split = partition_transfers errs q.direction w.stat pending in
        elim (Bool-cases q.dry_run) [
          | inl y ↦
              let (same, known) = make_dry_run_results-answers transfers split.0 present in
              rw y (
                omega (arith, length-append split.1 (make_dry_run_results split.0)),
                All-append _ split.1 _ missing known,
              )
          | inr n ↦
              let (same, known) = answers transfers split.0 present in
              rw n (
                omega (arith, length-append split.1 (w.results split.0)),
                All-append _ split.1 _ missing known,
              )
        ]

    transfer_or_drop-settles :
        (q : Queue E) (pending : List Transfer) (failure : Option E)
        → ((oid : Text) → oldest q.transfers oid ≡ oldest transfers oid)
        → AllKnown transfers pending
        → (p : Queue E × List ObjectTuple) × (transfer_or_drop errs w pending (q, failure) ≡ some p)
          × (answered_for errs transfers p ≡ dones q.events + length pending)
    unfolding transfer_or_drop
    transfer_or_drop-settles q pending none r k =
        let (whole, known) = all_results-answer q pending k in
        let (p, ran, total) = run_results q (all_results errs w q pending) r known in
        (p, ran, omega arith)
    transfer_or_drop-settles q pending (some err) r k = (
      (drop_all errs pending (emit (error_sent err) q), []),
      refl,
      omega (arith, drop_all-settles pending (emit (error_sent err) q)),
    )

    ensure_adapter_begun-keeps :
        (q : Queue E)
        → ((ensure_adapter_begun errs w q).0.transfers ≡ q.transfers)
          × (dones (ensure_adapter_begun errs w q).0.events ≡ dones q.events)
    unfolding ensure_adapter_begun
    ensure_adapter_begun-keeps q = elim (Bool-cases q.adapter_in_progress) [
      | inl y ↦ (simp y refl, simp y refl)
      | inr n ↦ elim (Option-cases w.begin_error) [
        | inl e ↦ (simp (n, e) refl, simp (n, e) refl)
        | inr (err, e) ↦ (simp (n, e) refl, simp (n, e) refl)
      ]
    ]

    use_adapter-keeps :
        (name : Text) (q : Queue E)
        → ((use_adapter errs w.adapter_for name q).transfers ≡ q.transfers)
          × (dones (use_adapter errs w.adapter_for name q).events ≡ dones q.events)
    unfolding use_adapter finish_adapter
    use_adapter-keeps name q = elim (Option-cases q.adapter) [
      | inl e ↦ (ground arith, ground arith)
      | inr (current, e) ↦ elim (Bool-cases (current == name)) [
        | inl y ↦ (ground arith, ground arith)
        | inr n ↦ elim (Bool-cases q.adapter_in_progress) [
          | inl b ↦ (ground arith, ground arith)
          | inr b ↦ (ground arith, ground arith)
        ]
      ]
    ]

    pub add_to_adapter-settles :
        (q : Queue E) (pending : List Transfer)
        → ((oid : Text) → oldest q.transfers oid ≡ oldest transfers oid)
        → AllKnown transfers pending
        → (p : Queue E × List ObjectTuple) × (add_to_adapter errs w pending q ≡ some p)
          × (answered_for errs transfers p ≡ dones q.events + length pending)
    unfolding add_to_adapter
    add_to_adapter-settles q pending r k =
        let begun = ensure_adapter_begun errs w q in
        let (same, unsettled) = ensure_adapter_begun-keeps q in
        let (p, ran, total) =
          transfer_or_drop-settles begun.0 pending begun.1
            (λ oid. ap (λ m. oldest m oid) same ∙ r oid) k in
        (p, ran, omega arith)

    pub transfer_objects_steps :
        (q : Queue E) (objects : List Transfer) (name : Text) (q₁ : Queue E) (next : Batch)
        (to_transfer : List Transfer) (q₂ : Queue E) (retries : List ObjectTuple)
        → run
            (prepare_object errs w.now)
            (emit started (use_adapter errs w.adapter_for name q), [], [])
            objects
          ≡ some (q₁, next, to_transfer)
        → add_to_adapter errs w to_transfer q₁ ≡ some (q₂, retries)
        → transfer_objects errs w q objects name
          ≡ some (enqueue_retries errs w.now (q₂, next) retries)
    unfolding transfer_objects
    transfer_objects_steps q objects name q₁ next to_transfer q₂ retries ran added =
        rw (ran, transfer_objects) (rw added refl)

    -- Before the server's objects are prepared, and after.
    pub transfer_objects-settles :
        (q : Queue E) (objects : List Transfer) (name : Text)
        → q.transfers ≡ transfers
        → IsFilled transfers
        → (p : Queue E × Batch) × (transfer_objects errs w q objects name ≡ some p)
          × (dones p.0.events + length p.1 ≡ dones q.events + length objects)
    transfer_objects-settles q objects name same filled =
        let start : Queue E = emit started (use_adapter errs w.adapter_for name q) in
        let (kept, unsettled) = use_adapter-keeps name q in
        let (p, ran, prepared, total) =
          run_settles (prepare_object errs w.now) (settled errs transfers filled)
            (IsPrepared errs transfers filled) (λ o. Unit)
            (prepare_object-settles errs transfers filled w.now) (start, [], []) objects
            (kept ∙ same, tt) (every objects) in
        let ((q', retries), added, rest) =
          add_to_adapter-settles p.0 p.2 (λ oid. ap (λ m. oldest m oid) prepared.0) prepared.1 in
        (
          enqueue_retries errs w.now (q', p.1) retries,
          transfer_objects_steps q objects name p.0 p.1 p.2 q' retries ran added,
          omega (arith, enqueue_retries-settles w.now retries (q', p.1)),
        )
      where
        every : (objects : List Transfer) → All (λ o. Unit {0}) objects
        every [] = tt
        every (o ∷ objects) = (tt, every objects)
