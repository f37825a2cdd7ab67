-- ===== src/Tq/Queue/Batches.antt =====
-- `enqueueAndCollectRetriesFor` of tq/transfer_queue.go on every way that it returns.
use git_lfs.Prelude.{
  ℕ, ◌+◌, ◌≡◌, refl, false, Option, none, some, List, [], ◌∷◌, length, Text, arith, if◌then◌else◌,
}
use git_lfs.Tq.Batch.{Transfer, Batch}
use git_lfs.Tq.Queue.{Queue, Errors, Direction, upload, download, checkout, emit, paused}
use git_lfs.Tq.Queue.Enqueue.{
  World, transfer_objects, answered, lacking_source, enqueue_and_collect_retries_for, fail_calls,
  offered, respond, wants_source,
}
use git_lfs.Tq.Queue.Accounting.{dones, IsFilled, fail_calls-settles}
use git_lfs.Tq.Queue.Whole.{Answers, transfer_objects-settles}

module _ {E : Type 0} (errs : Errors E) (w : World E) where
  -- No object of an upload is wanted of which the source is missing.
  unfoldable pub HasSources : Direction → List Transfer → Type 0
  HasSources upload objects = lacking_source errs objects ≡ none
  HasSources download objects = Unit
  HasSources checkout objects = Unit

  lacking-HasSources :
      (d : Direction) (objects : List Transfer)
      → HasSources d objects
      → wants_source errs d objects ≡ none
  unfolding HasSources wants_source
  lacking-HasSources upload objects h = h
  lacking-HasSources download objects h = refl
  lacking-HasSources checkout objects h = refl

  -- How many objects there are to settle.
  abbrev pub to_settle : Option (List Transfer × Text) → Batch → ℕ
  to_settle none batch = length batch
  to_settle (some (objects, name)) batch = length objects

  answered-settles :
      (q : Queue E) (objects : List Transfer) (name : Text)
      → Answers errs w.results
      → IsFilled q.transfers
      → HasSources q.direction objects
      → (p : Queue E × Batch × Option E) × (answered errs w q objects name ≡ some p)
        × (dones p.0.events + length p.1 ≡ dones q.events + length objects)
  unfolding answered
  answered-settles q [] name answers filled sources = ((q, [], none), refl, omega arith)
  answered-settles q (o ∷ objects) name answers filled sources =
      let (p, done, total) =
        transfer_objects-settles errs q.transfers w answers q (o ∷ objects) name refl filled in
      ((p.0, p.1, none), steps p done, total)
    where
      steps :
          (p : Queue E × Batch)
          → transfer_objects errs w q (o ∷ objects) name ≡ some p
          → answered errs w q (o ∷ objects) name ≡ some (p.0, p.1, none)
      steps p done =
          rw (lacking-HasSources q.direction (o ∷ objects) sources, answered) (rw done refl)

  respond-settles :
      (q : Queue E) (batch : Batch) (offer : Option (List Transfer × Text))
      → Answers errs w.results
      → IsFilled q.transfers
      → ((objects : List Transfer) (name : Text)
          → offer ≡ some (objects, name)
          → HasSources q.direction objects)
      → (p : Queue E × Batch × Option E) × (respond errs w q batch offer ≡ some p)
        × (dones p.0.events + length p.1 ≡ dones q.events + to_settle offer batch)
  unfolding respond
  respond-settles q batch none answers filled sources =
      let (q', next, flag) = fail_calls errs w.now w.call_error (q, [], false) batch in
      (
        (q', next, if flag then some (errs.new_retriable w.call_error) else none),
        refl,
        omega (arith, fail_calls-settles errs w.now w.call_error batch (q, [], false)),
      )
  respond-settles q batch (some (objects, name)) answers filled sources =
      answered-settles q objects name answers filled (sources objects name refl)

  -- If the adapter answers each transfer with one result and for no other object, every object that
  -- the queue remembers has a transfer, and no object of an upload is wanted of which the source is
  -- missing, then a batch is processed without following a nil pointer, and the new calls of `Done`
  -- and the objects of the next batch together are as many as the objects of the server's answer,
  -- or as those of the batch if the call failed.
  pub enqueue_and_collect_retries_for-settles :
      (agent : Text) (q : Queue E) (batch : Batch)
      → Answers errs w.results
      → IsFilled q.transfers
      → ((objects : List Transfer) (name : Text)
          → offered errs w agent q batch ≡ some (objects, name)
          → HasSources q.direction objects)
      → (p : Queue E × Batch × Option E) × (enqueue_and_collect_retries_for errs w agent q batch
          ≡ some p)
        × (dones p.0.events + length p.1
            ≡ dones q.events + to_settle (offered errs w agent q batch) batch)
  unfolding enqueue_and_collect_retries_for
  enqueue_and_collect_retries_for-settles agent q batch answers filled sources =
      respond-settles (emit paused q) batch (offered errs w agent q batch) answers filled sources
