-- ===== src/Tq/Queue/Enqueue.antt =====
-- `enqueueAndCollectRetriesFor` of tq/transfer_queue.go, with the functions that it calls. What the
-- server, the adapter and the file system answer are arguments. The results of the adapter are all
-- handled before the retries are taken from their channel, whose buffer has room for them; one
-- reading of the clock serves the whole call.
use git_lfs.Prelude.{
  ℕ, Bool, true, false, ◌&&◌, Option, none, some, if◌then◌else◌, List, [], ◌∷◌, ◌++◌, Text,
  text_comparable, ◌==◌, codes,
}
use git_lfs.Prelude.Dict
use git_lfs.Prelude.Dict.{Dict}
use git_lfs.Tq.Retries
use git_lfs.Tq.Batch.{ObjectTuple, Action, Transfer, Batch, transfer, to_transfers}
use git_lfs.Tq.Relations.{Relation, no_action, found, expired, relation, new_transfer}
use git_lfs.Tq.Queue.{
  Queue, Errors, emit, error_sent, wait_done, skipped, transfer_started, paused, started,
  adapter_begun, adapter_ended, first, can_retry_object, can_retry_object_later, Direction, upload,
  download, checkout,
}
use git_lfs.Tq.Queue.Results.{
  TransferResult, Stat, handle_transfer_result, partition_transfers, make_dry_run_results,
}

-- `Direction.String`
abbrev pub direction_name : Direction → Text
direction_name upload = codes "upload"
direction_name download = codes "download"
direction_name checkout = codes "checkout"

-- What the server, the adapter and the file system answer to one batch.
pub record World (E : Type 0) : Type 0 where
  pub now : ℕ
  -- the objects and the adapter's name, or the error of the call
  pub answer : List Transfer → Option (List Transfer × Text)
  pub call_error : E
  -- the name of the adapter that the manifest makes for a name
  pub adapter_for : Text → Text
  pub begin_error : Option E
  pub results : List Transfer → List (TransferResult E)
  pub stat : Text → Stat E

-- The steps of a loop, until one follows a nil pointer.
unfoldable pub run {ℓ κ} : {S : Type ℓ} {A : Type κ} → (S → A → Option S) → S → List A → Option S
run step s [] = some s
run step s (a ∷ more) = elim (step s a) [ none ↦ none | some t ↦ run step t more ]

module _ {E : Type 0} (errs : Errors E) where
  unfoldable pub enqueue_retry :
      ℕ → Queue E × Batch → ObjectTuple → (ready : Option ℕ) → Queue E × Batch
  enqueue_retry now (q, next) t ready =
      let rc = (Retries.increment q.rc t.oid).0 in
      let time : ℕ = elim ready [ none ↦ Retries.ready_time now rc t.oid | some r ↦ r ] in
      (record q { rc = rc }, next ++ record t { ready_time = time } ∷ [])

  -- One object of a batch for which the call of the server failed; the flag is
  -- `hasNonScheduledErrors`.
  unfoldable pub fail_call : ℕ → E → Queue E × Batch × Bool → ObjectTuple → Queue E × Batch × Bool
  unfolding enqueue_retry
  fail_call now err (q, next, flag) t =
      if can_retry_object errs q t.oid err
      then (let (q', next') = enqueue_retry now (q, next) t none in (q', next', true))
      else elim (can_retry_object_later errs q t.oid err) [
        | none ↦ (emit wait_done q, next, true)
        | some ready ↦
            let (q', next') = enqueue_retry now (q, next) t (some ready) in (q', next', flag)
      ]

  unfoldable pub fail_calls : ℕ → E → Queue E × Batch × Bool → Batch → Queue E × Batch × Bool
  unfolding fail_call
  fail_calls now err acc [] = acc
  fail_calls now err acc (t ∷ b) = fail_calls now err (fail_call now err acc t) b

  -- The objects of a standalone agent, as if a server had answered.
  unfoldable pub own_objects : Batch → List Transfer
  own_objects [] = []
  own_objects (t ∷ b) = transfer [] t.path t.oid t.size t.missing ∷ own_objects b

  -- The first object without a source for which the server wants an action.
  unfoldable pub lacking_source : List Transfer → Option Text
  lacking_source [] = none
  lacking_source (o ∷ objects) =
      let rest = lacking_source objects in
      if o.missing && has_actions o.actions then some o.oid else rest
    where
      has_actions : Dict Text Action → Bool
      has_actions [] = false
      has_actions (a ∷ actions) = true

  unfoldable pub wants_source : Direction → List Transfer → Option Text
  unfolding lacking_source
  wants_source upload objects = lacking_source objects
  wants_source download objects = none
  wants_source checkout objects = none

  unfoldable pub finish_adapter : Queue E → Queue E
  finish_adapter q =
      if q.adapter_in_progress
      then record (emit adapter_ended q) { adapter_in_progress = false; adapter = none }
      else q

  unfoldable pub use_adapter : (Text → Text) → Text → Queue E → Queue E
  unfolding finish_adapter
  use_adapter adapter_for name q = elim q.adapter [
    | none ↦ record q { adapter = some (adapter_for name) }
    | some current ↦
        if current == name
        then q
        else record (finish_adapter q) { adapter = some (adapter_for name) }
  ]

  abbrev pub Pass : Type 0
  Pass = Queue E × Batch × List Transfer

  -- An object of the answer that is given up: the bytes skipped, and the object waited for no more.
  abbrev pub drop_object : Transfer → Queue E → Queue E
  drop_object o q = record q { events = wait_done ∷ skipped o.size ∷ q.events }

  unfoldable pub start_transfer : Pass → ObjectTuple → Transfer → Pass
  start_transfer (q, next, to_transfer) t tr =
      (emit (transfer_started t.name) q, next, to_transfer ++ tr ∷ [])

  -- An object of the answer that the queue knows, with the first of the transfers for it, by what
  -- `Rel` returns for the new transfer.
  unfoldable pub prepare_relation : ℕ → Pass → Transfer → ObjectTuple → Transfer → Relation → Pass
  unfolding enqueue_retry start_transfer
  prepare_relation now s o t tr (found a) = start_transfer s t tr
  prepare_relation now (q, next, to_transfer) o t tr no_action =
      if q.is_standalone
      then start_transfer (q, next, to_transfer) t tr
      else (drop_object o q, next, to_transfer)
  prepare_relation now (q, next, to_transfer) o t tr (expired rel at) =
      let err = errs.action_expired rel at in
      if can_retry_object errs q tr.oid err
      then (let (q', next') = enqueue_retry now (q, next) t none in (q', next', to_transfer))
      else (
        drop_object o (emit (error_sent (errs.relation_error tr.name err)) q),
        next,
        to_transfer,
      )

  unfoldable pub prepare_known : ℕ → Pass → Transfer → ObjectTuple → Pass
  unfolding prepare_relation
  prepare_known now (q, next, to_transfer) o t =
      let tr = new_transfer o t.name t.path in
      prepare_relation now (q, next, to_transfer) o t tr
        (relation now tr (direction_name q.direction))

  unfoldable pub prepare_object : ℕ → Pass → Transfer → Option Pass
  unfolding prepare_known
  prepare_object now (q, next, to_transfer) o = elim o.error [
    | some problem ↦
        some
          (drop_object o (emit (error_sent (errs.object_error o.oid problem)) q), next, to_transfer)
    | none ↦ elim (Dict.lookup o.oid q.transfers) [
      | none ↦
          some (drop_object o (emit (error_sent (errs.unknown_oid o.oid)) q), next, to_transfer)
      | some objs ↦ elim (first objs) [
        | none ↦ none
        | some t ↦ some (prepare_known now (q, next, to_transfer) o t)
      ]
    ]
  ]

  unfoldable pub drop_all : List Transfer → Queue E → Queue E
  drop_all [] q = q
  drop_all (t ∷ pending) q = drop_all pending (drop_object t q)

  unfoldable pub ensure_adapter_begun : World E → Queue E → Queue E × Option E
  ensure_adapter_begun w q = if q.adapter_in_progress then (q, none) else elim w.begin_error [
    | some err ↦ (q, some err)
    | none ↦ (record (emit adapter_begun q) { adapter_in_progress = true }, none)
  ]

  -- The results for missing and wrong sources, and then the adapter's.
  unfoldable pub all_results : World E → Queue E → List Transfer → List (TransferResult E)
  all_results w q pending =
      let (present, missing_results) = partition_transfers errs q.direction w.stat pending in
      missing_results ++ (if q.dry_run then make_dry_run_results present else w.results present)

  -- What follows `ensureAdapterBegun` in `addToAdapter`: the queue, and the retries.
  unfoldable pub transfer_or_drop :
      World E → List Transfer → Queue E × Option E → Option (Queue E × List ObjectTuple)
  unfolding drop_all all_results
  transfer_or_drop w pending (q, some err) = some (drop_all pending (emit (error_sent err) q), [])
  transfer_or_drop w pending (q, none) =
      run (handle_transfer_result errs) (q, []) (all_results w q pending)

  unfoldable pub add_to_adapter :
      World E → List Transfer → Queue E → Option (Queue E × List ObjectTuple)
  unfolding transfer_or_drop ensure_adapter_begun
  add_to_adapter w pending q = transfer_or_drop w pending (ensure_adapter_begun w q)

  unfoldable pub enqueue_retries : ℕ → Queue E × Batch → List ObjectTuple → Queue E × Batch
  unfolding enqueue_retry
  enqueue_retries now acc [] = acc
  enqueue_retries now acc (t ∷ retries) = enqueue_retries now (enqueue_retry now acc t none) retries

  -- What follows the server's answer.
  unfoldable pub transfer_objects :
      World E → Queue E → List Transfer → Text → Option (Queue E × Batch)
  unfolding prepare_object add_to_adapter enqueue_retries use_adapter
  transfer_objects w q objects name =
      let q' : Queue E = emit started (use_adapter w.adapter_for name q) in
      elim (run (prepare_object w.now) (q', [], []) objects) [
        | none ↦ none
        | some (q, next, to_transfer) ↦ elim (add_to_adapter w to_transfer q) [
          | none ↦ none
          | some (q, retries) ↦ some (enqueue_retries w.now (q, next) retries)
        ]
      ]

  unfoldable pub answered :
      World E → Queue E → List Transfer → Text → Option (Queue E × Batch × Option E)
  unfolding transfer_objects wants_source
  answered w q [] name = some (q, [], none)
  answered w q (o ∷ objects) name = elim (wants_source q.direction (o ∷ objects)) [
    | some oid ↦ some (q, [], some (errs.missing_source oid))
    | none ↦ elim (transfer_objects w q (o ∷ objects) name) [
      | none ↦ none
      | some (q', next) ↦ some (q', next, none)
    ]
  ]

  -- What the standalone agent or the server offers for a batch; nothing if the call fails.
  unfoldable pub offered :
      World E → (standalone_agent : Text) → Queue E → Batch → Option (List Transfer × Text)
  unfolding own_objects
  offered w agent q batch =
      if q.is_standalone then some (own_objects batch, agent) else w.answer (to_transfers batch)

  unfoldable pub respond :
      World E
      → Queue E
      → Batch
      → Option (List Transfer × Text)
      → Option (Queue E × Batch × Option E)
  unfolding fail_calls answered
  respond w q batch (some (objects, name)) = answered w q objects name
  respond w q batch none =
      let (q', next, flag) = fail_calls w.now w.call_error (q, [], false) batch in
      some (q', next, if flag then some (errs.new_retriable w.call_error) else none)

  unfoldable pub enqueue_and_collect_retries_for :
      World E → (standalone_agent : Text) → Queue E → Batch → Option (Queue E × Batch × Option E)
  unfolding respond offered
  enqueue_and_collect_retries_for w agent q batch =
      respond w (emit paused q) batch (offered w agent q batch)
