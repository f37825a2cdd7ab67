-- ===== src/Tq/Queue/Results.antt =====
-- `handleTransferResult` and its callers in tq/transfer_queue.go. The channel of retries is a list;
-- `none` is a nil pointer that is followed. The objects are values: a retry's time is set in the
-- retry alone, since nothing reads the time of the queue's own copy.
use git_lfs.Prelude.{
  ℕ, true, false, Option, none, some, if◌then◌else◌, List, [], ◌∷◌, ◌++◌, Text, text_comparable,
  ◌==◌, map,
}
use git_lfs.Prelude.Int.{ℤ, pos, negsuc, int_comparable}
use git_lfs.Prelude.Dict
use git_lfs.Tq.Batch.{ObjectTuple, Transfer, transfer}
use git_lfs.Tq.Queue.{
  Queue, Errors, emit, error_sent, wait_done, transfer_finished, send_each, first, can_retry_object,
  can_retry_object_later, Direction, upload, download, checkout,
}

pub record TransferResult (E : Type 0) : Type 0 where
  pub of : Transfer
  pub error : Option E

-- What `os.Stat` finds at a path.
pub data Stat (E : Type 0) : Type 0 where
  not_exist : Stat E
  failed : E → Stat E
  file_size : ℤ → Stat E

-- The transfers of a message to a watcher.
unfoldable pub update : ObjectTuple → Transfer
unfolding transfer
update t = transfer t.name t.path t.oid t.size false

module _ {E : Type 0} (errs : Errors E) where
  -- The two branches that retry: the retries, or the error if the object is not known.
  unfoldable pub send_retry :
      (ready : Option ℕ)
      → Text
      → E
      → Queue E × List ObjectTuple
      → Option (Queue E × List ObjectTuple)
  send_retry ready oid err (q, retries) = elim (Dict.lookup oid q.transfers) [
    | none ↦ some (emit (error_sent err) q, retries)
    | some objs ↦ elim (first objs) [
      | none ↦ none
      | some t ↦ elim ready [
        | none ↦ some (q, retries ++ t ∷ [])
        | some time ↦ some (q, retries ++ record t { ready_time = time } ∷ [])
      ]
    ]
  ]

  unfoldable pub give_up : E → Queue E → Queue E
  give_up err q = emit wait_done (
      if errs.is_unprocessable_entity err
      then record q { unsupported_content_type = true }
      else emit (error_sent err) q)

  unfoldable pub succeed : Transfer → Queue E → Option (Queue E)
  succeed t q = elim (Dict.lookup t.oid q.transfers) [
    | none ↦ none
    | some objs ↦
        let q' : Queue E = record q {
          transfers = Dict.insert t.oid (record objs { completed = true }) q.transfers;
        } in
        some (
          emit wait_done
            (emit (transfer_finished t.name) (send_each q.watchers (map update objs.objects) q')))
  ]

  unfoldable pub handle_transfer_result :
      Queue E × List ObjectTuple → TransferResult E → Option (Queue E × List ObjectTuple)
  unfolding send_retry give_up succeed update
  handle_transfer_result (q, retries) res = elim res.error [
    | none ↦ elim (succeed res.of q) [ none ↦ none | some q' ↦ some (q', retries) ]
    | some err ↦ elim (can_retry_object_later errs q res.of.oid err) [
      | some time ↦ send_retry (some time) res.of.oid err (q, retries)
      | none ↦
          if can_retry_object errs q res.of.oid err
          then send_retry none res.of.oid err (q, retries)
          else some (give_up err q, retries)
    ]
  ]

  -- The error of one transfer of `partitionTransfers`.
  unfoldable pub source_error : (Text → Stat E) → Transfer → Option E
  source_error stat t = elim t.size [
    | negsuc n ↦ some (errs.invalid_size t.oid (negsuc n))
    | pos n ↦ elim (stat t.path) [
      | not_exist ↦ some (errs.object_missing t.name t.oid)
      | failed err ↦ some err
      | file_size size ↦ if pos n == size then none else some (errs.corrupt_object t.name t.oid)
    ]
  ]

  unfoldable pub partition_uploads :
      (Text → Stat E) → List Transfer → List Transfer × List (TransferResult E)
  unfolding source_error
  partition_uploads stat [] = ([], [])
  partition_uploads stat (t ∷ ts) =
      let (present, results) = partition_uploads stat ts in
      elim (source_error stat t) [
        | none ↦ (t ∷ present, results)
        | some err ↦ (present, record { of = t; error = some err } ∷ results)
      ]

  unfoldable pub partition_transfers :
      Direction → (Text → Stat E) → List Transfer → List Transfer × List (TransferResult E)
  unfolding partition_uploads
  partition_transfers upload stat ts = partition_uploads stat ts
  partition_transfers download stat ts = (ts, [])
  partition_transfers checkout stat ts = (ts, [])

unfoldable pub make_dry_run_results : {E : Type 0} → List Transfer → List (TransferResult E)
make_dry_run_results ts = map (λ t. record { of = t; error = none }) ts
