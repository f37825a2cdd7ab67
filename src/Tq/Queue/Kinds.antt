-- ===== src/Tq/Queue/Kinds.antt =====
-- The errors of errors/types.go as those of the queue of tq/transfer_queue.go, and the error that a
-- batch returns. An error that is made of a message is a plain one, and the errors for missing and
-- corrupt objects of tq/errors.go are plain ones too, since no test that the queue makes looks at them.
use git_lfs.Prelude.{
  ◌≡◌, ◌≢◌, refl, sym, ap, ◌∙◌, Bool, true, false, Option, none, some, inl, inr, Option-cases, List,
  [], ◌∷◌, ◌++◌, Text, codes, if◌then◌else◌,
}
use git_lfs.Errors.{
  Error, foreign, plain, wrapped, unprocessable_entity, new_error, new_retriable_error, is_kind,
  is_retriable_error, is_retriable_later_error, root_cause, own_kind, retriable, typed, embedded,
}
use git_lfs.Errors.Chains.{is_retriable_error-parent_of}
use git_lfs.Tq.Batch.{Transfer, Batch}
use git_lfs.Tq.Queue.{Queue, Errors, emit, paused}
use git_lfs.Tq.Queue.Enqueue.{
  World, transfer_objects, answered, wants_source, respond, offered,
  enqueue_and_collect_retries_for,
}

abbrev message : Text → Error
message text = foreign (plain text)

unfoldable pub queue_errors : Errors Error
unfolding is_retriable_error is_retriable_later_error is_kind new_retriable_error new_error
queue_errors = record {
  is_retriable = is_retriable_error;
  is_retriable_later = is_retriable_later_error;
  is_unprocessable_entity = is_kind unprocessable_entity;
  new_retriable = λ e. new_retriable_error (some e);
  object_error = λ oid e.
      new_error wrapped (some (message e.message)) (codes "[" ++ oid ++ codes "] " ++ e.message);
  unknown_oid = λ oid. message (codes "[" ++ oid ++ codes "] The server returned an unknown OID.");
  missing_source = λ oid. message (
      codes "Unable to find source for object "
      ++ oid
      ++ codes " (try running `git lfs fetch --all`)");
  action_expired =
      λ rel at. new_retriable_error (some (message (codes "action " ++ rel ++ codes " expires")));
  relation_error = λ name e. message (codes "[" ++ name ++ codes "] ");
  invalid_size = λ oid size. message (codes "object " ++ oid ++ codes " has invalid size");
  object_missing = λ name oid. message (codes "missing object: " ++ name);
  corrupt_object = λ name oid. message (codes "corrupt object: " ++ name);
}

-- Whatever a retriable error wraps, it can be retried.
pub retriable-own : (e : Error) → is_retriable_error (new_retriable_error (some e)) ≡ true
unfolding new_retriable_error new_error
retriable-own e = is_retriable_error-parent_of (typed retriable (embedded e []))

-- Why a batch returns an error: the call failed, which can be tried again, or a source is missing,
-- which cannot.
pub data Failure (w : World Error) (q : Queue Error) (offer : Option (List Transfer × Text))
    (e : Error) : Type 0 where
  call_failed : offer ≡ none → is_retriable_error e ≡ true → Failure w q offer e
  source_missing :
      (objects : List Transfer) (name oid : Text)
      → offer ≡ some (objects, name)
      → wants_source queue_errors q.direction objects ≡ some oid
      → is_retriable_error e ≡ false
      → Failure w q offer e

some_injective : {a b : Queue Error × Batch × Option Error} → some a ≡ some b → a ≡ b
some_injective h = cc

failed_call_error :
    (flag : Bool) (call e : Error)
    → (if flag then some (queue_errors.new_retriable call) else none) ≡ some e
    → is_retriable_error e ≡ true
unfolding queue_errors
failed_call_error true call e h = ap is_retriable_error (sym (same h)) ∙ retriable-own call
  where
    same : some (new_retriable_error (some call)) ≡ some e → new_retriable_error (some call) ≡ e
    same h = cc
failed_call_error false call e h = cc

module _ (w : World Error) (q : Queue Error) (o : Transfer) (objects : List Transfer)
    (name : Text) where
  answered_missing :
      (oid : Text)
      → wants_source queue_errors q.direction (o ∷ objects) ≡ some oid
      → answered queue_errors w q (o ∷ objects) name
        ≡ some (q, [], some (queue_errors.missing_source oid))
  unfolding answered
  answered_missing oid s = rw (s, answered) refl

  answered_crash :
      wants_source queue_errors q.direction (o ∷ objects) ≡ none
      → transfer_objects queue_errors w q (o ∷ objects) name ≡ none
      → answered queue_errors w q (o ∷ objects) name ≡ none
  unfolding answered
  answered_crash s t = rw (s, answered) (rw t refl)

  answered_done :
      (r : Queue Error × Batch)
      → wants_source queue_errors q.direction (o ∷ objects) ≡ none
      → transfer_objects queue_errors w q (o ∷ objects) name ≡ some r
      → answered queue_errors w q (o ∷ objects) name ≡ some (r.0, r.1, none)
  unfolding answered
  answered_done r s t = rw (s, answered) (rw t refl)

missing_source-retriable :
    (oid : Text) (e : Error)
    → some (queue_errors.missing_source oid) ≡ some e
    → is_retriable_error e ≡ false
unfolding queue_errors is_retriable_error is_kind root_cause git_lfs.Errors.seek
missing_source-retriable oid e h = ap is_retriable_error (sym (same h))
  where
    same : some (queue_errors.missing_source oid) ≡ some e → queue_errors.missing_source oid ≡ e
    same h = cc

answered_error :
    (w : World Error) (q : Queue Error) (objects : List Transfer) (name : Text)
    (p : Queue Error × Batch × Option Error) (e : Error)
    → answered queue_errors w q objects name ≡ some p
    → p.2 ≡ some e
    → Failure w q (some (objects, name)) e
unfolding answered
answered_error w q [] name p e h k = absurd (nothing (ap (λ r. r.2) (some_injective h) ∙ k))
  where
    nothing : none ≢ some e
    nothing h = cc
answered_error w q (o ∷ objects) name p e h k =
    elim (Option-cases (wants_source queue_errors q.direction (o ∷ objects))) [
      | inr (oid, s) ↦
          let same = some_injective (sym (answered_missing w q o objects name oid s) ∙ h) in
          source_missing (o ∷ objects) name oid refl s
            (missing_source-retriable oid e (ap (λ r. r.2) same ∙ k))
      | inl s ↦ elim (Option-cases (transfer_objects queue_errors w q (o ∷ objects) name)) [
        | inl t ↦ absurd (no_result (sym (answered_crash w q o objects name s t) ∙ h))
        | inr (r, t) ↦
            let same = some_injective (sym (answered_done w q o objects name r s t) ∙ h) in
            absurd (nothing (ap (λ r. r.2) same ∙ k))
      ]
    ]
  where
    nothing : none ≢ some e
    nothing h = cc

    no_result : none ≢ some p
    no_result h = cc

respond_error :
    (w : World Error) (q : Queue Error) (batch : Batch) (offer : Option (List Transfer × Text))
    (p : Queue Error × Batch × Option Error) (e : Error)
    → respond queue_errors w q batch offer ≡ some p
    → p.2 ≡ some e
    → Failure w q offer e
unfolding respond
respond_error w q batch none p e h k =
    call_failed refl (failed_call_error _ w.call_error e (ap (λ r. r.2) (some_injective h) ∙ k))
respond_error w q batch (some (objects, name)) p e h k = answered_error w q objects name p e h k

-- With the tests and the wrapping of errors/types.go, a batch returns an error only if the call of
-- the server failed, and then one that can be retried, or if the source of an object of an upload
-- is missing, and then one that cannot.
pub enqueue_and_collect_retries_for-Failure :
    (w : World Error) (agent : Text) (q : Queue Error) (batch : Batch)
    (p : Queue Error × Batch × Option Error) (e : Error)
    → enqueue_and_collect_retries_for queue_errors w agent q batch ≡ some p
    → p.2 ≡ some e
    → Failure w q (offered queue_errors w agent q batch) e
unfolding enqueue_and_collect_retries_for
enqueue_and_collect_retries_for-Failure w agent q batch p e h k =
    same_queue
      (respond_error w (emit paused q) batch (offered queue_errors w agent q batch) p e h k)
  where
    same_queue :
        Failure w (emit paused q) (offered queue_errors w agent q batch) e
        → Failure w q (offered queue_errors w agent q batch) e
    same_queue (call_failed a b) = call_failed a b
    same_queue (source_missing objects name oid a b c) = source_missing objects name oid a b c
