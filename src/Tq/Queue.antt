-- ===== src/Tq/Queue.antt =====
-- The state of the transfer queue of tq/transfer_queue.go, and the ways in. What the queue sends on
-- its channels, and the calls on its wait group, on its progress meter and on the adapter, are
-- events, the latest first. The errors are of any type `E`, with the tests and the constructors that
-- the queue uses.
pub mod Results
pub mod Enqueue
pub mod Accounting
pub mod Settling
pub mod Whole
pub mod Batches
pub mod Backoff
pub mod Adding
pub mod Delivery
pub mod Kinds
pub mod Spending
pub mod Charging
mod Tests
use git_lfs.Prelude.{
  ℕ, ◌+◌, Bool, true, false, Option, none, some, ltb, if◌then◌else◌, List, [], ◌∷◌, ◌++◌, Text,
  text_comparable, length,
}
use git_lfs.Prelude.Int.{ℤ}
use git_lfs.Prelude.Dict
use git_lfs.Prelude.Dict.{Dict}
use git_lfs.Tq.Retries.{RetryCounter}
use git_lfs.Tq.Retries
use git_lfs.Tq.Batch.{ObjectTuple, Transfer, ObjectError, to_transfer}

pub data Direction : Type 0 where
  upload download checkout : Direction

-- The tests of errors/types.go that the queue makes, and the errors that it makes.
pub record Errors (E : Type 0) : Type 0 where
  pub is_retriable : E → Bool
  -- the time, if the test holds
  pub is_retriable_later : E → Option ℕ
  pub is_unprocessable_entity : E → Bool
  pub new_retriable : E → E
  pub object_error : (oid : Text) → ObjectError → E
  pub unknown_oid : (oid : Text) → E
  pub missing_source : (oid : Text) → E
  pub action_expired : (rel : Text) → (at : ℕ) → E
  pub relation_error : (name : Text) → E → E
  pub invalid_size : (oid : Text) → ℤ → E
  pub object_missing : (name oid : Text) → E
  pub corrupt_object : (name oid : Text) → E

pub data Event (E : Type 0) : Type 0 where
  wait_added wait_done : Event E
  incoming : ObjectTuple → Event E
  error_sent : E → Event E
  watcher_sent : ℕ → Transfer → Event E
  watcher_closed : ℕ → Event E
  skipped : ℤ → Event E
  paused started : Event E
  transfer_started transfer_finished : Text → Event E
  adapter_begun adapter_ended : Event E

pub record Objects : Type 0 where
  pub completed : Bool
  pub objects : List ObjectTuple

-- `All`, `Append` and `First`
abbrev pub all_objects : Objects → List ObjectTuple
all_objects s = s.objects

abbrev pub append_object : Objects → ObjectTuple → Objects
append_object s o = record s { objects = s.objects ++ o ∷ [] }

abbrev pub first_of : List ObjectTuple → Option ObjectTuple
first_of [] = none
first_of (t ∷ ts) = some t

abbrev pub first : Objects → Option ObjectTuple
first s = first_of s.objects

pub record Queue (E : Type 0) : Type 0 where
  pub direction : Direction
  -- whether the manifest names a standalone transfer agent
  pub is_standalone : Bool
  pub dry_run : Bool
  -- the adapter's name, if there is one
  pub adapter : Option Text
  pub adapter_in_progress : Bool
  pub transfers : Dict Text Objects
  -- the channels made by `Watch`, by number
  pub watchers : List ℕ
  pub rc : RetryCounter
  pub unsupported_content_type : Bool
  pub events : List (Event E)

module _ {E : Type 0} where
  abbrev pub emit : Event E → Queue E → Queue E
  emit e q = record q { events = e ∷ q.events }

  -- The loops over the watchers, and over what each is sent. A send is an event here; whether it ever
  -- finds room in the channel is asked in Tq.Collector (`waits_for_reader`).
  unfoldable pub send_to : ℕ → List Transfer → Queue E → Queue E
  send_to w [] q = q
  send_to w (t ∷ ts) q = send_to w ts (emit (watcher_sent w t) q)

  unfoldable pub send_each : List ℕ → List Transfer → Queue E → Queue E
  unfolding send_to
  send_each [] ts q = q
  send_each (w ∷ ws) ts q = send_each ws ts (send_to w ts q)

  -- The queue, and what it now knows for the object's ID.
  unfoldable pub remember : Queue E → ObjectTuple → Queue E × Objects
  remember q t = elim (Dict.lookup t.oid q.transfers) [
    | none ↦
        let objs : Objects = record { completed = false; objects = t ∷ [] } in
        (record (emit wait_added q) { transfers = Dict.insert t.oid objs q.transfers }, objs)
    | some known ↦
        let objs : Objects = append_object known t in
        (record q { transfers = Dict.insert t.oid objs q.transfers }, objs)
  ]

  -- What `Add` does with what `remember` returns.
  unfoldable pub enqueue_new : ObjectTuple → Queue E × Objects → Queue E
  unfolding send_each
  enqueue_new t (q, objs) =
      if ltb 1 (length objs.objects)
      then if objs.completed then send_each q.watchers (to_transfer t ∷ []) q else q
      else emit (incoming t) q

  unfoldable pub add_tuple : Queue E → ObjectTuple → Queue E
  unfolding remember enqueue_new
  add_tuple q t = enqueue_new t (remember q t)

  unfoldable pub add : Queue E → (name path oid : Text) → ℤ → (missing : Bool) → Option E → Queue E
  unfolding add_tuple
  add q name path oid size missing (some err) = emit (error_sent err) q
  add q name path oid size missing none = add_tuple q (record {
    name = name;
    path = path;
    oid = oid;
    size = size;
    missing = missing;
    ready_time = 0;
  })

  -- The queue, and the number of the new channel.
  unfoldable pub watch : Queue E → Queue E × ℕ
  watch q = (record q { watchers = q.watchers ++ length q.watchers ∷ [] }, length q.watchers)

  unfoldable pub skip : ℤ → Queue E → Queue E
  skip size q = emit (skipped size) q

  module _ (errs : Errors E) where
    unfoldable pub can_retry_object : Queue E → Text → E → Bool
    can_retry_object q oid err =
        if (Retries.can_retry q.rc oid).1 then errs.is_retriable err else false

    unfoldable pub can_retry_object_later : Queue E → Text → E → Option ℕ
    can_retry_object_later q oid err =
        if (Retries.can_retry q.rc oid).1 then errs.is_retriable_later err else none
