-- ===== src/Tq/Queue/Tests.antt =====
-- The queue of tq/transfer_queue.go at concrete batches.
use git_lfs.Prelude.{
  ℕ, ◌+◌, ◌≡◌, ◌≢◌, refl, true, false, Option, none, some, List, [], ◌∷◌, ◌++◌, Text, codes,
  text_comparable, ◌==◌, map, length, elem, Uniq, if◌then◌else◌, arith, number_comparable,
}
use git_lfs.Prelude.Int.{pos}
use git_lfs.Prelude.Dict
use git_lfs.Tq.Retries.{can_retry, count_for}
use git_lfs.Tq.Retries.Counts.{IsBounded}
use git_lfs.Tq.Batch.{ObjectTuple, Transfer, Batch}
use git_lfs.Tq.Queue.{
  Queue, Errors, Objects, Direction, upload, download, checkout, wait_done, paused,
  can_retry_object, can_retry_object_later, add, watch,
}
use git_lfs.Tq.Queue.Results.{TransferResult, file_size, update, handle_transfer_result}
use git_lfs.Tq.Queue.Enqueue.{
  World, enqueue_and_collect_retries_for, offered, enqueue_retries, fail_calls,
}
use git_lfs.Tq.Queue.Accounting.{dones, IsKnown}
use git_lfs.Tq.Queue.Whole.{Answers}
use git_lfs.Tq.Queue.Batches.{HasSources, to_settle, enqueue_and_collect_retries_for-settles}
use git_lfs.Tq.Queue.Backoff.{enqueue_retries-times, fail_calls-IsBounded}
use git_lfs.Tq.Queue.Adding.{Addition, IsTidy, add_all, add_all-IsTidy}
use git_lfs.Errors.{Error, foreign, plain, new_retriable_error}
use git_lfs.Tq.Queue.Kinds.{queue_errors, Failure, enqueue_and_collect_retries_for-Failure}
use git_lfs.Tq.Queue.Delivery.{sent_to, handle_transfer_result-delivers}

data Fault : Type 0 where
  network : Fault
  busy : ℕ → Fault
  refusal : Fault

abbrev faults : Errors Fault
faults = record {
  is_retriable = λ e. elim e [ network ↦ true | busy _ ↦ false | refusal ↦ false ];
  is_retriable_later = λ e. elim e [ network ↦ none | busy t ↦ some t | refusal ↦ none ];
  is_unprocessable_entity = λ e. false;
  new_retriable = λ e. network;
  object_error = λ oid e. refusal;
  unknown_oid = λ oid. refusal;
  missing_source = λ oid. refusal;
  action_expired = λ rel at. network;
  relation_error = λ name e. e;
  invalid_size = λ oid size. refusal;
  object_missing = λ name oid. refusal;
  corrupt_object = λ name oid. refusal;
}

abbrev idle : Queue Fault
idle = record {
  direction = download;
  is_standalone = true;
  dry_run = false;
  adapter = none;
  adapter_in_progress = false;
  transfers = [];
  watchers = 0 ∷ [];
  rc = record { max_retries = 8; max_retry_delay = 10; count = [] };
  unsupported_content_type = false;
  events = [];
}

idle-IsTidy : IsTidy idle
unfolding git_lfs.Tq.Queue.Accounting.IsFilled Dict.lookup
idle-IsTidy = record {
  distinct = tt;
  sent = refl;
  waited_for = refl;
  filled = λ oid objs l e. idle_lem objs l;
}
  where
    idle_lem : (objs : Objects) → none ≢ some objs
    idle_lem objs l = cc

abbrev addition : Text → Text → Addition Fault
addition name oid = record {
  name = name;
  path = name;
  oid = oid;
  size = pos 4;
  missing = false;
  error = none;
}

abbrev additions : List (Addition Fault)
additions =
    addition (codes "x") (codes "a")
    ∷ addition (codes "y") (codes "b")
    ∷ addition (codes "z") (codes "a")
    ∷ []

abbrev busy_queue : Queue Fault
busy_queue = add_all idle additions

add_all-IsTidy_example : IsTidy (add_all idle additions)
add_all-IsTidy_example = add_all-IsTidy idle additions idle-IsTidy

abbrev tuple : Text → Text → ObjectTuple
tuple name oid = record {
  name = name;
  path = name;
  oid = oid;
  size = pos 4;
  missing = false;
  ready_time = 0;
}

abbrev batch : Batch
batch = tuple (codes "x") (codes "a") ∷ tuple (codes "y") (codes "b") ∷ []

-- An adapter that fails each transfer in a way that can be retried.
abbrev failing : List Transfer → List (TransferResult Fault)
failing [] = []
failing (t ∷ ts) = record { of = t; error = some (busy 77) } ∷ failing ts

failing-Answers : Answers faults failing
unfolding Answers
failing-Answers transfers [] k = (refl, tt)
failing-Answers transfers (t ∷ ts) (kt, kts) =
    let (same, known) = failing-Answers transfers ts kts in (omega arith, (kt, known))

abbrev world : World Fault
world = record {
  now = 1000;
  answer = λ ts. none;
  call_error = network;
  adapter_for = λ name. name;
  begin_error = none;
  results = failing;
  stat = λ path. file_size (pos 4);
}

busy_direction : busy_queue.direction ≡ download
unfolding add git_lfs.Tq.Queue.add_tuple Dict.lookup Dict.insert
busy_direction = refl

download_sources :
    (d : Direction) (objects : List Transfer) → d ≡ download → HasSources faults world d objects
unfolding HasSources
download_sources upload objects e = cc
download_sources download objects e = tt
download_sources checkout objects e = cc

enqueue_and_collect_retries_for-settles_example :
    (p : Queue Fault × Batch × Option Fault) × (enqueue_and_collect_retries_for faults world
        (codes "agent")
        busy_queue
        batch
      ≡ some p)
    × (dones p.0.events + length p.1
        ≡ dones busy_queue.events
          + to_settle faults world (offered faults world (codes "agent") busy_queue batch) batch)
enqueue_and_collect_retries_for-settles_example =
    enqueue_and_collect_retries_for-settles faults world (codes "agent") busy_queue batch
      failing-Answers add_all-IsTidy_example.filled
      (λ objects name offer. download_sources busy_queue.direction objects busy_direction)

enqueue_retries-times_example :
    enqueue_retries faults 1000
      (busy_queue, [])
      (map {A = ObjectTuple} (λ t. record t { ready_time = 77 }) batch)
    ≡ enqueue_retries faults 1000 (busy_queue, []) batch
enqueue_retries-times_example = enqueue_retries-times faults 1000 (λ t. 77) batch (busy_queue, [])

no_count-IsBounded : IsBounded idle.rc
unfolding IsBounded count_for Dict.lookup
no_count-IsBounded oid = omega arith

fail_calls-IsBounded_example :
    IsBounded (fail_calls faults 1000 network (idle, [], false) batch).0.rc
fail_calls-IsBounded_example =
    fail_calls-IsBounded faults 1000 network batch (idle, [], false) no_count-IsBounded

abbrev twice : Objects
twice = record {
  completed = false;
  objects = tuple (codes "x") (codes "a") ∷ tuple (codes "z") (codes "a") ∷ [];
}

abbrev watched : Queue Fault
watched = record idle { transfers = (codes "a", twice) ∷ []; watchers = 0 ∷ 1 ∷ [] }

abbrev moved : Transfer
moved = record {
  name = codes "x";
  oid = codes "a";
  size = pos 4;
  authenticated = false;
  actions = [];
  links = none;
  error = none;
  path = codes "x";
  missing = false;
}

two_watchers : Uniq watched.watchers
unfolding elem
two_watchers = (refl, (refl, tt))

moved_known : Dict.lookup (codes "a") watched.transfers ≡ some twice
unfolding Dict.lookup
moved_known = refl

handle_transfer_result-delivers_example :
    (p : Queue Fault) × (handle_transfer_result faults
        (watched, [])
        (record { of = moved; error = none })
      ≡ some (p, []))
    × ((w : ℕ)
        → sent_to w p.events
          ≡ sent_to w watched.events
            ++ (if elem w watched.watchers then map update twice.objects else []))
    × ((oid : Text)
        → Dict.lookup oid p.transfers ≡ (
            if codes "a" == oid
            then some (record twice { completed = true })
            else Dict.lookup oid watched.transfers))
handle_transfer_result-delivers_example =
    handle_transfer_result-delivers faults watched [] moved twice two_watchers moved_known

abbrev refused : Error
refused = foreign (plain (codes "refused"))

abbrev empty_queue : Queue Error
empty_queue = record {
  direction = upload;
  is_standalone = false;
  dry_run = false;
  adapter = none;
  adapter_in_progress = false;
  transfers = [];
  watchers = [];
  rc = record { max_retries = 8; max_retry_delay = 10; count = [] };
  unsupported_content_type = false;
  events = [];
}

abbrev refusing : World Error
refusing = record {
  now = 1000;
  answer = λ ts. none;
  call_error = refused;
  adapter_for = λ name. name;
  begin_error = none;
  results = λ ts. [];
  stat = λ path. file_size (pos 4);
}

abbrev given_up : Queue Error × Batch × Option Error
given_up = (
  record empty_queue { events = wait_done ∷ wait_done ∷ paused ∷ [] },
  [],
  some (new_retriable_error (some refused)),
)

batch_refused :
    enqueue_and_collect_retries_for queue_errors refusing (codes "agent") empty_queue batch
    ≡ some given_up
unfolding enqueue_and_collect_retries_for queue_errors can_retry count_for Dict.lookup
    can_retry_object can_retry_object_later
batch_refused = refl

enqueue_and_collect_retries_for-Failure_example :
    Failure refusing empty_queue
      (offered queue_errors refusing (codes "agent") empty_queue batch)
      (new_retriable_error (some refused))
enqueue_and_collect_retries_for-Failure_example =
    enqueue_and_collect_retries_for-Failure refusing (codes "agent") empty_queue batch given_up
      (new_retriable_error (some refused)) batch_refused refl
