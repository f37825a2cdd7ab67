-- ===== src/Tq/Collector/Tests.antt =====
-- The collector of tq/transfer_queue.go at concrete turns.
use mathlib.Core.List.{Permᴰ}
use git_lfs.Prelude.{
  ℕ, ◌+◌, ◌≡◌, refl, true, false, none, some, List, [], ◌∷◌, Text, codes, text_comparable, elem,
  arith,
}
use git_lfs.Prelude.Int.{pos}
use git_lfs.Tq.Batch.{Transfer, Batch}
use git_lfs.Tq.Queue.{Queue, Errors, download}
use git_lfs.Tq.Queue.Results.{TransferResult, file_size}
use git_lfs.Tq.Queue.Whole.{Answers}
use git_lfs.Tq.Queue.Adding.{Addition}
use git_lfs.Tq.Queue.Charging.{IsExact}
use git_lfs.Tq.Collector.{
  Turn, Collector, Outcome, goes_on, blocked, fill, conclude, collect_round, waits_for_reader, wait,
  queue_sizes,
}
use git_lfs.Tq.Collector.Progress.{IsAccounted}
use git_lfs.Tq.Collector.Fairness.{IsFair}
use git_lfs.Tq.Collector.Stopping.{Stops, collect_batches-HasStopped}
use git_lfs.Tq.Collector.Starting.{new_collector, add_to, beyond, shut}
use git_lfs.Tq.Collector.Session.{Reached, Reached-wait, Reached-IsRunning}

data Fault : Type 0 where
  network refusal : Fault

abbrev faults : Errors Fault
faults = record {
  is_retriable = λ e. elim e [ network ↦ true | refusal ↦ false ];
  is_retriable_later = λ e. none;
  is_unprocessable_entity = λ e. false;
  new_retriable = λ e. network;
  object_error = λ oid e. refusal;
  unknown_oid = λ oid. refusal;
  missing_source = λ oid. refusal;
  action_expired = λ rel at. network;
  relation_error = λ name e. e;
  invalid_size = λ oid size. refusal;
  object_missing = λ name oid. refusal;
  corrupt_object = λ name oid. refusal;
}

abbrev new_queue : Queue Fault
new_queue = record {
  direction = download;
  is_standalone = true;
  dry_run = false;
  adapter = none;
  adapter_in_progress = false;
  transfers = [];
  watchers = 0 ∷ [];
  rc = record { max_retries = 2; max_retry_delay = 0; count = [] };
  unsupported_content_type = false;
  events = [];
}

abbrev addition : Text → Addition Fault
addition oid = record {
  name = oid;
  path = oid;
  oid = oid;
  size = pos 4;
  missing = false;
  error = none;
}

-- An adapter that always fails.
abbrev failing : List Transfer → List (TransferResult Fault)
failing [] = []
failing (t ∷ ts) = record { of = t; error = some network } ∷ failing ts

abbrev succeeding : List Transfer → List (TransferResult Fault)
succeeding [] = []
succeeding (t ∷ ts) = record { of = t; error = none } ∷ succeeding ts

abbrev turns : ℕ → Turn Fault
turns n = record {
  world = record {
    now = 2 + n;
    answer = λ ts. none;
    call_error = network;
    adapter_for = λ name. name;
    begin_error = none;
    results = failing;
    stat = λ path. file_size (pos 4);
  };
  received = 1;
  clock = 3 + n;
  reads = λ w. none;
}

failing-Answers : Answers faults failing
unfolding Answers
failing-Answers transfers [] k = (refl, tt)
failing-Answers transfers (t ∷ ts) (kt, kts) =
    let (same, known) = failing-Answers transfers ts kts in (omega arith, (kt, known))

succeeding-Answers : Answers faults succeeding
unfolding Answers
succeeding-Answers transfers [] k = (refl, tt)
succeeding-Answers transfers (t ∷ ts) (kt, kts) =
    let (same, known) = succeeding-Answers transfers ts kts in (omega arith, (kt, known))

turns-IsExact : (n : ℕ) → IsExact (turns n).world
unfolding IsExact
turns-IsExact n batch objects name e = absurd (ground arith)

turns-IsFair : IsFair faults turns
turns-IsFair = record {
  answers = λ n. failing-Answers;
  exact = turns-IsExact;
  passes = λ n t. (t, omega arith);
  receives = λ n. (0, omega arith);
  read = λ n w. refl;
}

abbrev unsorted : Batch → Batch
unsorted b = b

unsorted_perm : (b : Batch) → Permᴰ (unsorted b) b
unsorted_perm [] = Permᴰ.nil
unsorted_perm (t ∷ b) = Permᴰ.cons refl (unsorted_perm b)

abbrev names : List Text
names = codes "a" ∷ codes "b" ∷ codes "c" ∷ []

abbrev IsReached : Collector Fault → Type 0
IsReached c = Reached names faults 2 (codes "agent") unsorted new_queue c

-- Two objects, one of them added twice, of which a turn makes a batch.
abbrev filled_collector : Collector Fault
filled_collector =
    add_to (add_to (add_to (new_collector new_queue) (addition (codes "a"))) (addition (codes "a")))
      (addition (codes "b"))

filled-IsReached : IsReached filled_collector
unfolding elem
filled-IsReached =
    Reached.added _ (Reached.added _ (Reached.added _ Reached.begun _ refl) _ refl) _ refl

abbrev first_turn : Turn Fault
first_turn = record (turns 0) {
  world = record (turns 0).world { results = succeeding };
  received = 0;
}

abbrev next_of : Outcome Fault → Collector Fault
next_of (goes_on sleep c) = c
next_of _ = new_collector new_queue

abbrev sleep_of : Outcome Fault → ℕ
sleep_of (goes_on sleep c) = sleep
sleep_of _ = 0

abbrev after_turn : Outcome Fault
after_turn = collect_round faults 2 (codes "agent") unsorted first_turn filled_collector

after_turn-IsReached : IsReached (next_of after_turn)
unfolding collect_round beyond git_lfs.Tq.Queue.add git_lfs.Prelude.Dict.lookup
    git_lfs.Prelude.Dict.insert git_lfs.Tq.Queue.Enqueue.enqueue_and_collect_retries_for
    git_lfs.Tq.Queue.Enqueue.run git_lfs.Tq.Batch.transfer git_lfs.Tq.Relations.relation
    git_lfs.Tq.Relations.new_transfer git_lfs.Tq.Queue.Results.partition_transfers
    git_lfs.Tq.Queue.Results.handle_transfer_result waits_for_reader fill conclude IsExact
    git_lfs.Tq.Batch.concat
after_turn-IsReached =
    Reached.turned filled_collector filled-IsReached first_turn
      (false, filled_collector.incoming, []) (sleep_of after_turn) (next_of after_turn)
      succeeding-Answers (turns-IsExact 0) (λ w. refl) refl (omega arith) refl

-- Then another object is added, and the first one again.
abbrev last_collector : Collector Fault
last_collector = add_to (add_to (next_of after_turn) (addition (codes "c"))) (addition (codes "a"))

Reached-wait_example :
    (fuel : ℕ) × (p : Queue Fault) × (wait faults
        (queue_sizes (pos 2) (pos 0)).0
        (codes "agent")
        unsorted
        fuel
        turns
        last_collector
      ≡ some p)
    × (p.adapter_in_progress ≡ false)
unfolding elem queue_sizes
Reached-wait_example =
    Reached-wait names faults (pos 2) (pos 0) (codes "agent") unsorted new_queue last_collector
      turns unsorted_perm (λ oid. refl) turns-IsFair (refl, refl)
      (Reached.added _ (Reached.added _ after_turn-IsReached _ refl) _ refl)

filled_collector-IsAccounted : IsAccounted names (shut filled_collector)
filled_collector-IsAccounted =
    (Reached-IsRunning names faults 2 (codes "agent") unsorted (omega arith) unsorted_perm
      (λ oid. refl) new_queue (refl, refl) filled-IsReached).accounted

collect_batches-HasStopped_example :
    Stops names faults 2 (codes "agent") unsorted turns (shut filled_collector)
collect_batches-HasStopped_example =
    collect_batches-HasStopped names faults 2 (codes "agent") unsorted (omega arith) unsorted_perm
      (λ oid. refl) turns (shut filled_collector) turns-IsFair filled_collector-IsAccounted

-- Nobody reads the channel of the watcher, which holds one transfer, and the object was added twice:
-- the turn waits for ever.
abbrev unread_turn : Turn Fault
unread_turn = record first_turn { reads = λ w. some 0 }

abbrev twice : Collector Fault
twice = add_to (add_to (new_collector new_queue) (addition (codes "a"))) (addition (codes "a"))

unread_blocks : collect_round faults 1 (codes "agent") unsorted unread_turn twice ≡ blocked
unfolding collect_round beyond git_lfs.Tq.Queue.add git_lfs.Prelude.Dict.lookup
    git_lfs.Prelude.Dict.insert git_lfs.Tq.Queue.Enqueue.enqueue_and_collect_retries_for
    git_lfs.Tq.Queue.Enqueue.run git_lfs.Tq.Batch.transfer git_lfs.Tq.Relations.relation
    git_lfs.Tq.Relations.new_transfer git_lfs.Tq.Queue.Results.partition_transfers
    git_lfs.Tq.Queue.Results.handle_transfer_result waits_for_reader
unread_blocks = refl
