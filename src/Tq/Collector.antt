-- ===== src/Tq/Collector.antt =====
-- The goroutine `collectBatches` of tq/transfer_queue.go and `Wait`. The channel `incoming` is the
-- list of what is still to come through it, with whether it is closed after that; a batch is
-- processed at once, and what comes in meanwhile is a number that the turn names. The sort of the
-- library, which is not stable, is a parameter.
pub mod Moving
pub mod Progress
pub mod Rounds
pub mod Idle
pub mod Fairness
pub mod Stopping
pub mod Waiting
pub mod Starting
pub mod Open
pub mod Session
mod Tests
use git_lfs.Prelude.{
  ℕ, zero, suc, ◌+◌, Bool, true, false, not, ◌&&◌, ◌||◌, Option, none, some, ltb, eqb,
  if◌then◌else◌, List, [], ◌∷◌, ◌++◌, Text, length,
}
use git_lfs.Prelude.Int.{ℤ, pos, negsuc}
use git_lfs.Tq.Batch.{ObjectTuple, Batch, concat}
use git_lfs.Tq.Queue.{Queue, Errors, Event, emit, error_sent, watcher_sent, watcher_closed}
use git_lfs.Tq.Queue.Enqueue.{World, enqueue_and_collect_retries_for, finish_adapter}
use git_lfs.Tq.Queue.Accounting.{dones}
use git_lfs.Tq.Queue.Adding.{waits}

abbrev pub default_batch_size : ℕ
default_batch_size = 100

-- A size that an option sets, and what stands for it if it is not positive.
unfoldable pub positive_or : ℕ → ℤ → ℕ
positive_or default (pos zero) = default
positive_or default (pos (suc n)) = suc n
positive_or default (negsuc n) = default

-- The sizes of the batches and of the channel that `NewTransferQueue` settles on.
unfoldable pub queue_sizes : (batch_size buffer_depth : ℤ) → ℕ × ℕ
unfolding positive_or
queue_sizes batch_size buffer_depth =
    let size = positive_or default_batch_size batch_size in (size, positive_or size buffer_depth)

-- What happens beside the collector in one turn of its loop: the answers to the batch, how often
-- an object or the end of the channel is received before the batch is done, the time at which the
-- next batch is chosen, and how many transfers are read of the channel of each watcher, in all turns
-- up to this one: `none` if the channel is read as long as something comes.
pub record Turn (E : Type 0) : Type 0 where
  pub world : World E
  pub received : ℕ
  pub clock : ℕ
  pub reads : ℕ → Option ℕ

pub record Collector (E : Type 0) : Type 0 where
  pub queue : Queue E
  pub incoming : List ObjectTuple
  pub closed : Bool
  pub closing : Bool
  pub next : Batch
  pub pending : Batch

-- What a turn of the loop comes to: it goes on after a sleep, it breaks, with or without an abort
-- of the wait group, or it is left, waiting for a channel or at a nil pointer.
pub data Outcome (E : Type 0) : Type 0 where
  goes_on : (sleep : ℕ) → Collector E → Outcome E
  finished : Queue E → Outcome E
  aborted : Queue E → Outcome E
  blocked : Outcome E
  crashed : Outcome E

-- The loop that fills the next batch, or `none` if it waits: whether the channel was found closed,
-- the batch and what is left in the channel.
unfoldable pub fill :
    (size : ℕ)
    → (closed closing : Bool) → Batch
    → List ObjectTuple
    → Option (Bool × Batch × List ObjectTuple)
fill size closed closing next [] =
    if not closing && ltb (length next) size
    then if closed then some (true, next, []) else none
    else some (closing, next, [])
fill size closed closing next (t ∷ incoming) =
    let rest = fill size closed closing (next ++ t ∷ []) incoming in
    if not closing && ltb (length next) size then rest else some (closing, next, t ∷ incoming)

-- What was collected, whether the channel was found closed, and what is left in it.
unfoldable pub collect_pending_until :
    (received : ℕ) → (closed : Bool) → List ObjectTuple → Batch × Bool × List ObjectTuple
collect_pending_until zero closed incoming = ([], false, incoming)
collect_pending_until (suc n) closed [] = ([], closed, [])
collect_pending_until (suc n) closed (t ∷ incoming) =
    let (pending, closing, left) = collect_pending_until n closed incoming in
    (t ∷ pending, closing, left)

module _ {E : Type 0} where
  -- How many transfers a watcher was sent.
  abbrev pub count_sent : ℕ → List (Event E) → ℕ
  count_sent w [] = 0
  count_sent w (watcher_sent v t ∷ events) =
      let n = count_sent w events in if eqb v w then suc n else n
  count_sent w (_ ∷ events) = count_sent w events

  -- Whether a watcher was sent more than its channel holds and its reader takes: the channel of
  -- `Watch` holds as many transfers as a batch, and the send waits.
  unfoldable pub waits_for_reader :
      (size : ℕ) → (reads : ℕ → Option ℕ) → (watchers : List ℕ) → List (Event E) → Bool
  waits_for_reader size reads [] events = false
  waits_for_reader size reads (w ∷ watchers) events =
      let rest = waits_for_reader size reads watchers events in
      elim (reads w) [ none ↦ rest | some n ↦ ltb (size + n) (count_sent w events) || rest ]

  abbrev pub is_stuck :
      (size : ℕ) → (reads : ℕ → Option ℕ) → Option (Queue E × Batch × Option E) → Bool
  is_stuck size reads none = false
  is_stuck size reads (some (q, retries, err)) = waits_for_reader size reads q.watchers q.events

module _ {E : Type 0} (errs : Errors E) (size : ℕ) (agent : Text)
    (sort_reverse : Batch → Batch) where
  -- The goroutine that a turn starts.
  unfoldable pub process : World E → Queue E → Batch → Option (Queue E × Batch × Option E)
  process w q [] = some (q, [], none)
  process w q (t ∷ next) = elim (enqueue_and_collect_retries_for errs w agent q (t ∷ next)) [
    | none ↦ none
    | some (q', retries, err) ↦ elim err [
      | none ↦ some (q', retries, none)
      | some e ↦ some (emit (error_sent e) q', retries, some e)
    ]
  ]

  -- How the turn ends once the batches are chosen anew.
  unfoldable pub choose : Collector E → (min_wait : ℕ) → (next pending : Batch) → Outcome E
  choose c min_wait [] [] = if c.closing then finished c.queue else goes_on 0 c
  choose c min_wait [] (t ∷ pending) = goes_on min_wait c
  choose c min_wait (t ∷ next) pending = goes_on 0 c

  unfoldable pub regroup : Turn E → Collector E → Queue E → Batch → Outcome E
  unfolding choose collect_pending_until
  regroup turn c q retries =
      let (collected, closing, left) = collect_pending_until turn.received c.closed c.incoming in
      let (next, pending, min_wait) = concat turn.clock retries (c.pending ++ collected) size in
      choose
        (record c { queue = q; incoming = left; closing = closing; next = next; pending = pending })
        min_wait next pending

  unfoldable pub conclude : Turn E → Collector E → Option (Queue E × Batch × Option E) → Outcome E
  unfolding regroup
  conclude turn c none = crashed
  conclude turn c (some (q, retries, none)) = regroup turn c q retries
  conclude turn c (some (q, retries, some err)) =
      if errs.is_retriable err then regroup turn c q retries else aborted q

  -- The batch is processed, unless a send to a watcher waits for ever.
  unfoldable pub attend :
      Turn E → Collector E → Batch → Option (Queue E × Batch × Option E) → Outcome E
  attend turn c [] r = conclude turn c r
  attend turn c (t ∷ b) r = if is_stuck size turn.reads r then blocked else conclude turn c r

  -- One turn of the loop of `collectBatches`.
  unfoldable pub collect_round : Turn E → Collector E → Outcome E
  unfolding fill process attend
  collect_round turn c = elim (fill size c.closed c.closing c.next c.incoming) [
    | none ↦ blocked
    | some (closing, next, incoming) ↦
        attend turn (record c { closing = closing; next = next; incoming = incoming })
          (sort_reverse next) (process turn.world c.queue (sort_reverse next))
  ]

  -- As many turns of the loop as the fuel allows, each with what happens beside it.
  unfoldable pub collect_batches : (fuel : ℕ) → (ℕ → Turn E) → Collector E → Outcome E
  unfolding collect_round
  collect_batches zero turns c = goes_on 0 c
  collect_batches (suc fuel) turns c = elim (collect_round (turns 0) c) [
    | goes_on sleep c' ↦ collect_batches fuel (λ n. turns (suc n)) c'
    | finished q ↦ finished q
    | aborted q ↦ aborted q
    | blocked ↦ blocked
    | crashed ↦ crashed
  ]

  unfoldable pub close_watchers : List ℕ → Queue E → Queue E
  close_watchers [] q = q
  close_watchers (w ∷ ws) q = close_watchers ws (emit (watcher_closed w) q)

  -- What follows the waits in `Wait`.
  unfoldable pub wind_up : Queue E → Queue E
  unfolding finish_adapter close_watchers
  wind_up q = let q' = finish_adapter errs q in close_watchers q'.watchers q'

  -- What `Wait` returns once the collector has stopped, if the wait group is at zero or was aborted.
  unfoldable pub wait_after : Outcome E → Option (Queue E)
  unfolding wind_up
  wait_after (goes_on sleep c) = none
  wait_after (finished q) = if eqb (dones q.events) (waits q.events) then some (wind_up q) else none
  wait_after (aborted q) = some (wind_up q)
  wait_after blocked = none
  wait_after crashed = none

  unfoldable pub wait : (fuel : ℕ) → (ℕ → Turn E) → Collector E → Option (Queue E)
  unfolding wait_after collect_batches
  wait fuel turns c = wait_after (collect_batches fuel turns (record c { closed = true }))
