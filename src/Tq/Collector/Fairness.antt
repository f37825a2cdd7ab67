-- ===== src/Tq/Collector/Fairness.antt =====
-- Turns of the loop of `collectBatches` of tq/transfer_queue.go that are fair.
use git_lfs.Prelude.{ℕ, ◌+◌, ◌<◌, ◌≤◌, ◌≡◌, ◌≢◌, none, [], ◌∷◌, length, keep, arith}
use git_lfs.Tq.Batch.{Batch}
use git_lfs.Tq.Batch.Clamping.{is_ready}
use git_lfs.Tq.Queue.{Errors}
use git_lfs.Tq.Queue.Whole.{Answers}
use git_lfs.Tq.Queue.Charging.{IsExact}
use git_lfs.Tq.Collector.{Turn}

-- In every turn the server answers with one object for each that it is asked for and the adapter
-- with one result for each transfer, for no other object. Time passes every bound, and the channel,
-- once it is closed, is received from at some time. The channel of each watcher is read as long as
-- something comes.
pub record IsFair {E : Type 0} (errs : Errors E) (turns : ℕ → Turn E) : Type 0 where
  pub answers : (n : ℕ) → Answers errs (turns n).world.results
  pub exact : (n : ℕ) → IsExact (turns n).world
  pub passes : (n t : ℕ) → (m : ℕ) × (t < (turns (n + m)).clock)
  pub receives : (n : ℕ) → (m : ℕ) × (1 ≤ (turns (n + m)).received)
  pub read : (n w : ℕ) → (turns n).reads w ≡ none

-- A time by which all objects of a batch are ready.
abbrev pub ready_by : Batch → ℕ
ready_by [] = 0
ready_by (t ∷ b) = t.ready_time + ready_by b

pub some_ready :
    (now : ℕ) (b : Batch) → 1 ≤ length b → ready_by b < now → keep (is_ready now) b ≢ []
unfolding keep
some_ready now [] h late e = omega arith
some_ready now (t ∷ b) h late e = ground arith
