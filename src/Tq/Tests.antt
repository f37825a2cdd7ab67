-- ===== src/Tq/Tests.antt =====
-- The retry counter and the batches of tq/transfer_queue.go at concrete values.
use git_lfs.Prelude.{
  Bool, ltb, length, ℕ, ◌+◌, ◌*◌, ◌≡◌, ◌≤◌, refl, false, [], ◌∷◌, Text, codes, text_comparable,
  arith,
}
use git_lfs.Prelude.Int.{pos}
use git_lfs.Tq.Retries.{RetryCounter, count_for, ready_time, retry_delay}
use git_lfs.Tq.Retries.Delay.{doubling, ready_time-doubling}
use git_lfs.Tq.Batch.{ObjectTuple, Batch, concat}
use git_lfs.Tq.Batch.Conserving.{count, concat-count}

abbrev counter : RetryCounter
counter = record { max_retries = 8; max_retry_delay = 10; count = (codes "a", 3) ∷ [] }

third_delay : retry_delay 10 3 ≡ 1000
unfolding retry_delay
third_delay = refl

sixty_fifth_delay : retry_delay 10 65 ≡ 10000
unfolding retry_delay
sixty_fifth_delay = refl

ready_time-doubling_example :
    ((count_for counter (codes "a") ≡ 0) → ready_time 5 counter (codes "a") ≡ 0)
    × ((1 ≤ count_for counter (codes "a"))
        → (ready_time 5 counter (codes "a")
            ≡ 5 + 1000000 * doubling 10 (count_for counter (codes "a")))
          × (ready_time 5 counter (codes "a") ≤ 5 + 1000000000 * 10))
ready_time-doubling_example = ready_time-doubling 5 counter (codes "a") (omega arith)

abbrev tuple : Text → ℕ → ObjectTuple
tuple oid time = record {
  name = oid;
  path = oid;
  oid = oid;
  size = pos 4;
  missing = false;
  ready_time = time;
}

abbrev retried : Batch
retried = tuple (codes "a") 0 ∷ tuple (codes "b") 90 ∷ []

abbrev pending : Batch
pending = tuple (codes "c") 0 ∷ tuple (codes "d") 70 ∷ []

split_once : concat 50 retried pending 1 ≡ (
  tuple (codes "a") 0 ∷ [],
  tuple (codes "b") 90 ∷ tuple (codes "d") 70 ∷ tuple (codes "c") 0 ∷ [],
  20,
)
unfolding concat git_lfs.Tq.Batch.place
split_once = refl

abbrev small : ObjectTuple → Bool
small ot = ltb ot.ready_time 60

concat-count_example :
    (count small (concat 50 retried pending 1).0 + count small (concat 50 retried pending 1).1
      ≡ count small retried + count small pending)
    × (length (concat 50 retried pending 1).0 ≤ 1)
concat-count_example = concat-count 50 1 retried pending small
