-- ===== src/Tq/Retries.antt =====
-- The retry counter of tq/transfer_queue.go. A `time.Time` is a number of nanoseconds since the zero
-- time, and a `time.Duration` is an `int64` as its bit pattern. The mutex is not modelled.
pub mod Delay
pub mod Counts
use git_lfs.Prelude.{
  ℕ, ◌+◌, ◌-◌, ◌*◌, ◌%◌, ◌^◌, Bool, Option, none, some, ltb, eqb, ◌||◌, if◌then◌else◌, Text,
  text_comparable, [],
}
use git_lfs.Prelude.Dict
use git_lfs.Prelude.Dict.{Dict}

pub record RetryCounter : Type 0 where
  -- of type `int`, and not negative, as the manifest sets them
  pub max_retries : ℕ
  -- in seconds
  pub max_retry_delay : ℕ
  pub count : Dict Text ℕ

abbrev pub default_max_retries : ℕ
default_max_retries = 8

abbrev pub default_max_retry_delay : ℕ
default_max_retry_delay = 10

abbrev pub base_retry_delay_ms : ℕ
base_retry_delay_ms = 250

unfoldable pub new_retry_counter : RetryCounter
new_retry_counter = record {
  max_retries = default_max_retries;
  max_retry_delay = default_max_retry_delay;
  count = [];
}

unfoldable pub count_for : RetryCounter → Text → ℕ
count_for r oid = elim (Dict.lookup oid r.count) [ none ↦ 0 | some n ↦ n ]

-- The counter, and the new count.
unfoldable pub increment : RetryCounter → Text → RetryCounter × ℕ
unfolding count_for
increment r oid = let n = count_for r oid + 1 in (record r { count = Dict.insert oid n r.count }, n)

unfoldable pub can_retry : RetryCounter → Text → ℕ × Bool
can_retry r oid = (count_for r oid, ltb (count_for r oid) r.max_retries)

-- The `delay` of `ReadyTime` at a count of at least 1, in milliseconds, a `uint64`.
unfoldable pub retry_delay : (max_retry_delay count : ℕ) → ℕ
retry_delay most count =
    let max_delay_ms = (1000 * most) % 2 ^ 64 in
    let delay = (base_retry_delay_ms * (2 ^ (count - 1) % 2 ^ 64)) % 2 ^ 64 in
    if eqb delay 0 || ltb max_delay_ms delay then max_delay_ms else delay

-- `t.Add(d)`
unfoldable pub add_duration : ℕ → ℕ → ℕ
add_duration t d = if ltb d (2 ^ 63) then t + d else t - (2 ^ 64 - d)

unfoldable pub ready_time : ℕ → RetryCounter → Text → ℕ
unfolding retry_delay add_duration
ready_time now r oid =
    if ltb (count_for r oid) 1
    then 0
    else add_duration now (retry_delay r.max_retry_delay (count_for r oid) * 1000000 % 2 ^ 64)
