-- ===== src/Tq/Retries/Counts.antt =====
-- What the retry counter has counted.
use git_lfs.Prelude.{
  ℕ, ◌+◌, ◌≤◌, ◌≡◌, refl, ap, ◌∙◌, Bool, true, false, Text, text_comparable, ◌==◌, same_text_iff,
  if◌then◌else◌, some, none, Option, arith,
}
use git_lfs.Prelude.Dict
use git_lfs.Prelude.Dict.Laws.{lookup-insert}
use git_lfs.Tq.Retries.{RetryCounter, count_for, increment, can_retry}

pub increment-count_for :
    (r : RetryCounter) (oid other : Text)
    → count_for (increment r oid).0 other
      ≡ (if oid == other then count_for r oid + 1 else count_for r other)
unfolding increment count_for
increment-count_for r oid other =
    ap read (lookup-insert oid other (count_for r oid + 1) r.count) ∙ read_choice (oid == other)
  where
    read : Option ℕ → ℕ
    read none = 0
    read (some n) = n

    read_choice :
        (b : Bool)
        → read (if b then some (count_for r oid + 1) else Dict.lookup other r.count)
          ≡ (if b then count_for r oid + 1 else count_for r other)
    read_choice true = refl
    read_choice false = ground arith

pub increment-max_retries :
    (r : RetryCounter) (oid : Text) → (increment r oid).0.max_retries ≡ r.max_retries
unfolding increment
increment-max_retries r oid = refl

-- No object was retried more often than the counter permits.
unfoldable pub IsBounded : RetryCounter → Type 0
IsBounded r = (oid : Text) → count_for r oid ≤ r.max_retries

-- A retry that the counter permits keeps the bound.
pub increment-IsBounded :
    (r : RetryCounter) (oid : Text)
    → IsBounded r
    → (can_retry r oid).1 ≡ true
    → IsBounded (increment r oid).0
unfolding IsBounded can_retry
increment-IsBounded r oid b h other = ground (
  arith,
  increment-count_for r oid other,
  increment-max_retries r oid,
  b other,
  same_text_iff oid other,
)
