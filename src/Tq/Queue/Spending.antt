-- ===== src/Tq/Queue/Spending.antt =====
-- What a batch costs: `enqueueAndCollectRetriesFor` of tq/transfer_queue.go puts no object in the
-- next batch without using up one of the retries that an object of the queue has left.
pub mod Retries
pub mod Preparing
pub mod Handling
pub mod Adapting
use git_lfs.Prelude.{
  ℕ, ◌+◌, ◌<◌, ◌≤◌, ◌≡◌, refl, sym, ap, ◌∙◌, Bool, true, false, Option, none, some, inl, inr,
  Bool-cases, Option-cases, List, [], ◌∷◌, ◌++◌, length, length-append, All, All-append, Text,
  text_comparable, ◌==◌, same_text_iff, arith, elem, if◌then◌else◌,
}
use git_lfs.Prelude.Dict
use git_lfs.Prelude.Dict.{Dict}
use git_lfs.Tq.Retries.{RetryCounter, count_for, can_retry, increment}
use git_lfs.Tq.Retries.Counts.{increment-count_for, increment-max_retries}
use git_lfs.Tq.Batch.{ObjectTuple, Batch}
use git_lfs.Tq.Queue.{Queue, Errors, Objects, can_retry_object, can_retry_object_later, first}
use git_lfs.Tq.Queue.Enqueue.{run, enqueue_retry, enqueue_retries, fail_call, fail_calls}
use git_lfs.Tq.Queue.Accounting.{dones, oldest, oldest_of, IsFilled}
use git_lfs.Tq.Queue.Adding.{waits}

-- Of the objects with the IDs.
abbrev pub Among : List Text → Batch → Type 0
Among ks b = All (λ t. elem t.oid ks ≡ true) b

-- Of objects that the counter permits to retry.
abbrev pub Permitted : RetryCounter → Batch → Type 0
Permitted rc b = All (λ t. (can_retry rc t.oid).1 ≡ true) b

-- The oldest transfer for an object is one of that object, which is among the known ones.
unfoldable pub IsOwned : List Text → Dict Text Objects → Type 0
IsOwned ks transfers =
    (k : Text) (t : ObjectTuple) → oldest transfers k ≡ some t → (t.oid ≡ k) × (elem k ks ≡ true)

-- A retry that was left for one of the objects is used up.
abbrev pub Spends : List Text → RetryCounter → RetryCounter → Type 0
Spends ks r s =
    (k : Text) × (elem k ks ≡ true)
    × (count_for r k < r.max_retries)
    × (count_for r k < count_for s k)

-- A run of a loop over `steps` keeps what each step keeps.
pub run_keeps :
    {S A : Type 0} (step : S → A → Option S) (R : S → S → Type 0)
    → ((s : S) → R s s)
    → ((s t u : S) → R s t → R t u → R s u)
    → ((s t : S) (a : A) → step s a ≡ some t → R s t)
    → (s t : S) (more : List A) → run step s more ≡ some t
    → R s t
unfolding run
run_keeps {S} step R same and_then each s t [] e =
    mathlib.Core.Path.subst (R s) (injective e) (same s)
  where
    injective : {a b : S} → some a ≡ some b → a ≡ b
    injective h = cc
run_keeps step R same and_then each s t (a ∷ more) e = elim (Option-cases (step s a)) [
  | inl l ↦ absurd (ground arith)
  | inr (u, l) ↦
      and_then s u t (each s u a l) (run_keeps step R same and_then each u t more (ground arith))
]

module _ {E : Type 0} (ks : List Text) where
  -- What every operation on the queue and the next batch keeps.
  pub record Keeps (a b : Queue E × Batch) : Type 0 where
    pub same_max : b.0.rc.max_retries ≡ a.0.rc.max_retries
    pub counts : (k : Text) → count_for a.0.rc k ≤ count_for b.0.rc k
    pub settled : dones a.0.events ≤ dones b.0.events
    pub waited : waits b.0.events ≡ waits a.0.events
    pub same_oldest : (k : Text) → oldest b.0.transfers k ≡ oldest a.0.transfers k
    pub filled : IsFilled a.0.transfers → IsFilled b.0.transfers
    pub longer : length a.1 ≤ length b.1
    pub among : Among ks a.1 → Among ks b.1

  pub record Pays (a b : Queue E × Batch) : Type 0 where
    pub keeps : Keeps a b
    pub spends : length a.1 < length b.1 → Spends ks a.0.rc b.0.rc

  pub Keeps-refl : (a : Queue E × Batch) → Keeps a a
  Keeps-refl a = record {
    same_max = refl;
    counts = λ k. omega arith;
    settled = omega arith;
    waited = refl;
    same_oldest = λ k. refl;
    filled = λ f. f;
    longer = omega arith;
    among = λ h. h;
  }

  pub Keeps-trans : (a b c : Queue E × Batch) → Keeps a b → Keeps b c → Keeps a c
  Keeps-trans a b c p q = record {
    same_max = q.same_max ∙ p.same_max;
    counts = λ k. omega (arith, p.counts k, q.counts k);
    settled = omega (arith, p.settled, q.settled);
    waited = q.waited ∙ p.waited;
    same_oldest = λ k. q.same_oldest k ∙ p.same_oldest k;
    filled = λ f. q.filled (p.filled f);
    longer = omega (arith, p.longer, q.longer);
    among = λ h. q.among (p.among h);
  }

  pub Pays-refl : (a : Queue E × Batch) → Pays a a
  Pays-refl a = record { keeps = Keeps-refl a; spends = λ h. absurd (omega arith) }

  pub Pays-trans : (a b c : Queue E × Batch) → Pays a b → Pays b c → Pays a c
  Pays-trans a b c p q = record {
    keeps = Keeps-trans a b c p.keeps q.keeps;
    spends = λ h. elim (Bool-cases (git_lfs.Prelude.ltb (length a.1) (length b.1))) [
      | inl y ↦
          let (k, known, left, used) = p.spends (ground arith) in
          (k, known, left, omega (arith, used, q.keeps.counts k))
      | inr n ↦
          let (k, known, left, used) = q.spends (ground arith) in
          (
            k,
            known,
            omega (arith, left, p.keeps.counts k, p.keeps.same_max),
            omega (arith, used, p.keeps.counts k),
          )
    ];
  }

  -- What touches neither the counters nor the batch.
  pub Pays-quiet :
      (q r : Queue E) (b : Batch)
      → r.rc ≡ q.rc
      → r.transfers ≡ q.transfers
      → dones q.events ≤ dones r.events
      → waits r.events ≡ waits q.events
      → Pays (q, b) (r, b)
  Pays-quiet q r b same kept h w = record {
    keeps = record {
      same_max = ap (λ (c : RetryCounter). c.max_retries) same;
      counts = λ k. omega (arith, ap (λ c. count_for c k) same);
      settled = h;
      waited = w;
      same_oldest = λ k. ap (λ m. oldest m k) kept;
      filled = λ f. mathlib.Core.Path.subst IsFilled (sym kept) f;
      longer = omega arith;
      among = λ m. m;
    };
    spends = λ l. absurd (omega arith);
  }
