-- ===== src/Tq/Collector/Progress.antt =====
-- How far the loop of `collectBatches` of tq/transfer_queue.go is from its end.
use git_lfs.Prelude.{
  ℕ, ◌+◌, ◌-◌, ◌<◌, ◌≤◌, ◌≡◌, sym, ap, ◌∙◌, true, inl, inr, Bool-cases, List, [], ◌∷◌, length, Text,
  text_comparable, same_text_iff, ◌==◌, arith, elem,
}
use git_lfs.Tq.Retries.{RetryCounter, count_for}
use git_lfs.Prelude.Dict.{Dict}
use git_lfs.Tq.Queue.{Objects, Queue}
use git_lfs.Tq.Queue.Accounting.{dones, IsFilled, oldest}
use git_lfs.Tq.Queue.Adding.{waits}
use git_lfs.Tq.Queue.Spending.{Among, IsOwned}
use git_lfs.Tq.Collector.{Collector, Outcome, goes_on, finished, aborted, blocked, crashed}

-- How many retries are left for the objects.
unfoldable pub budget : List Text → RetryCounter → ℕ
budget [] rc = 0
budget (k ∷ ks) rc = (rc.max_retries - count_for rc k) + budget ks rc

pub budget-le :
    (ks : List Text) (r s : RetryCounter)
    → s.max_retries ≡ r.max_retries
    → ((k : Text) → count_for r k ≤ count_for s k)
    → budget ks s ≤ budget ks r
unfolding budget
budget-le [] r s m h = omega arith
budget-le (k ∷ ks) r s m h = omega (arith, m, h k, budget-le ks r s m h)

pub budget-lt :
    (ks : List Text) (r s : RetryCounter)
    → s.max_retries ≡ r.max_retries
    → ((k : Text) → count_for r k ≤ count_for s k)
    → (k : Text) → elem k ks ≡ true
    → count_for r k < r.max_retries
    → count_for r k < count_for s k
    → budget ks s < budget ks r
unfolding budget elem
budget-lt [] r s m h k known left used = absurd (ground arith)
budget-lt (j ∷ ks) r s m h k known left used = elim (Bool-cases (j == k)) [
  | inl y ↦
      let same = (same_text_iff j k).0 y in
      omega (
        arith,
        m,
        left,
        used,
        ap (λ i. count_for r i) same,
        ap (λ i. count_for s i) same,
        budget-le ks r s m h,
      )
  | inr n ↦ omega (arith, m, h j, budget-lt ks r s m h k (ground arith) left used)
]

pub owned_lem :
    (ks : List Text) (m n : Dict Text Objects)
    → ((k : Text) → oldest n k ≡ oldest m k)
    → IsOwned ks m
    → IsOwned ks n
unfolding IsOwned
owned_lem ks m n same owned k t h = owned k t (sym (same k) ∙ h)

module _ {E : Type 0} where
  abbrev pub live : Collector E → ℕ
  live c = length c.incoming + length c.next + length c.pending

  -- `Wait` was called, and each object that is waited for is done or still on its way.
  pub record IsAccounted (ks : List Text) (c : Collector E) : Type 0 where
    pub closed : c.closed ≡ true
    pub drained : c.closing ≡ true → c.incoming ≡ []
    pub owned : IsOwned ks c.queue.transfers
    pub filled : IsFilled c.queue.transfers
    pub known_incoming : Among ks c.incoming
    pub known_next : Among ks c.next
    pub known_pending : Among ks c.pending
    pub total : dones c.queue.events + live c ≡ waits c.queue.events

  module _ (ks : List Text) where
    -- How far the collector is from its end.
    abbrev pub distance : Collector E → ℕ
    distance c = live c + budget ks c.queue.rc

    -- Where a turn leads that chooses from `n` objects, with the queue `q`.
    abbrev pub Lands : Queue E → ℕ → Outcome E → Type 0
    Lands q n (goes_on sleep c) = IsAccounted ks c × (c.queue ≡ q) × (live c ≡ n)
    Lands q n (finished p) = (p ≡ q) × (dones q.events ≡ waits q.events)
    Lands q n (aborted p) = ⊥
    Lands q n blocked = ⊥
    Lands q n crashed = ⊥

    abbrev pub Advances : ℕ → Outcome E → Type 0
    Advances n (goes_on sleep c) = IsAccounted ks c × (distance c < n)
    Advances n (finished p) = dones p.events ≡ waits p.events
    Advances n (aborted p) = Unit
    Advances n blocked = ⊥
    Advances n crashed = ⊥
