-- ===== src/Tq/Collector/Waiting.antt =====
-- `Wait` of tq/transfer_queue.go once the loop of the collector has stopped.
use mathlib.Core.List.{Permᴰ}
use git_lfs.Prelude.{
  ℕ, ◌≤◌, ◌≡◌, refl, ◌∙◌, true, false, some, inl, inr, Bool-cases, List, [], ◌∷◌, Text, eqb, arith,
}
use git_lfs.Tq.Batch.{Batch}
use git_lfs.Tq.Queue.{Queue, Errors}
use git_lfs.Tq.Queue.Enqueue.{finish_adapter}
use git_lfs.Tq.Collector.{
  Turn, Collector, Outcome, goes_on, finished, aborted, blocked, crashed, wait, wait_after, wind_up,
  close_watchers,
}
use git_lfs.Tq.Collector.Progress.{IsAccounted}
use git_lfs.Tq.Collector.Fairness.{IsFair}
use git_lfs.Tq.Collector.Stopping.{HasStopped, collect_batches-HasStopped}

module _ {E : Type 0} (ks : List Text) (errs : Errors E) (size : ℕ) (agent : Text)
    (sort_reverse : Batch → Batch) where
  module _ (positive : 1 ≤ size) (sorts : (b : Batch) → Permᴰ (sort_reverse b) b)
      (final : (oid : Text) → errs.is_retriable (errs.missing_source oid) ≡ false) where
    wait_after-HasStopped :
        (o : Outcome E)
        → HasStopped ks errs size agent sort_reverse o
        → (q : Queue E) × (wait_after errs size agent sort_reverse o
            ≡ some (wind_up errs size agent sort_reverse q))
    unfolding wait_after
    wait_after-HasStopped (goes_on sleep c) h = elim h [ ]
    wait_after-HasStopped (finished q) h = (q, rw (eqb_lem h) refl)
      where
        eqb_lem : {m n : ℕ} → m ≡ n → eqb m n ≡ true
        eqb_lem e = ground arith
    wait_after-HasStopped (aborted q) h = (q, refl)
    wait_after-HasStopped blocked h = elim h [ ]
    wait_after-HasStopped crashed h = elim h [ ]

    close_watchers-adapter :
        (ws : List ℕ) (q : Queue E)
        → (close_watchers errs size agent sort_reverse ws q).adapter_in_progress
          ≡ q.adapter_in_progress
    unfolding close_watchers
    close_watchers-adapter [] q = refl
    close_watchers-adapter (w ∷ ws) q = close_watchers-adapter ws _

    wind_up-adapter :
        (q : Queue E) → (wind_up errs size agent sort_reverse q).adapter_in_progress ≡ false
    unfolding wind_up finish_adapter
    wind_up-adapter q =
        close_watchers-adapter (finish_adapter errs q).watchers (finish_adapter errs q)
        ∙ elim (Bool-cases q.adapter_in_progress) [ inl y ↦ simp y refl | inr n ↦ simp n refl ]

    -- `Wait` returns.
    pub wait-returns :
        (turns : ℕ → Turn E) (c : Collector E)
        → IsFair errs turns
        → IsAccounted ks (record c { closed = true })
        → (fuel : ℕ) × (q : Queue E) × (wait errs size agent sort_reverse fuel turns c ≡ some q)
          × (q.adapter_in_progress ≡ false)
    unfolding wait
    wait-returns turns c fair a =
        let (fuel, stopped) =
          collect_batches-HasStopped ks errs size agent sort_reverse positive sorts final turns
            (record c { closed = true }) fair a in
        let (q, returned) = wait_after-HasStopped _ stopped in
        (fuel, wind_up errs size agent sort_reverse q, returned, wind_up-adapter q)
