-- ===== src/Tq/Queue/Spending/Adapting.antt =====
-- What follows the server's answer, in tq/transfer_queue.go, and its cost.
use mathlib.Core.Path.{subst}
use git_lfs.Prelude.{
  ◌≡◌, ◌≢◌, refl, sym, ap, ◌∙◌, Option, none, some, inl, inr, Bool-cases, Option-cases, List, [],
  ◌∷◌, Text, text_comparable, ◌==◌, arith,
}
use git_lfs.Tq.Retries.{RetryCounter, count_for}
use git_lfs.Tq.Batch.{ObjectTuple, Batch, Transfer}
use git_lfs.Tq.Queue.{Queue, Errors, emit, error_sent, started}
use git_lfs.Tq.Queue.Enqueue.{
  World, run, enqueue_retries, prepare_object, drop_object, drop_all, ensure_adapter_begun,
  transfer_or_drop, add_to_adapter, all_results, use_adapter, finish_adapter, transfer_objects,
}
use git_lfs.Tq.Queue.Accounting.{dones}
use git_lfs.Tq.Queue.Adding.{waits}
use git_lfs.Tq.Queue.Spending.{IsOwned, Pays, Pays-trans, Pays-quiet}
use git_lfs.Tq.Queue.Spending.Retries.{enqueue_retries-Pays}
use git_lfs.Tq.Queue.Spending.Preparing.{batch_of, IsOwned-kept, prepare_objects-Pays}
use git_lfs.Tq.Queue.Spending.Handling.{
  Handles, Handles-refl, Handles-trans, quiet-Handles, handle_results-Handles,
}

module _ {E : Type 0} (ks : List Text) (errs : Errors E) where
  drop_all-Handles :
      (pending : List Transfer) (q : Queue E)
      → Handles ks errs (q, []) (drop_all errs pending q, [])
  unfolding drop_all
  drop_all-Handles [] q = Handles-refl ks errs (q, [])
  drop_all-Handles (t ∷ pending) q =
      Handles-trans ks errs _ _ _
        (quiet-Handles ks errs q (drop_object errs t q) refl refl (omega arith) refl)
        (drop_all-Handles pending (drop_object errs t q))

  ensure_adapter_begun_quiet :
      (w : World E) (q : Queue E)
      → ((ensure_adapter_begun errs w q).0.rc ≡ q.rc)
        × ((ensure_adapter_begun errs w q).0.transfers ≡ q.transfers)
        × (dones (ensure_adapter_begun errs w q).0.events ≡ dones q.events)
        × (waits (ensure_adapter_begun errs w q).0.events ≡ waits q.events)
  unfolding ensure_adapter_begun
  ensure_adapter_begun_quiet w q = elim (Bool-cases q.adapter_in_progress) [
    | inl y ↦ (simp y refl, simp y refl, simp y refl, simp y refl)
    | inr n ↦ elim (Option-cases w.begin_error) [
      | inl e ↦ (simp (n, e) refl, simp (n, e) refl, simp (n, e) refl, simp (n, e) refl)
      | inr (err, e) ↦ (simp (n, e) refl, simp (n, e) refl, simp (n, e) refl, simp (n, e) refl)
    ]
  ]

  transfer_or_drop-Handles :
      (w : World E) (pending : List Transfer) (q : Queue E) (failure : Option E)
      (p : Queue E × List ObjectTuple)
      → transfer_or_drop errs w pending (q, failure) ≡ some p
      → IsOwned ks q.transfers
      → Handles ks errs (q, []) p
  unfolding transfer_or_drop
  transfer_or_drop-Handles w pending q none p e owned =
      handle_results-Handles ks errs (all_results errs w q pending) (q, []) p e owned
  transfer_or_drop-Handles w pending q (some err) p e owned =
      subst (Handles ks errs (q, [])) (injective e) (
        Handles-trans ks errs _ _ _
          (quiet-Handles ks errs q (emit (error_sent err) q) refl refl (omega arith) refl)
          (drop_all-Handles pending (emit (error_sent err) q)))
    where
      injective : {a b : Queue E × List ObjectTuple} → some a ≡ some b → a ≡ b
      injective h = cc

  add_to_adapter-Handles :
      (w : World E) (pending : List Transfer) (q : Queue E) (p : Queue E × List ObjectTuple)
      → add_to_adapter errs w pending q ≡ some p
      → IsOwned ks q.transfers
      → Handles ks errs (q, []) p
  unfolding add_to_adapter
  add_to_adapter-Handles w pending q p e owned =
      let begun = ensure_adapter_begun errs w q in
      let (rc, transfers, settled, waited) = ensure_adapter_begun_quiet w q in
      Handles-trans ks errs (q, []) (begun.0, []) p
        (quiet-Handles ks errs q begun.0 rc transfers (omega (arith, settled)) waited)
        (transfer_or_drop-Handles w pending begun.0 begun.1 p e
          (subst (IsOwned ks) (sym transfers) owned))

  Handles-Pays :
      (q r : Queue E) (next : Batch) (retries : List ObjectTuple)
      → Handles ks errs (q, []) (r, retries)
      → Pays ks (q, next) (r, next)
  Handles-Pays q r next retries h = record {
    keeps = record {
      same_max = ap (λ (c : RetryCounter). c.max_retries) h.same_rc;
      counts = λ k. omega (arith, ap (λ c. count_for c k) h.same_rc);
      settled = h.settled;
      waited = h.waited;
      same_oldest = h.same_oldest;
      filled = h.filled;
      longer = omega arith;
      among = λ m. m;
    };
    spends = λ l. absurd (omega arith);
  }

  use_adapter_quiet :
      (adapter_for : Text → Text) (name : Text) (q : Queue E)
      → ((use_adapter errs adapter_for name q).rc ≡ q.rc)
        × ((use_adapter errs adapter_for name q).transfers ≡ q.transfers)
        × (dones (use_adapter errs adapter_for name q).events ≡ dones q.events)
        × (waits (use_adapter errs adapter_for name q).events ≡ waits q.events)
  unfolding use_adapter finish_adapter
  use_adapter_quiet adapter_for name q = elim (Option-cases q.adapter) [
    | inl e ↦ (ground arith, ground arith, ground arith, ground arith)
    | inr (current, e) ↦ elim (Bool-cases (current == name)) [
      | inl y ↦ (ground arith, ground arith, ground arith, ground arith)
      | inr n ↦ elim (Bool-cases q.adapter_in_progress) [
        | inl b ↦ (ground arith, ground arith, ground arith, ground arith)
        | inr b ↦ (ground arith, ground arith, ground arith, ground arith)
      ]
    ]
  ]

  use_adapter-Pays :
      (adapter_for : Text → Text) (name : Text) (q : Queue E) (b : Batch)
      → Pays ks (q, b) (emit started (use_adapter errs adapter_for name q), b)
  use_adapter-Pays adapter_for name q b =
      let (rc, transfers, settled, waited) = use_adapter_quiet adapter_for name q in
      Pays-quiet ks q _ b rc transfers (omega (arith, settled)) waited

  pub transfer_objects-Pays :
      (w : World E) (q : Queue E) (objects : List Transfer) (name : Text) (p : Queue E × Batch)
      → transfer_objects errs w q objects name ≡ some p
      → IsOwned ks q.transfers
      → Pays ks (q, []) p
  unfolding transfer_objects
  transfer_objects-Pays w q objects name p e owned =
      let begun = use_adapter-Pays w.adapter_for name q [] in
      let start_owned = IsOwned-kept ks errs (q, []) (start, []) begun.keeps.same_oldest owned in
      elim (Option-cases (run (prepare_object errs w.now) (start, [], []) objects)) [
        | inl l ↦ absurd (lost (step_lost l))
        | inr (s, l) ↦
            let prepared =
              prepare_objects-Pays ks errs w.now objects (start, [], []) s l start_owned in
            let s_owned =
              IsOwned-kept ks errs (start, []) (batch_of ks errs s) prepared.keeps.same_oldest
                start_owned in
            elim (Option-cases (add_to_adapter errs w s.2 s.0)) [
              | inl m ↦ absurd (lost (step_lost_too s l m))
              | inr (r, m) ↦
                  let handled = add_to_adapter-Handles w s.2 s.0 r m s_owned in
                  let (among, permitted) = handled.permitted (tt, tt) in
                  subst (Pays ks (q, [])) (injective (sym (steps s r l m) ∙ e)) (
                    Pays-trans ks _ _ _ begun (
                      Pays-trans ks _ _ _ prepared (
                        Pays-trans ks _ _ _ (Handles-Pays s.0 r.0 s.1 r.1 handled)
                          (enqueue_retries-Pays ks errs w.now (r.0, s.1) r.1 among permitted))))
            ]
      ]
    where
      start : Queue E
      start = emit started (use_adapter errs w.adapter_for name q)

      lost : transfer_objects errs w q objects name ≢ none
      lost h = absurd_lem (sym e ∙ h)
        where
          absurd_lem : some p ≢ none
          absurd_lem h = cc

      step_lost :
          run (prepare_object errs w.now) (start, [], []) objects ≡ none
          → transfer_objects errs w q objects name ≡ none
      step_lost l = rw (l, transfer_objects) refl

      step_lost_too :
          (s : Queue E × Batch × List Transfer)
          → run (prepare_object errs w.now) (start, [], []) objects ≡ some s
          → add_to_adapter errs w s.2 s.0 ≡ none
          → transfer_objects errs w q objects name ≡ none
      step_lost_too s l m = rw (l, transfer_objects) (rw m refl)

      steps :
          (s : Queue E × Batch × List Transfer) (r : Queue E × List ObjectTuple)
          → run (prepare_object errs w.now) (start, [], []) objects ≡ some s
          → add_to_adapter errs w s.2 s.0 ≡ some r
          → transfer_objects errs w q objects name
            ≡ some (enqueue_retries errs w.now (r.0, s.1) r.1)
      steps s r l m = rw (l, transfer_objects) (rw m refl)

      injective : {a b : Queue E × Batch} → some a ≡ some b → a ≡ b
      injective h = cc
