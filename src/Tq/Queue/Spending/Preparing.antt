-- ===== src/Tq/Queue/Spending/Preparing.antt =====
-- What it costs to prepare the objects of the server's answer, in tq/transfer_queue.go.
use mathlib.Core.Path.{subst}
use git_lfs.Prelude.{
  ℕ, ◌≡◌, refl, sym, ap, ◌∙◌, Bool, true, false, none, some, inl, inr, Bool-cases, Option-cases,
  List, Text, text_comparable, arith, elem, if◌then◌else◌,
}
use git_lfs.Prelude.Dict
use git_lfs.Prelude.Dict.{Dict}
use git_lfs.Tq.Retries.{can_retry}
use git_lfs.Tq.Batch.{ObjectTuple, Batch, Transfer}
use git_lfs.Tq.Relations.{Relation, no_action, found, expired, new_transfer}
use git_lfs.Tq.Queue.{Queue, Errors, can_retry_object, first, emit, error_sent}
use git_lfs.Tq.Queue.Enqueue.{
  run, prepare_object, prepare_known, prepare_relation, start_transfer, drop_object,
}
use git_lfs.Tq.Queue.Accounting.{oldest, oldest_of}
use git_lfs.Tq.Queue.Spending.{IsOwned, Pays, Pays-refl, Pays-trans, Pays-quiet, run_keeps}
use git_lfs.Tq.Queue.Spending.Retries.{enqueue_retry-Pays, can_retry_object-permitted}

module _ {E : Type 0} (ks : List Text) (errs : Errors E) where
  abbrev pub batch_of : Queue E × Batch × List Transfer → Queue E × Batch
  batch_of s = (s.0, s.1)

  prepare_relation-Pays :
      (now : ℕ) (q : Queue E) (next : Batch) (to_transfer : List Transfer) (o : Transfer)
      (t : ObjectTuple) (tr : Transfer) (r : Relation)
      → t.oid ≡ tr.oid
      → elem t.oid ks ≡ true
      → Pays ks (q, next) (batch_of (prepare_relation errs now (q, next, to_transfer) o t tr r))
  unfolding prepare_relation start_transfer
  prepare_relation-Pays now q next to_transfer o t tr (found a) same known =
      Pays-quiet ks q _ next refl refl (omega arith) refl
  prepare_relation-Pays now q next to_transfer o t tr no_action same known =
      either q.is_standalone _ _ (Pays-quiet ks q _ next refl refl (omega arith) refl)
        (Pays-quiet ks q _ next refl refl (omega arith) refl)
    where
      either :
          (b : Bool) (x y : Queue E × Batch × List Transfer)
          → Pays ks (q, next) (batch_of x)
          → Pays ks (q, next) (batch_of y)
          → Pays ks (q, next) (batch_of (if b then x else y))
      either true x y h k = h
      either false x y h k = k
  prepare_relation-Pays now q next to_transfer o t tr (expired rel at) same known =
      elim (Bool-cases (can_retry_object errs q tr.oid (errs.action_expired rel at))) [
        | inl y ↦ rw y (
            enqueue_retry-Pays ks errs now (q, next) t none known
              (ap (λ i. (can_retry q.rc i).1) same
                ∙ can_retry_object-permitted ks errs now q tr.oid _ y))
        | inr n ↦ rw n (Pays-quiet ks q _ next refl refl (omega arith) refl)
      ]

  prepare_object-Pays :
      (now : ℕ) (s p : Queue E × Batch × List Transfer) (o : Transfer)
      → prepare_object errs now s o ≡ some p
      → IsOwned ks s.0.transfers
      → Pays ks (batch_of s) (batch_of p)
  unfolding prepare_object prepare_known new_transfer IsOwned oldest
  prepare_object-Pays now (q, next, to_transfer) p o e owned = elim (Option-cases o.error) [
    | inr (problem, l) ↦
        follow
          (
            drop_object errs o (emit (error_sent (errs.object_error o.oid problem)) q),
            next,
            to_transfer,
          )
          (rw l refl) (Pays-quiet ks q _ next refl refl (omega arith) refl)
    | inl l ↦ elim (Option-cases (Dict.lookup o.oid q.transfers)) [
      | inl m ↦
          follow
            (drop_object errs o (emit (error_sent (errs.unknown_oid o.oid)) q), next, to_transfer)
            (ground arith) (Pays-quiet ks q _ next refl refl (omega arith) refl)
      | inr (objs, m) ↦ elim (Option-cases (first objs)) [
        | inl f ↦ absurd (ground arith)
        | inr (t, f) ↦
            let (same, known) = owned o.oid t (ap oldest_of m ∙ f) in
            follow (prepare_known errs now (q, next, to_transfer) o t) (ground arith) (
              prepare_relation-Pays now q next to_transfer o t (new_transfer o t.name t.path) _ same
                (ap (λ i. elem i ks) same ∙ known))
      ]
    ]
  ]
    where
      injective : {a b : Queue E × Batch × List Transfer} → some a ≡ some b → a ≡ b
      injective h = cc

      follow :
          (p' : Queue E × Batch × List Transfer)
          → prepare_object errs now (q, next, to_transfer) o ≡ some p'
          → Pays ks (q, next) (batch_of p')
          → Pays ks (q, next) (batch_of p)
      follow p' step h = subst (λ p. Pays ks (q, next) (batch_of p)) (injective (sym step ∙ e)) h

  pub IsOwned-kept :
      (a b : Queue E × Batch)
      → ((k : Text) → oldest b.0.transfers k ≡ oldest a.0.transfers k)
      → IsOwned ks a.0.transfers
      → IsOwned ks b.0.transfers
  unfolding IsOwned
  IsOwned-kept a b same owned k t h = owned k t (sym (same k) ∙ h)

  pub prepare_objects-Pays :
      (now : ℕ) (objects : List Transfer) (s p : Queue E × Batch × List Transfer)
      → run (prepare_object errs now) s objects ≡ some p
      → IsOwned ks s.0.transfers
      → Pays ks (batch_of s) (batch_of p)
  prepare_objects-Pays now objects s p e =
      run_keeps (prepare_object errs now)
        (λ s p. IsOwned ks s.0.transfers → Pays ks (batch_of s) (batch_of p))
        (λ s o. Pays-refl ks (batch_of s))
        (λ s t u f g o.
          Pays-trans ks _ _ _ (f o)
            (g (IsOwned-kept (batch_of s) (batch_of t) (f o).keeps.same_oldest o)))
        (λ s t a l o. prepare_object-Pays now s t a l o) s p objects e
