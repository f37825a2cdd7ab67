-- ===== src/Tq/Queue/Settling.antt =====
-- How the results of an adapter are settled, and a whole batch: `handleTransferResult` and
-- `enqueueAndCollectRetriesFor` of tq/transfer_queue.go.
use git_lfs.Prelude.{
  ℕ, ◌+◌, ◌≡◌, ◌≢◌, refl, sym, ap, ◌∙◌, true, Option, none, some, inl, inr, Bool-cases,
  Option-cases, List, [], ◌∷◌, ◌++◌, length, length-append, Text, text_comparable, ◌==◌,
  same_text_iff, arith, map,
}
use git_lfs.Prelude.Dict
use git_lfs.Prelude.Dict.{Dict}
use git_lfs.Prelude.Dict.Laws.{lookup-insert}
use git_lfs.Tq.Batch.{ObjectTuple, Transfer}
use git_lfs.Tq.Queue.{
  Queue, Errors, Objects, emit, wait_done, send_to, send_each, first, can_retry_object,
  can_retry_object_later, transfer_finished,
}
use git_lfs.Tq.Queue.Results.{
  TransferResult, handle_transfer_result, send_retry, give_up, succeed, update,
}
use git_lfs.Tq.Queue.Accounting.{dones, send_each-dones, oldest, oldest_of, IsKnown}

-- To mark an object completed does not change which transfer is its oldest.
pub oldest-completed :
    (transfers : Dict Text Objects) (oid : Text) (objs : Objects)
    → Dict.lookup oid transfers ≡ some objs
    → (k : Text)
    → oldest (Dict.insert oid (record objs { completed = true }) transfers) k ≡ oldest transfers k
unfolding oldest
oldest-completed transfers oid objs l k =
    ap oldest_of (lookup-insert oid k (record objs { completed = true }) transfers)
    ∙ elim (Bool-cases (oid == k)) [
      | inl y ↦ rw y (
          sym (
            ap oldest_of (ap (λ i. Dict.lookup i transfers) (sym ((same_text_iff oid k).0 y)) ∙ l)))
      | inr n ↦ rw n refl
    ]

module _ {E : Type 0} where
  send_to-transfers :
      (w : ℕ) (ts : List Transfer) (q : Queue E) → (send_to w ts q).transfers ≡ q.transfers
  unfolding send_to
  send_to-transfers w [] q = refl
  send_to-transfers w (t ∷ ts) q = send_to-transfers w ts _

  pub send_each-transfers :
      (ws : List ℕ) (ts : List Transfer) (q : Queue E) → (send_each ws ts q).transfers ≡ q.transfers
  unfolding send_each
  send_each-transfers [] ts q = refl
  send_each-transfers (w ∷ ws) ts q = send_each-transfers ws ts _ ∙ send_to-transfers w ts q

  module _ (errs : Errors E) (transfers : Dict Text Objects) where
    abbrev pub Remembers : Queue E × List ObjectTuple → Type 0
    Remembers s = (oid : Text) → oldest s.0.transfers oid ≡ oldest transfers oid

    abbrev pub answered_for : Queue E × List ObjectTuple → ℕ
    answered_for s = dones s.0.events + length s.1

    send_retry-settles :
        (ready : Option ℕ) (oid : Text) (err : E) (s : Queue E × List ObjectTuple)
        → Remembers s
        → IsKnown transfers oid
        → (p : Queue E × List ObjectTuple) × (send_retry errs ready oid err s ≡ some p)
          × Remembers p
          × (answered_for p ≡ answered_for s + 1)
    unfolding send_retry oldest
    send_retry-settles ready oid err (q, retries) r (t, k) =
        elim (Option-cases (Dict.lookup oid q.transfers)) [
          | inl l ↦ absurd (lost none l (r oid ∙ k) refl)
          | inr (objs, l) ↦ elim (Option-cases (first objs)) [
            | inl f ↦ absurd (lost (some objs) l (r oid ∙ k) f)
            | inr (o, f) ↦ elim (Option-cases ready) [
              | inl e ↦ (
                (q, retries ++ o ∷ []),
                ground arith,
                r,
                omega (arith, length-append retries (o ∷ [])),
              )
              | inr (time, e) ↦ (
                (q, retries ++ record o { ready_time = time } ∷ []),
                ground arith,
                r,
                omega (arith, length-append retries (record o { ready_time = time } ∷ [])),
              )
            ]
          ]
        ]
      where
        absurd_lem : some t ≢ none
        absurd_lem e = cc

        lost :
            (found : Option Objects)
            → Dict.lookup oid q.transfers ≡ found
            → oldest q.transfers oid ≡ some t
            → oldest_of found ≢ none
        lost found l o e = absurd_lem (sym o ∙ ap oldest_of l ∙ e)

    give_up-settles :
        (err : E) (q : Queue E) (retries : List ObjectTuple)
        → Remembers (q, retries)
        → Remembers (give_up errs err q, retries)
          × (answered_for (give_up errs err q, retries) ≡ answered_for (q, retries) + 1)
    unfolding give_up
    give_up-settles err q retries r = elim (Bool-cases (errs.is_unprocessable_entity err)) [
      | inl y ↦ rw y (r, omega arith)
      | inr n ↦ rw n (r, omega arith)
    ]

    succeed-settles :
        (t : Transfer) (q : Queue E) (retries : List ObjectTuple)
        → Remembers (q, retries)
        → IsKnown transfers t.oid
        → (p : Queue E) × (succeed errs t q ≡ some p)
          × Remembers (p, retries)
          × (answered_for (p, retries) ≡ answered_for (q, retries) + 1)
    unfolding succeed oldest
    succeed-settles t q retries r (o, k) = elim (Option-cases (Dict.lookup t.oid q.transfers)) [
      | inl l ↦ absurd (lost (sym (r t.oid ∙ k) ∙ ap oldest_of l))
      | inr (objs, l) ↦
          let marked = Dict.insert t.oid (record objs { completed = true }) q.transfers in
          let sent =
            send_each q.watchers (map update objs.objects) (record q { transfers = marked }) in
          (
            emit wait_done (emit (transfer_finished t.name) sent),
            ground arith,
            λ oid.
                ap (λ m. oldest m oid) (send_each-transfers q.watchers _ _)
                ∙ oldest-completed q.transfers t.oid objs l oid
                ∙ r oid,
            omega (
              arith,
              send_each-dones q.watchers (map update objs.objects)
                  (record q { transfers = marked }),
            ),
          )
    ]
      where
        lost : some o ≢ none
        lost e = cc

    pub handle_transfer_result-settles :
        (s : Queue E × List ObjectTuple) (res : TransferResult E)
        → Remembers s
        → IsKnown transfers res.of.oid
        → (p : Queue E × List ObjectTuple) × (handle_transfer_result errs s res ≡ some p)
          × Remembers p
          × (answered_for p ≡ answered_for s + 1)
    unfolding handle_transfer_result
    handle_transfer_result-settles (q, retries) res r k = elim (Option-cases res.error) [
      | inl e ↦
          let (p, done, keeps, one) = succeed-settles res.of q retries r k in
          ((p, retries), ground arith, keeps, one)
      | inr (err, e) ↦ elim (Option-cases (can_retry_object_later errs q res.of.oid err)) [
        | inr (time, l) ↦
            let (p, sent, keeps, one) =
              send_retry-settles (some time) res.of.oid err (q, retries) r k in
            (p, ground arith, keeps, one)
        | inl l ↦ elim (Bool-cases (can_retry_object errs q res.of.oid err)) [
          | inl y ↦
              let (p, sent, keeps, one) = send_retry-settles none res.of.oid err (q, retries) r k in
              (p, ground arith, keeps, one)
          | inr n ↦
              let (keeps, one) = give_up-settles err q retries r in
              ((give_up errs err q, retries), ground arith, keeps, one)
        ]
      ]
    ]
