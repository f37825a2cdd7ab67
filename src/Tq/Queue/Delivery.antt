-- ===== src/Tq/Queue/Delivery.antt =====
-- What `handleTransferResult` of tq/transfer_queue.go sends to the watchers.
use git_lfs.Prelude.{
  ℕ, ◌≡◌, ◌≢◌, refl, sym, ap, ◌∙◌, Bool, true, false, ◌||◌, none, some, inl, inr, Bool-cases, List,
  [], ◌∷◌, ◌++◌, append_assoc, append-nil, Text, text_comparable, number_comparable, ◌==◌, eqb,
  eqb_iff, arith, elem, Uniq, map, if◌then◌else◌,
}
use git_lfs.Prelude.Dict
use git_lfs.Prelude.Dict.Laws.{lookup-insert}
use git_lfs.Tq.Batch.{ObjectTuple, Transfer}
use git_lfs.Tq.Queue.{
  Queue, Event, Errors, Objects, watcher_sent, wait_done, transfer_finished, send_to, send_each,
  emit,
}
use git_lfs.Tq.Queue.Settling.{send_each-transfers}
use git_lfs.Tq.Queue.Results.{handle_transfer_result, succeed, update}

-- One of two tests at most holds.
choose :
    (s ts : List Transfer) (a b : Bool)
    → (a ≡ true → b ≡ false)
    → (s ++ (if a then ts else [])) ++ (if b then ts else []) ≡ s ++ (if a || b then ts else [])
choose s ts true true h = absurd (never (h refl))
  where
    never : true ≢ false
    never e = cc
choose s ts true false h = append-nil (s ++ ts)
choose s ts false b h = ap (λ r. r ++ (if b then ts else [])) (append-nil s)

module _ {E : Type 0} where
  -- What was sent to a watcher, in order.
  abbrev pub sent_to : ℕ → List (Event E) → List Transfer
  sent_to w [] = []
  sent_to w (watcher_sent v t ∷ events) = sent_to w events ++ (if eqb v w then t ∷ [] else [])
  sent_to w (_ ∷ events) = sent_to w events

  send_to-sent_to :
      (v w : ℕ) (ts : List Transfer) (q : Queue E)
      → sent_to w (send_to v ts q).events ≡ sent_to w q.events ++ (if eqb v w then ts else [])
  unfolding send_to
  send_to-sent_to v w [] q = elim (Bool-cases (eqb v w)) [
    | inl y ↦ rw y (sym (append-nil (sent_to w q.events)))
    | inr n ↦ rw n (sym (append-nil (sent_to w q.events)))
  ]
  send_to-sent_to v w (t ∷ ts) q =
      send_to-sent_to v w ts (emit (watcher_sent v t) q) ∙ elim (Bool-cases (eqb v w)) [
        | inl y ↦ rw y (append_assoc (sent_to w q.events) (t ∷ []) ts)
        | inr n ↦ rw n (append-nil (sent_to w q.events ++ []))
      ]

  send_each-sent_to :
      (ws : List ℕ) (w : ℕ) (ts : List Transfer) (q : Queue E)
      → Uniq ws
      → sent_to w (send_each ws ts q).events ≡ sent_to w q.events ++ (if elem w ws then ts else [])
  unfolding send_each elem
  send_each-sent_to [] w ts q u = sym (append-nil (sent_to w q.events))
  send_each-sent_to (v ∷ ws) w ts q u =
      send_each-sent_to ws w ts (send_to v ts q) u.1
      ∙ ap (λ s. s ++ (if elem w ws then ts else [])) (send_to-sent_to v w ts q)
      ∙ choose (sent_to w q.events) ts (eqb v w) (elem w ws)
          (λ y. ap (λ x. elem x ws) (sym ((eqb_iff v w).0 y)) ∙ u.0)

  -- When a transfer of an object that the queue knows succeeds, and no watcher is listed twice,
  -- every watcher is sent one update for each transfer that was added for the object, in order, and
  -- no other watcher is sent any; that object is marked as completed, and what is known of every
  -- other object stays.
  pub handle_transfer_result-delivers :
      (errs : Errors E) (q : Queue E) (retries : List ObjectTuple) (t : Transfer) (objs : Objects)
      → Uniq q.watchers
      → Dict.lookup t.oid q.transfers ≡ some objs
      → (p : Queue E) × (handle_transfer_result errs (q, retries) (record { of = t; error = none })
          ≡ some (p, retries))
        × ((w : ℕ)
            → sent_to w p.events
              ≡ sent_to w q.events ++ (if elem w q.watchers then map update objs.objects else []))
        × ((oid : Text)
            → Dict.lookup oid p.transfers ≡ (
                if t.oid == oid
                then some (record objs { completed = true })
                else Dict.lookup oid q.transfers))
  unfolding handle_transfer_result succeed
  handle_transfer_result-delivers errs q retries t objs u l =
      let marked = Dict.insert t.oid (record objs { completed = true }) q.transfers in
      let start : Queue E = record q { transfers = marked } in
      (
        emit wait_done (
            emit (transfer_finished t.name) (send_each q.watchers (map update objs.objects) start)),
        ground arith,
        λ w. send_each-sent_to q.watchers w (map update objs.objects) start u,
        λ oid.
            ap (λ m. Dict.lookup oid m) (send_each-transfers q.watchers _ start)
            ∙ lookup-insert t.oid oid (record objs { completed = true }) q.transfers,
      )
