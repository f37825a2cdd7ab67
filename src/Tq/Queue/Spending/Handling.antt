-- ===== src/Tq/Queue/Spending/Handling.antt =====
-- What the results of the adapter change, in tq/transfer_queue.go.
use mathlib.Core.Path.{subst}
use git_lfs.Prelude.{
  ℕ, ◌≤◌, ◌≡◌, ◌≢◌, refl, sym, ap, ◌∙◌, Bool, true, false, Option, none, some, inl, inr, Bool-cases,
  Option-cases, List, [], ◌∷◌, ◌++◌, All-append, Text, text_comparable, arith, elem, if◌then◌else◌,
  map,
}
use git_lfs.Prelude.Dict
use git_lfs.Prelude.Dict.{Dict}
use git_lfs.Tq.Retries.{can_retry}
use git_lfs.Tq.Batch.{ObjectTuple, Transfer}
use git_lfs.Tq.Queue.{
  Queue, Errors, Objects, can_retry_object, can_retry_object_later, first, emit, wait_done,
  error_sent, transfer_finished, send_each, send_to,
}
use git_lfs.Tq.Queue.Results.{
  TransferResult, handle_transfer_result, send_retry, give_up, succeed, update,
}
use git_lfs.Tq.Queue.Enqueue.{run}
use git_lfs.Tq.Queue.Accounting.{dones, oldest, oldest_of, IsFilled, send_each-dones}
use git_lfs.Tq.Queue.Settling.{oldest-completed, send_each-transfers}
use git_lfs.Tq.Queue.Adding.{insert-IsFilled, waits, send_each-quiet}
use git_lfs.Tq.Queue.Spending.{Among, Permitted, IsOwned, run_keeps}
use git_lfs.Tq.Queue.Spending.Retries.{can_retry_object-permitted, can_retry_object_later-permitted}
use git_lfs.Tq.Queue.Spending.Preparing.{IsOwned-kept}

module _ {E : Type 0} (ks : List Text) (errs : Errors E) where
  -- What the results of the adapter change: the counters stay until the retries are queued.
  pub record Handles (a b : Queue E × List ObjectTuple) : Type 0 where
    pub same_rc : b.0.rc ≡ a.0.rc
    pub settled : dones a.0.events ≤ dones b.0.events
    pub waited : waits b.0.events ≡ waits a.0.events
    pub same_oldest : (k : Text) → oldest b.0.transfers k ≡ oldest a.0.transfers k
    pub filled : IsFilled a.0.transfers → IsFilled b.0.transfers
    pub permitted : Among ks a.1 × Permitted a.0.rc a.1 → Among ks b.1 × Permitted b.0.rc b.1

  pub Handles-refl : (a : Queue E × List ObjectTuple) → Handles a a
  Handles-refl a = record {
    same_rc = refl;
    settled = omega arith;
    waited = refl;
    same_oldest = λ k. refl;
    filled = λ f. f;
    permitted = λ h. h;
  }

  pub Handles-trans : (a b c : Queue E × List ObjectTuple) → Handles a b → Handles b c → Handles a c
  Handles-trans a b c p q = record {
    same_rc = q.same_rc ∙ p.same_rc;
    settled = omega (arith, p.settled, q.settled);
    waited = q.waited ∙ p.waited;
    same_oldest = λ k. q.same_oldest k ∙ p.same_oldest k;
    filled = λ f. q.filled (p.filled f);
    permitted = λ h. q.permitted (p.permitted h);
  }

  send_each-rc : (ws : List ℕ) (ts : List Transfer) (q : Queue E) → (send_each ws ts q).rc ≡ q.rc
  unfolding send_each
  send_each-rc [] ts q = refl
  send_each-rc (w ∷ ws) ts q = send_each-rc ws ts _ ∙ sends w ts q
    where
      sends : (w : ℕ) (ts : List Transfer) (q : Queue E) → (send_to w ts q).rc ≡ q.rc
      sends w [] q = refl
      sends w (t ∷ ts) q = sends w ts _

  pub quiet-Handles :
      (q r : Queue E)
      → r.rc ≡ q.rc
      → r.transfers ≡ q.transfers
      → dones q.events ≤ dones r.events
      → waits r.events ≡ waits q.events
      → Handles (q, []) (r, [])
  quiet-Handles q r same kept h w = record {
    same_rc = same;
    settled = h;
    waited = w;
    same_oldest = λ k. ap (λ m. oldest m k) kept;
    filled = λ f. subst IsFilled (sym kept) f;
    permitted = λ a. (tt, tt);
  }

  push-Handles :
      (q : Queue E) (retries : List ObjectTuple) (t : ObjectTuple)
      → (can_retry q.rc t.oid).1 ≡ true
      → elem t.oid ks ≡ true
      → Handles (q, retries) (q, retries ++ t ∷ [])
  push-Handles q retries t h known = record {
    same_rc = refl;
    settled = omega arith;
    waited = refl;
    same_oldest = λ k. refl;
    filled = λ f. f;
    permitted = λ (a, b). (All-append _ retries _ a (known, tt), All-append _ retries _ b (h, tt));
  }

  send_retry-Handles :
      (ready : Option ℕ) (oid : Text) (err : E) (q : Queue E) (retries : List ObjectTuple)
      (p : Queue E × List ObjectTuple)
      → send_retry errs ready oid err (q, retries) ≡ some p
      → (can_retry q.rc oid).1 ≡ true
      → IsOwned ks q.transfers
      → Handles (q, retries) p
  unfolding send_retry IsOwned oldest
  send_retry-Handles ready oid err q retries p e h owned =
      elim (Option-cases (Dict.lookup oid q.transfers)) [
        | inl l ↦
            subst (Handles (q, retries)) (injective (q', retries) p (sym (step_unknown l) ∙ e))
              (record {
                same_rc = refl;
                settled = omega arith;
                waited = refl;
                same_oldest = λ k. refl;
                filled = λ f. f;
                permitted = λ a. a;
              })
        | inr (objs, l) ↦ elim (Option-cases (first objs)) [
          | inl f ↦ absurd (ground arith)
          | inr (t, f) ↦
              let (same, known) = owned oid t (ap oldest_of l ∙ f) in
              elim (Option-cases ready) [
                | inl n ↦
                    subst (Handles (q, retries)) (injective (q, retries ++ t ∷ []) p (ground arith))
                      (push-Handles q retries t (ap (λ i. (can_retry q.rc i).1) same ∙ h)
                        (ap (λ i. elem i ks) same ∙ known))
                | inr (time, r) ↦
                    subst (Handles (q, retries))
                      (injective (q, retries ++ record t { ready_time = time } ∷ []) p
                        (ground arith))
                      (push-Handles q retries (record t { ready_time = time })
                        (ap (λ i. (can_retry q.rc i).1) same ∙ h)
                        (ap (λ i. elem i ks) same ∙ known))
              ]
        ]
      ]
    where
      q' : Queue E
      q' = emit (error_sent err) q

      step_unknown :
          Dict.lookup oid q.transfers ≡ none
          → send_retry errs ready oid err (q, retries) ≡ some (q', retries)
      step_unknown l = ground arith

      injective : (a b : Queue E × List ObjectTuple) → some a ≡ some b → a ≡ b
      injective a b h = cc

  give_up-Handles :
      (err : E) (q : Queue E) (retries : List ObjectTuple)
      → Handles (q, retries) (give_up errs err q, retries)
  unfolding give_up
  give_up-Handles err q retries = go (errs.is_unprocessable_entity err)
    where
      go :
          (b : Bool)
          → Handles
              (q, retries)
              (
                emit wait_done (
                    if b
                    then record q { unsupported_content_type = true }
                    else emit (error_sent err) q),
                retries,
              )
      go true = record {
        same_rc = refl;
        settled = omega arith;
        waited = refl;
        same_oldest = λ k. refl;
        filled = λ f. f;
        permitted = λ a. a;
      }
      go false = record {
        same_rc = refl;
        settled = omega arith;
        waited = refl;
        same_oldest = λ k. refl;
        filled = λ f. f;
        permitted = λ a. a;
      }

  first_some :
      (oid : Text) (objs : Objects) (transfers : Dict Text Objects)
      → Dict.lookup oid transfers ≡ some objs
      → IsFilled transfers
      → first objs ≢ none
  unfolding IsFilled
  first_some oid objs transfers l f = f oid objs l

  succeed-Handles :
      (t : Transfer) (q : Queue E) (retries : List ObjectTuple) (objs : Objects)
      → Dict.lookup t.oid q.transfers ≡ some objs
      → (p : Queue E) × (succeed errs t q ≡ some p) × Handles (q, retries) (p, retries)
  unfolding succeed
  succeed-Handles t q retries objs l =
      let marked = Dict.insert t.oid (record objs { completed = true }) q.transfers in
      let ts = map update objs.objects in
      let start : Queue E = record q { transfers = marked } in
      let sent = send_each q.watchers ts start in
      let same = send_each-transfers q.watchers ts start in
      let rc = send_each-rc q.watchers ts start in
      (
        emit wait_done (emit (transfer_finished t.name) sent),
        ground arith,
        record {
          same_rc = rc;
          settled = omega (arith, send_each-dones q.watchers ts start);
          waited = (send_each-quiet q.watchers ts start).1;
          same_oldest =
              λ k. ap (λ m. oldest m k) same ∙ oldest-completed q.transfers t.oid objs l k;
          filled = λ f. subst IsFilled (sym same) (
              insert-IsFilled t.oid (record objs { completed = true }) q.transfers
                (first_some t.oid objs q.transfers l f) f);
          permitted = λ (a, b). (a, subst (λ c. Permitted c retries) (sym rc) b);
        },
      )

  succeed_lost :
      (t : Transfer) (q : Queue E) → Dict.lookup t.oid q.transfers ≡ none → succeed errs t q ≡ none
  unfolding succeed
  succeed_lost t q l = ground arith

  handle_transfer_result-Handles :
      (q : Queue E) (retries : List ObjectTuple) (p : Queue E × List ObjectTuple)
      (res : TransferResult E)
      → handle_transfer_result errs (q, retries) res ≡ some p
      → IsOwned ks q.transfers
      → Handles (q, retries) p
  unfolding handle_transfer_result
  handle_transfer_result-Handles q retries p res e owned = elim (Option-cases res.error) [
    | inl n ↦ elim (Option-cases (Dict.lookup res.of.oid q.transfers)) [
      | inl l ↦ absurd (ground (arith, succeed_lost res.of q l))
      | inr (objs, l) ↦
          let (q', done, h) = succeed-Handles res.of q retries objs l in
          subst (Handles (q, retries)) (injective (q', retries) p (ground arith)) h
    ]
    | inr (err, r) ↦ elim (Option-cases (can_retry_object_later errs q res.of.oid err)) [
      | inr (time, l) ↦
          send_retry-Handles (some time) res.of.oid err q retries p (ground arith)
            (can_retry_object_later-permitted ks errs 0 q res.of.oid err time l) owned
      | inl l ↦ elim (Bool-cases (can_retry_object errs q res.of.oid err)) [
        | inl y ↦
            send_retry-Handles none res.of.oid err q retries p (ground arith)
              (can_retry_object-permitted ks errs 0 q res.of.oid err y) owned
        | inr m ↦
            subst (Handles (q, retries)) (injective (give_up errs err q, retries) p (ground arith))
              (give_up-Handles err q retries)
      ]
    ]
  ]
    where
      injective : (a b : Queue E × List ObjectTuple) → some a ≡ some b → a ≡ b
      injective a b h = cc

  pub handle_results-Handles :
      (results : List (TransferResult E)) (s p : Queue E × List ObjectTuple)
      → run (handle_transfer_result errs) s results ≡ some p
      → IsOwned ks s.0.transfers
      → Handles s p
  handle_results-Handles results s p e =
      run_keeps (handle_transfer_result errs) (λ s p. IsOwned ks s.0.transfers → Handles s p)
        (λ s o. Handles-refl s)
        (λ s t u f g o.
          Handles-trans s t u (f o) (g (IsOwned-kept ks errs s t (f o).same_oldest o)))
        (λ s t a l o. handle_transfer_result-Handles s.0 s.1 t a l o) s p results e
