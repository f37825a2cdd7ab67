-- ===== src/Tq/Collector/Starting.antt =====
-- The collector that a queue of tq/transfer_queue.go starts with, after the calls of Add.
use mathlib.Core.Path.{subst}
use git_lfs.Prelude.{
  ℕ, ◌+◌, ◌≤◌, ◌≡◌, ◌≢◌, refl, sym, ap, ◌∙◌, true, false, Option, none, some, inl, inr, Bool-cases,
  Option-cases, List, [], ◌∷◌, ◌++◌, append-nil, length, length-append, All-append, Text,
  text_comparable, ◌==◌, same_text_iff, elem, ltb, arith,
}
use git_lfs.Prelude.Dict
use git_lfs.Prelude.Dict.{Dict}
use git_lfs.Prelude.Dict.Laws.{lookup-insert}
use git_lfs.Tq.Batch.{ObjectTuple, Transfer, Batch, to_transfer}
use git_lfs.Tq.Queue.{
  Queue, Event, Objects, incoming, add, add_tuple, enqueue_new, append_object, send_to, send_each,
  first, first_of,
}
use git_lfs.Tq.Queue.Accounting.{dones, oldest, oldest_of, send_each-dones, IsFilled}
use git_lfs.Tq.Queue.Adding.{
  Addition, waits, send_each-quiet, remember_new, remember_known, insert-IsFilled, first-append,
}
use git_lfs.Tq.Queue.Spending.{Among, IsOwned}
use git_lfs.Tq.Collector.{Collector}
use git_lfs.Tq.Collector.Progress.{IsAccounted}

insert-own :
    (ks : List Text) (oid : Text) (objs : Objects) (transfers : Dict Text Objects)
    → elem oid ks ≡ true
    → ((t : ObjectTuple) → first objs ≡ some t → t.oid ≡ oid)
    → IsOwned ks transfers
    → IsOwned ks (Dict.insert oid objs transfers)
unfolding oldest IsOwned
insert-own ks oid objs transfers known h own k t e = elim (Bool-cases (oid == k)) [
  | inl y ↦
      let same = (same_text_iff oid k).0 y in
      (
        h t (rw (lookup-insert oid k objs transfers, y) at e) ∙ same,
        ap (λ o. elem o ks) (sym same) ∙ known,
      )
  | inr n ↦ own k t (rw (lookup-insert oid k objs transfers, n) at e)
]

-- What a longer list has more than its beginning.
unfoldable pub beyond : List ObjectTuple → List ObjectTuple → List ObjectTuple
beyond [] ys = ys
beyond (x ∷ xs) [] = []
beyond (x ∷ xs) (y ∷ ys) = beyond xs ys

beyond-append : (xs ys : List ObjectTuple) → beyond xs (xs ++ ys) ≡ ys
unfolding beyond
beyond-append [] ys = refl
beyond-append (x ∷ xs) ys = beyond-append xs ys

first_kept :
    (xs ys : List ObjectTuple) (s : ObjectTuple)
    → first_of xs ≢ none
    → first_of (xs ++ ys) ≡ some s
    → first_of xs ≡ some s
first_kept [] ys s n e = absurd (n refl)
first_kept (x ∷ xs) ys s n e = e

some_injective : {a b : ObjectTuple} → some a ≡ some b → a ≡ b
some_injective h = cc

module _ {E : Type 0} where
  -- The objects that were sent to be transferred, in order.
  abbrev pub sent_in : List (Event E) → List ObjectTuple
  sent_in [] = []
  sent_in (incoming t ∷ events) = sent_in events ++ t ∷ []
  sent_in (_ ∷ events) = sent_in events

  -- The collector of a queue that has just been made.
  abbrev pub new_collector : Queue E → Collector E
  new_collector q = record {
    queue = q;
    incoming = [];
    closed = false;
    closing = false;
    next = [];
    pending = [];
  }

  -- A call of Add: what it sends waits in the channel, or, where the channel is full, at its end.
  abbrev pub add_to : Collector E → Addition E → Collector E
  add_to c a =
      let q = add c.queue a.name a.path a.oid a.size a.missing a.error in
      record c {
        queue = q;
        incoming = c.incoming ++ beyond (sent_in c.queue.events) (sent_in q.events);
      }

  send_to-sent_in :
      (w : ℕ) (ts : List Transfer) (q : Queue E)
      → sent_in (send_to w ts q).events ≡ sent_in q.events
  unfolding send_to
  send_to-sent_in w [] q = refl
  send_to-sent_in w (t ∷ ts) q = send_to-sent_in w ts _

  send_each-sent_in :
      (ws : List ℕ) (ts : List Transfer) (q : Queue E)
      → sent_in (send_each ws ts q).events ≡ sent_in q.events
  unfolding send_each
  send_each-sent_in [] ts q = refl
  send_each-sent_in (w ∷ ws) ts q =
      send_each-sent_in ws ts (send_to w ts q) ∙ send_to-sent_in w ts q

  -- What a call of Add comes to: the objects `b` are sent and waited for, of those that are known.
  pub record Adds (ks : List Text) (p q : Queue E) (b : Batch) : Type 0 where
    pub owned : IsOwned ks q.transfers
    pub filled : IsFilled q.transfers
    pub among : Among ks b
    pub sent : sent_in q.events ≡ sent_in p.events ++ b
    pub waited_for : waits q.events ≡ waits p.events + length b
    pub undone : dones q.events ≡ dones p.events

  module _ (ks : List Text) (q : Queue E) (t : ObjectTuple) (named : elem t.oid ks ≡ true)
      (owned : IsOwned ks q.transfers) (filled : IsFilled q.transfers) where
    new-Adds : Dict.lookup t.oid q.transfers ≡ none → Adds ks q (add_tuple q t) (t ∷ [])
    unfolding add_tuple enqueue_new
    new-Adds l =
        let objs : Objects = record { completed = false; objects = t ∷ [] } in
        rw (remember_new q t l) (record {
          owned =
              insert-own ks t.oid objs q.transfers named
                (λ s e. ap (λ (t : ObjectTuple). t.oid) (some_injective (sym e))) owned;
          filled = insert-IsFilled t.oid objs q.transfers (λ e. some_is e) filled;
          among = (named, tt);
          sent = refl;
          waited_for = refl;
          undone = refl;
        })
      where
        some_is : some t ≢ none
        some_is e = cc

    -- An object that is known is only remembered, and sent to the watchers if it is done.
    again-Adds :
        (p : Queue E) (objs : Objects)
        → 2 ≤ length objs.objects
        → Adds ks q p []
        → Adds ks q (enqueue_new t (p, objs)) []
    unfolding enqueue_new
    again-Adds p objs two a =
        rw (two_lem (length objs.objects) two) (elim (Bool-cases objs.completed) [
          | inl y ↦
              let (incoming_same, waits_same, same) =
                send_each-quiet p.watchers (to_transfer t ∷ []) p in
              rw y (record {
                owned = subst (IsOwned ks) (sym same) a.owned;
                filled = subst IsFilled (sym same) a.filled;
                among = tt;
                sent = send_each-sent_in p.watchers (to_transfer t ∷ []) p ∙ a.sent;
                waited_for = waits_same ∙ a.waited_for;
                undone = send_each-dones p.watchers (to_transfer t ∷ []) p ∙ a.undone;
              })
          | inr n ↦ rw n a
        ])
      where
        two_lem : (n : ℕ) → 2 ≤ n → ltb 1 n ≡ true
        two_lem n h = ground arith

    known-Adds :
        (known : Objects)
        → Dict.lookup t.oid q.transfers ≡ some known
        → Adds ks q (add_tuple q t) []
    unfolding add_tuple IsFilled IsOwned oldest
    known-Adds known l =
        let objs : Objects = append_object known t in
        let start = filled t.oid known l in
        rw (remember_known q t known l) (
          again-Adds (record q { transfers = Dict.insert t.oid objs q.transfers }) objs
            (two known.objects start)
            (record {
              owned =
                  insert-own ks t.oid objs q.transfers named
                    (λ s e.
                      (owned t.oid s
                        (ap oldest_of l ∙ first_kept known.objects (t ∷ []) s start e)).0)
                    owned;
              filled =
                  insert-IsFilled t.oid objs q.transfers (first-append known.objects (t ∷ []) start)
                    filled;
              among = tt;
              sent = sym (append-nil (sent_in q.events));
              waited_for = omega arith;
              undone = refl;
            }))
      where
        two : (xs : List ObjectTuple) → first_of xs ≢ none → 2 ≤ length (xs ++ t ∷ [])
        two [] h = absurd (h refl)
        two (x ∷ xs) h = omega (arith, length-append xs (t ∷ []))

    add_tuple-Adds : (b : Batch) × Adds ks q (add_tuple q t) b
    add_tuple-Adds = elim (Option-cases (Dict.lookup t.oid q.transfers)) [
      | inl l ↦ (t ∷ [], new-Adds l)
      | inr (known, l) ↦ ([], known-Adds known l)
    ]

  add-Adds :
      (ks : List Text) (q : Queue E) (a : Addition E)
      → elem a.oid ks ≡ true
      → IsOwned ks q.transfers
      → IsFilled q.transfers
      → (b : Batch) × Adds ks q (add q a.name a.path a.oid a.size a.missing a.error) b
  unfolding add
  add-Adds ks q a named owned filled = by_error a.error
    where
      by_error :
          (e : Option E) → (b : Batch) × Adds ks q (add q a.name a.path a.oid a.size a.missing e) b
      by_error none = add_tuple-Adds ks q _ named owned filled
      by_error (some err) = (
        [],
        record {
          owned = owned;
          filled = filled;
          among = tt;
          sent = sym (append-nil (sent_in q.events));
          waited_for = omega arith;
          undone = refl;
        },
      )

  -- The collector, as it would be once the channel is closed.
  abbrev pub shut : Collector E → Collector E
  shut c = record c { closed = true }

  -- A call of Add keeps every object that is waited for accounted for.
  pub add_to-IsAccounted :
      (ks : List Text) (c : Collector E) (a : Addition E)
      → elem a.oid ks ≡ true
      → c.closing ≡ false
      → IsAccounted ks (shut c)
      → IsAccounted ks (shut (add_to c a))
  add_to-IsAccounted ks c a named still i =
      let (b, h) = add-Adds ks c.queue a named i.owned i.filled in
      let q = add c.queue a.name a.path a.oid a.size a.missing a.error in
      let new : beyond (sent_in c.queue.events) (sent_in q.events) ≡ b =
        ap (beyond (sent_in c.queue.events)) h.sent ∙ beyond-append (sent_in c.queue.events) b in
      record {
        closed = refl;
        drained = λ e. absurd (ground (arith, still));
        owned = h.owned;
        filled = h.filled;
        known_incoming =
            subst (λ b. Among ks (c.incoming ++ b)) (sym new)
              (All-append _ c.incoming b i.known_incoming h.among);
        known_next = i.known_next;
        known_pending = i.known_pending;
        total = omega (
          arith,
          i.total,
          h.undone,
          h.waited_for,
          ap length new,
          length-append c.incoming (beyond (sent_in c.queue.events) (sent_in q.events)),
        );
      }
