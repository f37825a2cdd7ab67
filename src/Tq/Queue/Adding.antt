-- ===== src/Tq/Queue/Adding.antt =====
-- What `Add` of tq/transfer_queue.go makes of any sequence of calls.
use mathlib.Core.Path.{subst}
use git_lfs.Prelude.{
  ℕ, ◌+◌, ◌≡◌, ◌≢◌, ◌≤◌, refl, sym, ap, ◌∙◌, Bool, true, false, Option, none, some, inl, inr,
  Bool-cases, Option-cases, List, [], ◌∷◌, ◌++◌, length, length-append, Text, text_comparable, ◌==◌,
  same_text_iff, arith, Uniq, ltb,
}
use git_lfs.Prelude.Int.{ℤ}
use git_lfs.Prelude.Dict
use git_lfs.Prelude.Dict.{Dict}
use git_lfs.Prelude.Dict.Laws.{keys, insert-Uniq, lookup-insert}
use git_lfs.Tq.Batch.{ObjectTuple, Transfer, to_transfer}
use git_lfs.Tq.Queue.{
  Queue, Event, Objects, wait_added, incoming, remember, add_tuple, enqueue_new, add, append_object,
  send_to, send_each, first, first_of, emit,
}
use git_lfs.Tq.Queue.Accounting.{IsFilled}

-- A write to a map adds the key at the end, or changes no key.
keys-insert-new :
    {V : Type 0} (k : Text) (v : V) (m : Dict Text V)
    → Dict.lookup k m ≡ none
    → keys (Dict.insert k v m) ≡ keys m ++ k ∷ []
unfolding Dict.lookup Dict.insert
keys-insert-new k v [] h = refl
keys-insert-new k v ((i, w) ∷ m) h = elim (Bool-cases (i == k)) [
  | inl y ↦ absurd (ground arith)
  | inr n ↦ rw n (ap (λ ks. i ∷ ks) (keys-insert-new k v m (ground arith)))
]

keys-insert-known :
    {V : Type 0} (k : Text) (v found : V) (m : Dict Text V)
    → Dict.lookup k m ≡ some found
    → keys (Dict.insert k v m) ≡ keys m
unfolding Dict.lookup Dict.insert
keys-insert-known k v found [] h = cc
keys-insert-known k v found ((i, w) ∷ m) h = elim (Bool-cases (i == k)) [
  | inl y ↦ rw y (ap (λ j. j ∷ keys m) (sym ((same_text_iff i k).0 y)))
  | inr n ↦ rw n (ap (λ ks. i ∷ ks) (keys-insert-known k v found m (ground arith)))
]

pub first-append : (xs ys : List ObjectTuple) → first_of xs ≢ none → first_of (xs ++ ys) ≢ none
first-append [] ys h = absurd (h refl)
first-append (x ∷ xs) ys h = h

pub insert-IsFilled :
    (oid : Text) (objs : Objects) (transfers : Dict Text Objects)
    → first objs ≢ none
    → IsFilled transfers
    → IsFilled (Dict.insert oid objs transfers)
unfolding IsFilled
insert-IsFilled oid objs transfers n filled k found l e = elim (Bool-cases (oid == k)) [
  | inl y ↦ n (ap first (some_injective (rw (lookup-insert oid k objs transfers, y) at l)) ∙ e)
  | inr o ↦ filled k found (rw (lookup-insert oid k objs transfers, o) at l) e
]
  where
    some_injective : {a b : Objects} → some a ≡ some b → a ≡ b
    some_injective h = cc

-- The arguments of a call of `Add`.
pub record Addition (E : Type 0) : Type 0 where
  pub name : Text
  pub path : Text
  pub oid : Text
  pub size : ℤ
  pub missing : Bool
  pub error : Option E

module _ {E : Type 0} where
  -- The objects that were sent to be transferred, in order, and how often the wait group was added to.
  abbrev pub incoming_oids : List (Event E) → List Text
  incoming_oids [] = []
  incoming_oids (incoming t ∷ events) = incoming_oids events ++ t.oid ∷ []
  incoming_oids (_ ∷ events) = incoming_oids events

  abbrev pub waits : List (Event E) → ℕ
  waits [] = 0
  waits (wait_added ∷ events) = waits events + 1
  waits (_ ∷ events) = waits events

  -- Each object that the queue remembers was sent, and is waited for, once, in the order in which
  -- they came; and has a first transfer.
  pub record IsTidy (q : Queue E) : Type 0 where
    pub distinct : Uniq (keys q.transfers)
    pub sent : incoming_oids q.events ≡ keys q.transfers
    pub waited_for : waits q.events ≡ length (keys q.transfers)
    pub filled : IsFilled q.transfers

  send_to-quiet :
      (w : ℕ) (ts : List Transfer) (q : Queue E)
      → (incoming_oids (send_to w ts q).events ≡ incoming_oids q.events)
        × (waits (send_to w ts q).events ≡ waits q.events)
        × ((send_to w ts q).transfers ≡ q.transfers)
  unfolding send_to
  send_to-quiet w [] q = (refl, refl, refl)
  send_to-quiet w (t ∷ ts) q = send_to-quiet w ts _

  pub send_each-quiet :
      (ws : List ℕ) (ts : List Transfer) (q : Queue E)
      → (incoming_oids (send_each ws ts q).events ≡ incoming_oids q.events)
        × (waits (send_each ws ts q).events ≡ waits q.events)
        × ((send_each ws ts q).transfers ≡ q.transfers)
  unfolding send_each
  send_each-quiet [] ts q = (refl, refl, refl)
  send_each-quiet (w ∷ ws) ts q =
      let (a, b, c) = send_each-quiet ws ts (send_to w ts q) in
      let (d, e, f) = send_to-quiet w ts q in (a ∙ d, b ∙ e, c ∙ f)

  pub remember_new :
      (q : Queue E) (t : ObjectTuple)
      → Dict.lookup t.oid q.transfers ≡ none
      → remember q t ≡ (
        record (emit wait_added q) {
          transfers =
              Dict.insert t.oid (record { completed = false; objects = t ∷ [] }) q.transfers;
        },
        record { completed = false; objects = t ∷ [] },
      )
  unfolding remember
  remember_new q t l = rw (l, remember) refl

  pub remember_known :
      (q : Queue E) (t : ObjectTuple) (known : Objects)
      → Dict.lookup t.oid q.transfers ≡ some known
      → remember q t ≡ (
        record q { transfers = Dict.insert t.oid (append_object known t) q.transfers },
        append_object known t,
      )
  unfolding remember
  remember_known q t known l = rw (l, remember) refl

  -- An object that is new.
  new-IsTidy :
      (q : Queue E) (t : ObjectTuple)
      → Dict.lookup t.oid q.transfers ≡ none
      → IsTidy q
      → IsTidy (enqueue_new t (remember q t))
  unfolding enqueue_new
  new-IsTidy q t l tidy =
      let objs : Objects = record { completed = false; objects = t ∷ [] } in
      let grown = keys-insert-new t.oid objs q.transfers l in
      rw (remember_new q t l) (record {
        distinct = insert-Uniq t.oid objs q.transfers tidy.distinct;
        sent = ap (λ ks. ks ++ t.oid ∷ []) tidy.sent ∙ sym grown;
        waited_for =
            rw grown
              (omega (arith, tidy.waited_for, length-append (keys q.transfers) (t.oid ∷ [])));
        filled = insert-IsFilled t.oid objs q.transfers (λ e. some_is e) tidy.filled;
      })
    where
      some_is : some t ≢ none
      some_is e = cc

  -- To send a transfer to the watchers alone changes nothing that counts here.
  send_each-IsTidy :
      (ws : List ℕ) (ts : List Transfer) (q : Queue E) → IsTidy q → IsTidy (send_each ws ts q)
  send_each-IsTidy ws ts q tidy =
      let (sent, waited, same) = send_each-quiet ws ts q in
      record {
        distinct = subst (λ m. Uniq (keys m)) (sym same) tidy.distinct;
        sent = sent ∙ tidy.sent ∙ sym (ap keys same);
        waited_for = waited ∙ tidy.waited_for ∙ sym (ap (λ m. length (keys m)) same);
        filled = subst IsFilled (sym same) tidy.filled;
      }

  enqueue_new-IsTidy :
      (q : Queue E) (t : ObjectTuple) (objs : Objects)
      → 2 ≤ length objs.objects
      → IsTidy q
      → IsTidy (enqueue_new t (q, objs))
  unfolding enqueue_new
  enqueue_new-IsTidy q t objs two tidy =
      rw (two_lem (length objs.objects) two) (elim (Bool-cases objs.completed) [
        | inl y ↦ rw y (send_each-IsTidy q.watchers (to_transfer t ∷ []) q tidy)
        | inr n ↦ rw n tidy
      ])
    where
      two_lem : (n : ℕ) → 2 ≤ n → ltb 1 n ≡ true
      two_lem n h = ground arith

  -- What is known is only remembered, and sent to the watchers if it is done.
  known-IsTidy :
      (q : Queue E) (t : ObjectTuple) (known : Objects)
      → Dict.lookup t.oid q.transfers ≡ some known
      → IsTidy q
      → IsTidy (enqueue_new t (remember q t))
  unfolding IsFilled
  known-IsTidy q t known l tidy =
      let objs : Objects = append_object known t in
      let same = keys-insert-known t.oid objs known q.transfers l in
      let start = tidy.filled t.oid known l in
      rw (remember_known q t known l) (
        enqueue_new-IsTidy _ t objs (two known.objects start) (record {
          distinct = insert-Uniq t.oid objs q.transfers tidy.distinct;
          sent = tidy.sent ∙ sym same;
          waited_for = tidy.waited_for ∙ sym (ap length same);
          filled =
              insert-IsFilled t.oid objs q.transfers (first-append known.objects (t ∷ []) start)
                tidy.filled;
        }))
    where
      two : (xs : List ObjectTuple) → first_of xs ≢ none → 2 ≤ length (xs ++ t ∷ [])
      two [] h = absurd (h refl)
      two (x ∷ xs) h = omega (arith, length-append xs (t ∷ []))

  pub add_tuple-IsTidy : (q : Queue E) (t : ObjectTuple) → IsTidy q → IsTidy (add_tuple q t)
  unfolding add_tuple
  add_tuple-IsTidy q t tidy = elim (Option-cases (Dict.lookup t.oid q.transfers)) [
    | inl l ↦ new-IsTidy q t l tidy
    | inr (known, l) ↦ known-IsTidy q t known l tidy
  ]

  abbrev pub add_all : Queue E → List (Addition E) → Queue E
  add_all q [] = q
  add_all q (a ∷ more) = add_all (add q a.name a.path a.oid a.size a.missing a.error) more

  -- Any sequence of calls of `Add` keeps a queue in a state in which the objects that were sent to
  -- be transferred are the remembered ones in the order in which they came, each once; the wait
  -- group was added to once for each; and each has a first transfer.
  pub add_all-IsTidy : (q : Queue E) (more : List (Addition E)) → IsTidy q → IsTidy (add_all q more)
  unfolding add
  add_all-IsTidy q [] tidy = tidy
  add_all-IsTidy q (a ∷ more) tidy =
      add_all-IsTidy (add q a.name a.path a.oid a.size a.missing a.error) more (add-IsTidy a.error)
    where
      add-IsTidy : (e : Option E) → IsTidy (add q a.name a.path a.oid a.size a.missing e)
      add-IsTidy none = add_tuple-IsTidy q _ tidy
      add-IsTidy (some err) = record {
        distinct = tidy.distinct;
        sent = tidy.sent;
        waited_for = tidy.waited_for;
        filled = tidy.filled;
      }
