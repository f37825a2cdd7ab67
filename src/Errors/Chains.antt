-- ===== src/Errors/Chains.antt =====
-- What the tests of errors/types.go find in a chain of errors.
use git_lfs.Prelude.{
  ◌≡◌, ◌≢◌, refl, sym, inl, inr, Option-cases, ap, ◌∙◌, Bool, false, ◌||◌, Option, none, some, [],
  ◌∷◌, Text,
}
use git_lfs.Errors.{
  Error, Kind, foreign, with_message, with_stack, typed, cause, and_then, parent_of, seek, is_kind,
  own_kind, same_kind, new_error, embedded, retriable, root_cause, is_retriable_error, Foreign,
  plain, url_error,
}

-- A test of an error that may be nil.
abbrev pub at_parent : Kind → Option Error → Bool
unfolding is_kind
at_parent k none = false
at_parent k (some e) = is_kind k e

seek-cause : (k : Kind) (e : Error) → seek k 1 e ≡ at_parent k (cause e)
unfolding seek is_kind at_parent
seek-cause k (foreign f) = refl
seek-cause k (with_message m e) = refl
seek-cause k (with_stack e) = refl
seek-cause k (typed j e) = seek-cause k e

seek-parent_of : (k : Kind) (e : Error) → seek k 2 e ≡ at_parent k (parent_of e)
unfolding seek parent_of at_parent
seek-parent_of k (foreign f) = refl
seek-parent_of k (with_message m e) = seek-cause k e
seek-parent_of k (with_stack e) = seek-cause k e
seek-parent_of k (typed j e) = seek-parent_of k e

-- The search for a kind along the chain is the recursion that the source writes: an error passes a
-- test if it is of that kind itself or its parent, if it has one, passes.
pub is_kind-parent_of :
    (k : Kind) (e : Error) → is_kind k e ≡ (own_kind k e || at_parent k (parent_of e))
unfolding is_kind seek parent_of
is_kind-parent_of k (foreign f) = refl
is_kind-parent_of k (with_message m e) = seek-cause k e
is_kind-parent_of k (with_stack e) = seek-cause k e
is_kind-parent_of k (typed j e) = ap (λ b. same_kind j k || b) (seek-parent_of k e)

root_cause-cause : (e p : Error) → cause e ≡ some p → root_cause p ≡ root_cause e
unfolding root_cause
root_cause-cause (foreign f) p h = cc
root_cause-cause (with_message m e) p h = ap root_cause (sym (some_injective h))
  where
    some_injective : {a b : Error} → some a ≡ some b → a ≡ b
    some_injective h = cc
root_cause-cause (with_stack e) p h = ap root_cause (sym (some_injective h))
  where
    some_injective : {a b : Error} → some a ≡ some b → a ≡ b
    some_injective h = cc
root_cause-cause (typed k e) p h = root_cause-cause e p h

-- What an error that is not of the kind itself says of retries: what its root says, if that is a
-- `url.Error`, and else what its parent says.
abbrev pub said_below : Foreign → Option Error → Bool
unfolding is_retriable_error
said_below (url_error temporary timeout) parent = temporary || timeout
said_below (plain message) none = false
said_below (plain message) (some p) = is_retriable_error p

plain_root :
    (e : Error) (message : Text)
    → root_cause e ≡ plain message
    → is_retriable_error e ≡ is_kind retriable e
unfolding is_retriable_error
plain_root e message h = rw (h, is_retriable_error) refl

root_cause-parent_of : (e p : Error) → parent_of e ≡ some p → root_cause p ≡ root_cause e
unfolding parent_of
root_cause-parent_of e p h = elim (Option-cases (cause e)) [
  | inl n ↦ absurd (nothing (ap and_then (sym n) ∙ h))
  | inr (c, y) ↦ root_cause-cause c p (ap and_then (sym y) ∙ h) ∙ root_cause-cause e c y
]
  where
    nothing : none ≢ some p
    nothing h = cc

-- The test for errors that can be retried is the recursion that the source writes: an error passes
-- if it is of that kind itself; else, if the root of its chain is a URL error, that decides by
-- being temporary or a timeout; else its parent decides, if it has one.
pub is_retriable_error-parent_of :
    (e : Error)
    → is_retriable_error e ≡ (own_kind retriable e || said_below (root_cause e) (parent_of e))
unfolding is_retriable_error said_below at_parent
is_retriable_error-parent_of e = by_root (root_cause e) refl
  where
    by_parent :
        (message : Text) (p : Option Error)
        → root_cause e ≡ plain message
        → parent_of e ≡ p
        → at_parent retriable p ≡ said_below (plain message) p
    by_parent message none r y = refl
    by_parent message (some p) r y = sym (plain_root p message (root_cause-parent_of e p y ∙ r))

    by_root :
        (f : Foreign)
        → root_cause e ≡ f
        → is_retriable_error e ≡ (own_kind retriable e || said_below f (parent_of e))
    by_root (url_error a b) r = rw (r, is_retriable_error) refl
    by_root (plain message) r =
        plain_root e message r
        ∙ is_kind-parent_of retriable e
        ∙ ap (λ b. own_kind retriable e || b) (by_parent message (parent_of e) r refl)

-- An error that is made without a message around one of the package's own, which has a message and
-- is made around a third, hides the kind of the one between. It passes the test of a kind, other
-- than the one for errors that can be retried, if it is of that kind or the third error passes; and
-- it can be retried if it is of that kind or, where the root of the chain is a URL error, that is
-- temporary or a timeout, and where it is not, the third error can be retried.
pub new_error-hides :
    (i j : Kind) (e : Error) (message : Text)
    → message ≢ []
    → ((k : Kind)
        → k ≢ retriable
        → is_kind k (new_error i (some (new_error j (some e) message)) [])
          ≡ (same_kind i k || is_kind k e))
      × (is_retriable_error (new_error i (some (new_error j (some e) message)) [])
          ≡ (same_kind i retriable || said_below (root_cause e) (some e)))
unfolding is_kind seek new_error embedded own_kind root_cause parent_of
new_error-hides i j e [] h = absurd (h refl)
new_error-hides i j e (c ∷ message) h = (
  λ k other. refl,
  is_retriable_error-parent_of (new_error i (some (new_error j (some e) (c ∷ message))) []) ∙ refl,
)
