-- ===== src/Errors.antt =====
-- errors/types.go and errors/errors.go: errors as chains of wrappers, and the tests of their kinds.
-- The library pkg/errors has a message in one layer and the stack in another around it. The stacks,
-- the texts of the messages, and the context of an error are not modelled.
pub mod Chains
mod Tests
use git_lfs.Prelude.{
  ℕ, zero, suc, ◌+◌, Bool, true, false, ◌||◌, Option, none, some, List, [], ◌∷◌, Text, codes, eqb,
  if◌then◌else◌,
}

-- The types of the package, by the test that they answer; `wrapped` is `wrappedError` itself.
pub data Kind : Type 0 where
  wrapped fatal not_implemented auth smudge clean_pointer not_a_pointer pointer_scan bad_pointer_key
        protocol download_declined unprocessable_entity retriable :
      Kind
  -- with the time at which to retry
  retriable_later : ℕ → Kind

-- An error without a method `Cause`.
pub data Foreign : Type 0 where
  plain : Text → Foreign
  -- a `url.Error`, with what `Temporary` and `Timeout` return
  url_error : (temporary timeout : Bool) → Foreign

pub data Error : Type 0 where
  foreign : Foreign → Error
  -- the two layers of pkg/errors
  with_message : Text → Error → Error
  with_stack : Error → Error
  -- a type of the package around an error that has a cause and a stack
  typed : Kind → Error → Error

-- The method `Cause`, if there is one.
abbrev pub cause : Error → Option Error
cause (foreign f) = none
cause (with_message m e) = some e
cause (with_stack e) = some e
cause (typed k e) = cause e

-- The function `Cause`: the first error without the method.
unfoldable pub root_cause : Error → Foreign
root_cause (foreign f) = f
root_cause (with_message m e) = root_cause e
root_cause (with_stack e) = root_cause e
root_cause (typed k e) = root_cause e

abbrev pub and_then : Option Error → Option Error
and_then none = none
and_then (some e) = cause e

unfoldable pub parent_of : Error → Option Error
parent_of e = and_then (cause e)

-- `errors.Wrap` of pkg/errors.
abbrev pub wrap : Error → Text → Error
wrap e message = with_stack (with_message message e)

-- The embedded error of `newWrappedError`: an error that has a cause and a stack is not wrapped again
-- if there is no message.
unfoldable pub embedded : Error → Text → Error
embedded e (c ∷ message) = wrap e (c ∷ message)
embedded (foreign f) [] = wrap (foreign f) (codes "LFS")
embedded (with_message m e) [] = wrap (with_message m e) (codes "LFS")
embedded (with_stack e) [] = with_stack e
embedded (typed k e) [] = typed k e

-- A nil error is `none`.
unfoldable pub new_error : Kind → Option Error → Text → Error
unfolding embedded
new_error k none message = typed k (embedded (foreign (plain (codes "Error"))) message)
new_error k (some e) message = typed k (embedded e message)

-- The constructors, with the messages that they give.
unfoldable pub new_fatal_error : Option Error → Error
unfolding new_error
new_fatal_error e = new_error fatal e (codes "Fatal error")

unfoldable pub new_not_implemented_error : Option Error → Error
unfolding new_error
new_not_implemented_error e = new_error not_implemented e (codes "Not implemented")

unfoldable pub new_auth_error : Option Error → Error
unfolding new_error
new_auth_error e = new_error auth e (codes "Authentication required")

unfoldable pub new_not_a_pointer_error : Option Error → Error
unfolding new_error
new_not_a_pointer_error e = new_error not_a_pointer e (codes "Pointer file error")

unfoldable pub new_unprocessable_entity_error : Option Error → Error
unfolding new_error
new_unprocessable_entity_error e = new_error unprocessable_entity e []

unfoldable pub new_retriable_error : Option Error → Error
unfolding new_error
new_retriable_error e = new_error retriable e []

unfoldable pub new_protocol_error : Text → Option Error → Error
unfolding new_error
new_protocol_error message e = new_error protocol e message

-- The number of a kind, by which kinds are compared; the time of `retriable_later` is no part of it.
abbrev pub kind_number : Kind → ℕ
kind_number wrapped = 0
kind_number fatal = 1
kind_number not_implemented = 2
kind_number auth = 3
kind_number smudge = 4
kind_number clean_pointer = 5
kind_number not_a_pointer = 6
kind_number pointer_scan = 7
kind_number bad_pointer_key = 8
kind_number protocol = 9
kind_number download_declined = 10
kind_number unprocessable_entity = 11
kind_number retriable = 12
kind_number (retriable_later t) = 13

abbrev pub same_kind : Kind → Kind → Bool
same_kind j k = eqb (kind_number j) (kind_number k)

-- Whether an error of a kind is found after a number of steps by `Cause`, or at a parent of it.
unfoldable pub seek : Kind → ℕ → Error → Bool
seek k n (foreign f) = false
seek k zero (with_message m e) = seek k 1 e
seek k (suc n) (with_message m e) = seek k n e
seek k zero (with_stack e) = seek k 1 e
seek k (suc n) (with_stack e) = seek k n e
seek k zero (typed j e) = same_kind j k || seek k 2 e
seek k (suc n) (typed j e) = seek k (suc n) e

-- The tests `IsFatalError` and the like, by the kind. At `retriable` it is only a part of
-- `is_retriable_error`.
unfoldable pub is_kind : Kind → Error → Bool
unfolding seek
is_kind k e = seek k 0 e

abbrev pub own_kind : Kind → Error → Bool
own_kind k (typed j e) = same_kind j k
own_kind k (foreign f) = false
own_kind k (with_message m e) = false
own_kind k (with_stack e) = false

-- `IsRetriableError`: at a `url.Error`, which is the root of all parents too, the question is settled.
unfoldable pub is_retriable_error : Error → Bool
unfolding is_kind root_cause
is_retriable_error e = elim (root_cause e) [
  | url_error temporary timeout ↦ own_kind retriable e || (temporary || timeout)
  | plain message ↦ is_kind retriable e
]

-- `IsRetriableLaterError`, after a number of steps by `Cause` as in `seek`.
unfoldable pub seek_time : ℕ → Error → Option ℕ
seek_time n (foreign f) = none
seek_time zero (with_message m e) = seek_time 1 e
seek_time (suc n) (with_message m e) = seek_time n e
seek_time zero (with_stack e) = seek_time 1 e
seek_time (suc n) (with_stack e) = seek_time n e
seek_time zero (typed j e) = elim (own_time j) [ some t ↦ some t | none ↦ seek_time 2 e ]
  where
    own_time : Kind → Option ℕ
    own_time (retriable_later t) = some t
    own_time _ = none
seek_time (suc n) (typed j e) = seek_time (suc n) e

unfoldable pub is_retriable_later_error : Error → Option ℕ
unfolding seek_time
is_retriable_later_error e = seek_time 0 e
