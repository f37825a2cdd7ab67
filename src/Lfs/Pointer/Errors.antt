-- ===== src/Lfs/Pointer/Errors.antt =====
-- The errors of the decoder in lfs/pointer.go, by where they arise, with what errors/types.go says
-- of them.
use git_lfs.Prelude.{ℕ, Bool, true, false, Text, codes, ◌==◌, text_comparable, if◌then◌else◌}

pub data PointerError : Type 0 where
  -- wrapped by `NewNotAPointerError`
  over_cutoff invalid_header missing_version : PointerError
  error_reading_line extra_line : Text → PointerError
  -- a bad key where `version` was expected, after `StandardizeBadPointerError`
  not_a_version : Text → PointerError
  -- `NewBadPointerKeyError(expected, actual)`
  bad_pointer_key : Text → Text → PointerError
  read_failed no_oid invalid_size : PointerError
  invalid_version invalid_oid_value invalid_oid_type invalid_oid invalid_extension_value
        invalid_priority :
      Text → PointerError
  duplicate_priority : ℕ → PointerError

-- A value or the error that stops the decoder.
pub data Decoded {ι} (Val : Type ι) : Type ι where
  refused : PointerError → Decoded Val
  decoded : Val → Decoded Val

infixl 5 ◌>>=◌
abbrev pub ◌>>=◌ {ι ν} :
    {Val : Type ι} {Next : Type ν} → Decoded Val → (Val → Decoded Next) → Decoded Next
refused why >>= _ = refused why
decoded v >>= next = next v

-- `errors.IsNotAPointerError`
unfoldable pub is_not_a_pointer_error : PointerError → Bool
is_not_a_pointer_error over_cutoff = true
is_not_a_pointer_error invalid_header = true
is_not_a_pointer_error missing_version = true
is_not_a_pointer_error (error_reading_line _) = true
is_not_a_pointer_error (extra_line _) = true
is_not_a_pointer_error (not_a_version _) = true
is_not_a_pointer_error _ = false

-- `StandardizeBadPointerError`
unfoldable pub standardize : PointerError → PointerError
standardize (bad_pointer_key expected actual) =
    if expected == codes "version" then not_a_version actual else bad_pointer_key expected actual
standardize e = e
