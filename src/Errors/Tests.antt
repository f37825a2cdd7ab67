-- ===== src/Errors/Tests.antt =====
-- Errors of errors/types.go at concrete chains.
use git_lfs.Prelude.{◌≡◌, ◌≢◌, refl, true, false, ◌||◌, some, codes, []}
use git_lfs.Errors.{
  Error, Kind, unprocessable_entity, foreign, plain, url_error, auth, not_a_pointer, retriable,
  new_error, new_retriable_error, new_not_a_pointer_error, new_fatal_error, is_kind, same_kind,
  is_retriable_error, root_cause,
}
use git_lfs.Errors.Chains.{new_error-hides}

abbrev refusal : Error
refusal = foreign (plain (codes "refused"))

abbrev unreachable : Error
unreachable = foreign (url_error false true)

hidden :
    is_kind not_a_pointer (new_retriable_error (some (new_not_a_pointer_error (some refusal))))
    ≡ false
unfolding is_kind new_retriable_error new_not_a_pointer_error
hidden = refl

timed_out : is_retriable_error (new_fatal_error (some unreachable)) ≡ true
unfolding is_retriable_error new_fatal_error root_cause
timed_out = refl

new_error-hides_example :
    ((k : Kind)
      → k ≢ retriable
      → is_kind k (
          new_error unprocessable_entity
            (some (new_error auth (some unreachable) (codes "login")))
            [])
        ≡ (same_kind unprocessable_entity k || is_kind k unreachable))
    × (is_retriable_error (
          new_error unprocessable_entity
            (some (new_error auth (some unreachable) (codes "login")))
            [])
        ≡ true)
unfolding root_cause new_error is_retriable_error is_kind
new_error-hides_example = new_error-hides unprocessable_entity auth unreachable (codes "login") (cc)
