-- ===== src/Creds/Chain.antt =====
-- The chain of credential helpers: CredentialHelpers of creds/creds.go.
use git_lfs.Prelude.{
  ℕ, ◌+◌, Option, none, some, List, [], ◌∷◌, ◌++◌, Text, codes, text_comparable, number_comparable,
  elem, if◌then◌else◌,
}
use git_lfs.Creds.{
  Creds, Helper, Memory, CredError, cred_no_op, failed, Filled, helper_fill, helper_approve,
  helper_reject,
}

pub data FillResult : Type 0 where
  found_creds : Creds → FillResult
  no_creds : FillResult
  fill_errors : List Text → FillResult

abbrev pub no_creds_or : List Text → FillResult
no_creds_or [] = no_creds
no_creds_or (e ∷ errors) = fill_errors (e ∷ errors)

-- What `Fill` does with what a helper answers.
abbrev pub after_fill :
    (skipped : List ℕ)
    → Filled
    → List ℕ × FillResult
    → (Text → List ℕ × FillResult)
    → List ℕ × FillResult
after_fill skipped (creds, some (failed message)) next with_error = with_error message
after_fill skipped (creds, some cred_no_op) next with_error = next
after_fill skipped (some creds, none) next with_error = (skipped, found_creds creds)
after_fill skipped (none, none) next with_error = next

-- `CredentialHelpers.Fill` from helper `i` on: the helpers that are skipped from now on, and the
-- result.
unfoldable pub fill_from :
    (i : ℕ)
    → List Helper
    → Memory
    → (skipped : List ℕ) → (errors : List Text) → Creds
    → List ℕ × FillResult
unfolding helper_fill elem
fill_from i [] memory skipped errors what = (skipped, no_creds_or errors)
fill_from i (h ∷ helpers) memory skipped errors what =
    let next = fill_from (i + 1) helpers memory skipped errors what in
    if elem i skipped
    then next
    else after_fill skipped (helper_fill h memory what) next (λ message.
      fill_from (i + 1) helpers memory (skipped ++ i ∷ []) (errors ++ message ∷ []) what)

unfoldable pub fill : List Helper → Memory → (skipped : List ℕ) → Creds → List ℕ × FillResult
unfolding fill_from
fill helpers memory skipped what = fill_from 0 helpers memory skipped [] what

-- `Reject`: the error of the last line if no helper takes it.
unfoldable pub reject_from :
    (i : ℕ) → List Helper → Memory → (skipped : List ℕ) → Creds → Memory × Option CredError
unfolding helper_reject elem
reject_from i [] memory skipped what =
    (memory, some (failed (codes "no valid credential helpers to reject")))
reject_from i (h ∷ helpers) memory skipped what =
    if elem i skipped
    then reject_from (i + 1) helpers memory skipped what
    else after (helper_reject h memory what) (λ m. reject_from (i + 1) helpers m skipped what)
  where
    after :
        Memory × Option CredError → (Memory → Memory × Option CredError) → Memory × Option CredError
    after (m, some cred_no_op) next = next m
    after (m, some (failed message)) next = (m, some (failed message))
    after (m, none) next = (m, none)

-- The helpers before the one that fails are told to reject, those that are not skipped.
unfoldable pub reject_all : List Helper → Memory → Creds → Memory
unfolding helper_reject
reject_all [] memory what = memory
reject_all (h ∷ asked) memory what = reject_all asked (helper_reject h memory what).0 what

-- What `Approve` does with what a helper answers.
abbrev pub after_approve :
    (asked : List Helper)
    → Creds
    → Memory × Option CredError
    → (Memory → Memory × Option CredError)
    → Memory × Option CredError
after_approve asked what (m, some cred_no_op) next = next m
after_approve asked what (m, some (failed message)) next =
    (reject_all asked m what, some (failed message))
after_approve asked what (m, none) next = (m, none)

abbrev pub no_approval : Text
no_approval = codes "no valid credential helpers to approve"

unfoldable pub approve_from :
    (i : ℕ)
    → List Helper
    → (asked : List Helper) → Memory
    → (skipped : List ℕ) → Creds
    → Memory × Option CredError
unfolding helper_approve reject_all elem
approve_from i [] asked memory skipped what = (memory, some (failed no_approval))
approve_from i (h ∷ helpers) asked memory skipped what =
    if elem i skipped
    then approve_from (i + 1) helpers asked memory skipped what
    else after_approve asked what (helper_approve h memory what)
        (λ m. approve_from (i + 1) helpers (asked ++ h ∷ []) m skipped what)

unfoldable pub approve :
    List Helper → Memory → (skipped : List ℕ) → Creds → Memory × Option CredError
unfolding approve_from
approve helpers memory skipped what = approve_from 0 helpers [] memory skipped what
