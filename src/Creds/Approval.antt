-- ===== src/Creds/Approval.antt =====
-- What a failed approval leaves in the cache of creds/creds.go.
use git_lfs.Prelude.{
  ℕ, ◌+◌, ◌≡◌, ◌⊎◌, refl, ap, ◌∙◌, Bool, true, false, Option, none, some, inl, inr, Bool-cases,
  Option-cases, List, [], ◌∷◌, ◌++◌, codes, text_comparable, number_comparable, ◌==◌, eq_refl, elem,
  if◌then◌else◌,
}
use git_lfs.Prelude.Dict
use git_lfs.Prelude.Dict.{Dict}
use git_lfs.Prelude.Dict.Laws.{lookup-delete}
use git_lfs.Creds.{
  Creds, Helper, netrc_helper, credential_cacher, ask_pass_helper, command_helper, Memory,
  CredError, cred_no_op, failed, cred_cache_key, netrc_hostname, mark_netrc, reject_cached,
  helper_approve, helper_reject, field_of,
}
use git_lfs.Creds.Chain.{reject_all, after_approve, approve_from, approve, no_approval}

-- The cache has nothing for the credentials.
unfoldable pub IsUncached : Creds → Memory → Type 0
IsUncached what memory = Dict.lookup (cred_cache_key what) memory.cached ≡ none

mark_netrc-cached :
    (skip : Bool) (memory : Memory) (what : Creds)
    → (mark_netrc skip memory what).0.cached ≡ memory.cached
unfolding mark_netrc
mark_netrc-cached skip memory what =
    elim (Bool-cases (field_of what (codes "source") == codes "netrc")) [
      | inr n ↦ rw (n, if◌then◌else◌) refl
      | inl y ↦ elim (Option-cases (netrc_hostname (field_of what (codes "host")))) [
        | inl e ↦ rw (y, if◌then◌else◌) (rw e refl)
        | inr (host, e) ↦ rw (y, if◌then◌else◌) (rw e refl)
      ]
    ]

reject_cached-IsUncached :
    (memory : Memory) (what : Creds) → IsUncached what (reject_cached memory what).0
unfolding IsUncached reject_cached
reject_cached-IsUncached memory what =
    lookup-delete (cred_cache_key what) (cred_cache_key what) memory.cached
    ∙ rw (eq_refl (cred_cache_key what), if◌then◌else◌) refl

-- No helper puts credentials into the cache when it rejects them.
helper_reject-IsUncached :
    (h : Helper) (memory : Memory) (what : Creds)
    → IsUncached what memory
    → IsUncached what (helper_reject h memory what).0
unfolding helper_reject IsUncached
helper_reject-IsUncached (netrc_helper find) memory what u =
    ap (Dict.lookup (cred_cache_key what)) (mark_netrc-cached true memory what) ∙ u
helper_reject-IsUncached credential_cacher memory what u = reject_cached-IsUncached memory what
helper_reject-IsUncached (ask_pass_helper username password) memory what u = u
helper_reject-IsUncached (command_helper skip_prompt git) memory what u = u

reject_all-IsUncached :
    (asked : List Helper) (memory : Memory) (what : Creds)
    → IsUncached what memory
    → IsUncached what (reject_all asked memory what)
unfolding reject_all
reject_all-IsUncached [] memory what u = u
reject_all-IsUncached (h ∷ asked) memory what u =
    reject_all-IsUncached asked (helper_reject h memory what).0 what
      (helper_reject-IsUncached h memory what u)

-- The cache is first among the helpers that were asked.
reject_first-IsUncached :
    (asked : List Helper) (memory : Memory) (what : Creds)
    → IsUncached what (reject_all (credential_cacher ∷ asked) memory what)
unfolding reject_all helper_reject
reject_first-IsUncached asked memory what =
    reject_all-IsUncached asked (reject_cached memory what).0 what
      (reject_cached-IsUncached memory what)

-- An approval that fails at a helper, and not for want of one.
abbrev pub LeavesUncached : Creds → Memory × Option CredError → Type 0
LeavesUncached what (memory, none) = Unit
LeavesUncached what (memory, some cred_no_op) = ⊥
LeavesUncached what (memory, some (failed message)) =
    (message ≡ no_approval) ⊎ IsUncached what memory

after_approve-LeavesUncached :
    (asked : List Helper) (what : Creds) (r : Memory × Option CredError)
    (next : Memory → Memory × Option CredError)
    → ((m : Memory) → LeavesUncached what (next m))
    → LeavesUncached what (after_approve (credential_cacher ∷ asked) what r next)
after_approve-LeavesUncached asked what (m, none) next h = tt
after_approve-LeavesUncached asked what (m, some cred_no_op) next h = h m
after_approve-LeavesUncached asked what (m, some (failed message)) next h =
    inr (reject_first-IsUncached asked m what)

approve_from-LeavesUncached :
    (i : ℕ) (helpers asked : List Helper) (memory : Memory) (skipped : List ℕ) (what : Creds)
    → LeavesUncached what (approve_from i helpers (credential_cacher ∷ asked) memory skipped what)
unfolding approve_from
approve_from-LeavesUncached i [] asked memory skipped what = inl refl
approve_from-LeavesUncached i (h ∷ helpers) asked memory skipped what =
    elim (elem i skipped)
      as (λ b. LeavesUncached what (
        if b
        then approve_from (i + 1) helpers (credential_cacher ∷ asked) memory skipped what
        else after_approve (credential_cacher ∷ asked) what (helper_approve h memory what) (λ m.
          approve_from (i + 1) helpers (credential_cacher ∷ (asked ++ h ∷ [])) m skipped what))) [
            | true ↦ approve_from-LeavesUncached (i + 1) helpers asked memory skipped what
            | false ↦
                after_approve-LeavesUncached asked what (helper_approve h memory what) _ (λ m.
                  approve_from-LeavesUncached (i + 1) helpers (asked ++ h ∷ []) m skipped what)
          ]

-- If the cache is the first of the helpers and is not skipped, then an approval that fails at one
-- of the others leaves nothing in the cache for the credentials, so that they are asked for anew;
-- the error that no helper takes them is the only other one.
pub approve-LeavesUncached :
    (helpers : List Helper) (memory : Memory) (skipped : List ℕ) (what : Creds)
    → elem 0 skipped ≡ false
    → LeavesUncached what (approve (credential_cacher ∷ helpers) memory skipped what)
unfolding approve approve_from helper_approve
approve-LeavesUncached helpers memory skipped what asked =
    rw (asked, if◌then◌else◌) (by_cache (Dict.lookup (cred_cache_key what) memory.cached))
  where
    by_cache :
        (found : Option Creds)
        → LeavesUncached what (
            after_approve [] what
              (elim found as (λ _. Memory × Option CredError) [
                | none ↦ (
                  record memory { cached = Dict.insert (cred_cache_key what) what memory.cached },
                  some cred_no_op,
                )
                | some creds ↦ (memory, none)
              ])
              (λ m. approve_from (0 + 1) helpers (credential_cacher ∷ []) m skipped what))
    by_cache none = approve_from-LeavesUncached (0 + 1) helpers [] _ skipped what
    by_cache (some creds) = tt
