-- ===== src/Creds/Filling.antt =====
-- Which helper's answer `CredentialHelpers.Fill` of creds/creds.go takes, and which helpers it leaves
-- out from then on.
use git_lfs.Prelude.{
  ℕ, ◌+◌, ◌≡◌, ◌<◌, refl, ap, ◌∙◌, none, some, inl, inr, Bool-cases, List, [], ◌∷◌, ◌++◌, Text,
  text_comparable, number_comparable, eqb_iff, arith, elem, elem-append, if◌then◌else◌,
}
use git_lfs.Creds.{Creds, Helper, Memory, cred_no_op, failed, Filled, helper_fill}
use git_lfs.Creds.Chain.{FillResult, found_creds, no_creds_or, after_fill, fill_from, fill}

-- What the helpers that are not skipped answer, in order, with their numbers.
unfoldable pub answers_from :
    (i : ℕ) → List Helper → Memory → (skipped : List ℕ) → Creds → List (ℕ × Filled)
answers_from i [] memory skipped what = []
answers_from i (h ∷ helpers) memory skipped what =
    let rest = answers_from (i + 1) helpers memory skipped what in
    if elem i skipped then rest else (i, helper_fill h memory what) ∷ rest

-- The first credentials among answers, the numbers of the helpers that failed before, and their
-- messages.
unfoldable pub first_found :
    (failing : List ℕ) → (errors : List Text) → List (ℕ × Filled) → List ℕ × FillResult
first_found failing errors [] = (failing, no_creds_or errors)
first_found failing errors ((i, (creds, some (failed message))) ∷ answers) =
    first_found (failing ++ i ∷ []) (errors ++ message ∷ []) answers
first_found failing errors ((i, (creds, some cred_no_op)) ∷ answers) =
    first_found failing errors answers
first_found failing errors ((i, (some creds, none)) ∷ answers) = (failing, found_creds creds)
first_found failing errors ((i, (none, none)) ∷ answers) = first_found failing errors answers

-- A helper that is skipped from now on stands before the ones still to be asked.
answers-later :
    (i j : ℕ) (helpers : List Helper) (memory : Memory) (skipped : List ℕ) (what : Creds)
    → i < j
    → answers_from j helpers memory (skipped ++ i ∷ []) what
      ≡ answers_from j helpers memory skipped what
unfolding answers_from elem
answers-later i j [] memory skipped what h = refl
answers-later i j (x ∷ helpers) memory skipped what h =
    let same : elem j (skipped ++ i ∷ []) ≡ elem j skipped =
      ground (arith, elem-append j skipped (i ∷ []), eqb_iff i j) in
    let rest = answers_from (j + 1) helpers memory (skipped ++ i ∷ []) what in
    ap (λ b. if b then rest else (j, helper_fill x memory what) ∷ rest) same
    ∙ ap (λ rest. if elem j skipped then rest else (j, helper_fill x memory what) ∷ rest)
        (answers-later i (j + 1) helpers memory skipped what (omega (arith, h)))

fill_from-first_found :
    (i : ℕ) (helpers : List Helper) (memory : Memory) (skipped : List ℕ) (errors : List Text)
    (what : Creds)
    → fill_from i helpers memory skipped errors what
      ≡ first_found skipped errors (answers_from i helpers memory skipped what)
unfolding fill_from first_found answers_from
fill_from-first_found i [] memory skipped errors what = refl
fill_from-first_found i (h ∷ helpers) memory skipped errors what =
    elim (Bool-cases (elem i skipped)) [
      | inl y ↦
          rw (y, if◌then◌else◌) (fill_from-first_found (i + 1) helpers memory skipped errors what)
      | inr n ↦
          rw (n, if◌then◌else◌)
            (answered (helper_fill h memory what)
              (fill_from-first_found (i + 1) helpers memory skipped errors what)
              (λ message.
                fill_from-first_found (i + 1) helpers memory (skipped ++ i ∷ [])
                  (errors ++ message ∷ []) what
                ∙ ap (first_found (skipped ++ i ∷ []) (errors ++ message ∷ []))
                    (answers-later i (i + 1) helpers memory skipped what (omega arith))))
    ]
  where
    answered :
        (f : Filled)
        → fill_from (i + 1) helpers memory skipped errors what
          ≡ first_found skipped errors (answers_from (i + 1) helpers memory skipped what)
        → ((message : Text)
            → fill_from (i + 1) helpers memory (skipped ++ i ∷ []) (errors ++ message ∷ []) what
              ≡ first_found
                  (skipped ++ i ∷ [])
                  (errors ++ message ∷ [])
                  (answers_from (i + 1) helpers memory skipped what))
        → after_fill skipped f (fill_from (i + 1) helpers memory skipped errors what) (λ message.
          fill_from (i + 1) helpers memory (skipped ++ i ∷ []) (errors ++ message ∷ []) what)
          ≡ first_found skipped errors ((i, f) ∷ answers_from (i + 1) helpers memory skipped what)
    answered (creds, some (failed message)) same with_error = with_error message
    answered (creds, some cred_no_op) same with_error = same
    answered (some creds, none) same with_error = refl
    answered (none, none) same with_error = same

-- A fill asks the helpers that are not skipped in order and takes the first credentials that one
-- answers; the helpers that failed before it, and no others, are skipped from then on, and if none
-- answers credentials, their messages are the error.
pub fill-first_found :
    (helpers : List Helper) (memory : Memory) (skipped : List ℕ) (what : Creds)
    → fill helpers memory skipped what
      ≡ first_found skipped [] (answers_from 0 helpers memory skipped what)
unfolding fill
fill-first_found helpers memory skipped what =
    fill_from-first_found 0 helpers memory skipped [] what
