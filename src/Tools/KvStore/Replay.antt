-- ===== src/Tools/KvStore/Replay.antt =====
-- What a replay of changes onto a map gives: for each key its last change, or else the map's value.
use git_lfs.Prelude.{
  ◌≡◌, refl, ap, ◌∙◌, Option, none, some, List, [], ◌∷◌, ◌++◌, map, Text, text_comparable,
  same_text_iff, ◌==◌, ◌||◌, Bool, elem, arith, true, false, Bool-cases, inl, inr, if◌then◌else◌,
}
use git_lfs.Prelude.Dict
use git_lfs.Prelude.Dict.{Dict}
use git_lfs.Prelude.Dict.Laws.{lookup-insert, lookup-delete}
use git_lfs.Tools.KvStore.{Change, set_operation, remove_operation, apply, reapply}

module _ {V : Type 0} where
  -- The value that a change gives its key: `none` if it removes it.
  abbrev pub key_of : Change V → Text
  key_of (set_operation key _) = key
  key_of (remove_operation key) = key

  abbrev pub value_of : Change V → Option V
  value_of (set_operation _ value) = some value
  value_of (remove_operation _) = none

  -- The effect of a log on one key that had the value `before`.
  abbrev pub outcome : Text → Option V → List (Change V) → Option V
  outcome k before [] = before
  outcome k before (c ∷ log) = outcome k (if key_of c == k then value_of c else before) log

  pub lookup-apply :
      (base : Dict Text V) (c : Change V) (k : Text)
      → Dict.lookup k (apply base c) ≡ (if key_of c == k then value_of c else Dict.lookup k base)
  unfolding apply
  lookup-apply base (set_operation key value) k = lookup-insert key k value base
  lookup-apply base (remove_operation key) k = lookup-delete key k base

  pub lookup-reapply :
      (base : Dict Text V) (log : List (Change V)) (k : Text)
      → Dict.lookup k (reapply base log) ≡ outcome k (Dict.lookup k base) log
  unfolding reapply
  lookup-reapply base [] k = refl
  lookup-reapply base (c ∷ log) k =
      lookup-reapply (apply base c) log k ∙ ap (λ o. outcome k o log) (lookup-apply base c k)

  pub outcome-append :
      (k : Text) (before : Option V) (log more : List (Change V))
      → outcome k before (log ++ more) ≡ outcome k (outcome k before log) more
  outcome-append k before [] more = refl
  outcome-append k before (c ∷ log) more =
      outcome-append k (if key_of c == k then value_of c else before) log more

  pub outcome-removals :
      (k : Text) (before : Option V) (ks : List Text)
      → outcome k before (map (λ key. remove_operation key) ks)
        ≡ (if elem k ks then none else before)
  unfolding elem
  outcome-removals k before [] = refl
  outcome-removals k before (x ∷ ks) =
      ground (arith, outcome-removals k (if x == k then none else before) ks)

  -- Whether a log has a change of a key.
  abbrev pub touches : Text → List (Change V) → Bool
  touches k [] = false
  touches k (c ∷ log) = key_of c == k || touches k log

  -- A log that does not touch a key leaves its value; one that does gives it a value that does not
  -- depend on the one before.
  pub outcome_untouched :
      (k : Text) (before : Option V) (log : List (Change V))
      → touches k log ≡ false
      → outcome k before log ≡ before
  outcome_untouched k before [] h = refl
  outcome_untouched k before (c ∷ log) h =
      ground (arith, outcome_untouched k before log, same_text_iff (key_of c) k)

  pub outcome_touched :
      (k : Text) (before other : Option V) (log : List (Change V))
      → touches k log ≡ true
      → outcome k before log ≡ outcome k other log
  outcome_touched k before other [] h = cc
  outcome_touched k before other (c ∷ log) h = elim (Bool-cases (key_of c == k)) [
    | inl same ↦ rw same
    | inr differs ↦ rw differs (outcome_touched k before other log (ground arith))
  ]
