-- ===== src/Commands/Prune/Sparing.antt =====
-- What commands/command_prune.go leaves alone.
pub use Sent.{sends}
pub mod Sent
use mathlib.Core.List.{Permᴰ}
use git_lfs.Prelude.{
  ℕ, ◌≡◌, ◌⊎◌, refl, sym, ap, ◌∙◌, Bool, true, false, not, ◌&&◌, ◌||◌, Option, none, some, inl, inr,
  Bool-cases, Option-cases, List, [], ◌∷◌, ◌++◌, Text, length, ltb, keep, text_comparable, elem,
  elem-append, elem-keep, ◌==◌, same_text_iff, arith, if◌then◌else◌,
}
use git_lfs.Prelude.Int.{ℤ}
use git_lfs.Tools.StringSet.{StringSet, contains}
use git_lfs.Commands.Prune.{
  FetchPruneConfig, Object, Message, some_message, Repository, above_zero, plus, retained_messages,
  collect_retained, has_problem, prunable_objects, oids, missing_objects, delete_files, Outcome,
  sub_tasks_failed, missing_on_remote, would_prune, pruned, Remote, delete_or_report,
  check_and_delete, remote_problem, reachable_messages, prune,
}
use Sent.{contains-collect_retained}

abbrev pub removed : Outcome → List Text
removed sub_tasks_failed = []
removed (missing_on_remote oids) = []
removed (would_prune oids) = []
removed (pruned deleted problems) = deleted

deleted_lem :
    (removes : Text → Bool) (oid : Text) (prunable : List Text)
    → elem oid (delete_files removes prunable).0 ≡ true
    → (elem oid prunable && removes oid) ≡ true
unfolding delete_files elem
deleted_lem removes oid [] h = ground arith
deleted_lem removes oid (other ∷ prunable) h =
    ground
      (arith, deleted_lem removes oid prunable, same_text_iff other oid, same_text_iff oid other)

report_lem :
    (dry_run : Bool) (removes : Text → Bool) (oid : Text) (prunable : List Text)
    → elem oid (removed (delete_or_report dry_run removes prunable)) ≡ true
    → (not dry_run && (elem oid prunable && removes oid)) ≡ true
unfolding delete_or_report elem
report_lem true removes oid prunable h = ground arith
report_lem false removes oid prunable h = deleted_lem removes oid prunable h

-- What the remote says of an object: nothing, or that it has it, or that no reachable commit needs it.
abbrev pub remote_allows : Option Remote → List Object → Text → Bool
remote_allows none prunable oid = true
remote_allows (some remote) prunable oid =
    contains (remote.verifies prunable) oid || not (sends oid (reachable_messages remote))

elem-missing_objects :
    (oid : Text) (prunable : List Text) (reachable verified : StringSet)
    → elem oid (missing_objects prunable reachable verified)
      ≡ (elem oid prunable && (not (contains verified oid) && contains reachable oid))
unfolding missing_objects
elem-missing_objects oid prunable reachable verified = elem-keep _ oid prunable

contains_none : (oid : Text) → contains [] oid ≡ false
unfolding contains elem
contains_none oid = refl

List-cases : (xs : List Text) → (xs ≡ []) ⊎ ((y : Text) × (ys : List Text) × (xs ≡ y ∷ ys))
List-cases [] = inl refl
List-cases (y ∷ ys) = inr (y, ys, refl)

check_lem :
    (remote : Option Remote) (dry_run : Bool) (removes : Text → Bool) (oid : Text)
    (prunable : List Object)
    → elem oid (removed (check_and_delete remote dry_run removes prunable)) ≡ true
    → (remote_allows remote prunable oid
        && (not dry_run && (elem oid (oids prunable) && removes oid)))
      ≡ true
unfolding check_and_delete elem some_message
check_lem none dry_run removes oid prunable h = report_lem dry_run removes oid (oids prunable) h
check_lem (some remote) dry_run removes oid prunable h =
    let reachable = collect_retained [] (reachable_messages remote) in
    let verified = remote.verifies prunable in
    elim (List-cases (missing_objects (oids prunable) reachable verified)) [
      | inl e ↦
          let same : check_and_delete (some remote) dry_run removes prunable
              ≡ delete_or_report dry_run removes (oids prunable) =
            rw (e, check_and_delete) refl in
          ground (
            arith,
            report_lem dry_run removes oid (oids prunable),
            ap (λ o. elem oid (removed o)) same,
            elem-missing_objects oid (oids prunable) reachable verified,
            ap (elem oid) e,
            contains-collect_retained [] (reachable_messages remote) oid,
            contains_none oid,
          )
      | inr (x, xs, e) ↦
          let same : check_and_delete (some remote) dry_run removes prunable
              ≡ missing_on_remote (x ∷ xs) =
            rw (e, check_and_delete) refl in
          ground (arith, ap (λ o. elem oid (removed o)) same)
    ]

elem-prunable_objects :
    (oid : Text) (local : List Object) (retained : StringSet)
    → elem oid (oids (prunable_objects local retained))
      ≡ (elem oid (oids local) && not (contains retained oid))
unfolding prunable_objects keep elem
elem-prunable_objects oid [] retained = refl
elem-prunable_objects oid (file ∷ local) retained = ground (
  arith,
  elem-prunable_objects oid local retained,
  same_text_iff file.oid oid,
  same_text_iff oid file.oid,
)

-- If prune deletes an object, then no task sent an error, nor did the scan for the check of the
-- remote, it is not a dry run, the file could be removed, the object is a local one that no task
-- sent to be retained, and, where the remote is verified, either the remote has the object or the
-- scan of all commits did not report it, which of what it finds reports only the pointers at paths
-- that its filter allows.
pub deleted_only_if :
    (arrived : List Message) (remote : Option Remote) (dry_run : Bool) (removes : Text → Bool)
    (local : List Object) (oid : Text)
    → elem oid (removed (prune arrived remote dry_run removes local)) ≡ true
    → (has_problem arrived ≡ false)
      × (remote_problem remote ≡ false)
      × (dry_run ≡ false)
      × (removes oid ≡ true)
      × (elem oid (oids local) ≡ true)
      × (sends oid arrived ≡ false)
      × (remote_allows remote (prunable_objects local (collect_retained [] arrived)) oid ≡ true)
unfolding prune elem
deleted_only_if arrived remote dry_run removes local oid h =
    let prunable = prunable_objects local (collect_retained [] arrived) in
    let checked = check_lem remote dry_run removes oid prunable in
    let member = elem-prunable_objects oid local (collect_retained [] arrived) in
    let collected = contains-collect_retained [] arrived oid in
    ground (arith, checked, member, collected, contains_none oid)
