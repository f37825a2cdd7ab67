-- ===== src/Commands/Prune/Sparing/Sent.antt =====
-- What the tasks of commands/command_prune.go send.
use mathlib.Core.List.{Permᴰ}
use git_lfs.Prelude.{
  ◌≡◌, refl, ap, ◌∙◌, Bool, true, false, not, ◌||◌, Option-cases, inl, inr, none, some, List, [],
  ◌∷◌, ◌++◌, Text, text_comparable, elem, ◌==◌, same_text_iff, arith, if◌then◌else◌,
}
use git_lfs.Tools.StringSet.{StringSet, add, contains}
use git_lfs.Tools.StringSet.Algebra.{contains-add}
use git_lfs.Commands.Prune.{
  FetchPruneConfig, Message, retain, problem, some_message, Scan, Repository, scanned, ref_scan,
  plus, at_new_refs, previous_versions, collect_retained,
}

abbrev pub is_retained : Text → Message → Bool
is_retained oid (retain other) = other == oid
is_retained oid problem = false

-- Whether an object is among those that are sent.
abbrev pub sends : Text → List Message → Bool
sends oid messages = some_message (is_retained oid) messages

module _ (p : Message → Bool) where
  pub some_message-append :
      (xs ys : List Message) → some_message p (xs ++ ys) ≡ (some_message p xs || some_message p ys)
  unfolding some_message
  some_message-append [] ys = refl
  some_message-append (m ∷ xs) ys = ground (arith, some_message-append xs ys)

  -- The order in which messages arrive does not matter.
  pub some_message-perm :
      {xs ys : List Message} → Permᴰ xs ys → some_message p xs ≡ some_message p ys
  unfolding some_message
  some_message-perm Permᴰ.nil = refl
  some_message-perm (Permᴰ.cons e q) = ground (arith, ap p e, some_message-perm q)
  some_message-perm (Permᴰ.swap e f) = ground (arith, ap p e, ap p f)
  some_message-perm (Permᴰ.trans q r) = some_message-perm q ∙ some_message-perm r

pub contains-collect_retained :
    (set : StringSet) (messages : List Message) (oid : Text)
    → contains (collect_retained set messages) oid ≡ (contains set oid || sends oid messages)
unfolding collect_retained some_message
contains-collect_retained set [] oid = ground arith
contains-collect_retained set (retain other ∷ messages) oid =
    ground
      (arith, contains-collect_retained (add set other).0 messages oid, contains-add set other oid)
contains-collect_retained set (problem ∷ messages) oid = contains-collect_retained set messages oid

pub sends-scanned : (oid : Text) (s : Scan) → sends oid (scanned s) ≡ sends oid s.found
unfolding scanned some_message
sends-scanned oid s = ground (arith, some_message-append (is_retained oid) s.found (problem ∷ []))

contains_is : (set : StringSet) (i : Text) → contains set i ≡ elem i set
unfolding contains
contains_is set i = refl

is_new : (set : StringSet) (i : Text) → (add set i).1 ≡ not (contains set i)
unfolding add
is_new set i = refl

module _ (repo : Repository) (config : FetchPruneConfig) where
  pub new_refs_lem :
      (commits : StringSet) (refs : List Text) (commit : Text)
      → elem commit (at_new_refs repo config commits refs).0
        ≡ (elem commit commits || elem commit refs)
  unfolding at_new_refs elem
  new_refs_lem commits [] commit = ground arith
  new_refs_lem commits (sha ∷ refs) commit =
      new_refs_lem (add commits sha).0 refs commit
      ∙ ground (
        arith,
        contains-add commits sha commit,
        contains_is commits commit,
        contains_is (add commits sha).0 commit,
      )

  pub sends-new_refs :
      (oid sha : Text) (commits : StringSet) (refs : List Text)
      → elem sha refs ≡ true
      → sends oid (ref_scan repo sha).found ≡ true
      → (elem sha commits || sends oid (at_new_refs repo config commits refs).1) ≡ true
  unfolding at_new_refs elem
  sends-new_refs oid sha commits [] h found = ground arith
  sends-new_refs oid sha commits (other ∷ refs) h found = ground (
    arith,
    some_message-append (is_retained oid)
        (if (add commits other).1 then scanned (ref_scan repo other) else [])
        (at_new_refs repo config (add commits other).0 refs).1,
    sends-new_refs oid sha (add commits other).0 refs,
    is_new commits other,
    sends-scanned oid (ref_scan repo other),
    contains-add commits other sha,
    same_text_iff other sha,
    contains_is (add commits other).0 sha,
    contains_is commits sha,
  )

  -- Whether an object is found by the scan of a commit's previous versions.
  unfoldable pub is_in_versions : Text → Text → Bool
  is_in_versions oid commit = elim (repo.commit_date commit) [
    | none ↦ false
    | some date ↦
        sends oid
          (repo.scan_previous_versions commit date
            (plus config.fetch_recent_commits_days config.prune_offset_days)).found
  ]

  sends-versions_cons :
      (oid other : Text) (commits : List Text)
      → sends oid (previous_versions repo config (other ∷ commits))
        ≡ (is_in_versions oid other || sends oid (previous_versions repo config commits))
  unfolding is_in_versions some_message previous_versions
  sends-versions_cons oid other commits = elim (Option-cases (repo.commit_date other)) [
    | inl missing ↦ rw (missing, previous_versions, is_in_versions) refl
    | inr (at, dated) ↦
        rw (dated, previous_versions, is_in_versions)
          (ground (
            arith,
            some_message-append (is_retained oid)
                (scanned (
                  repo.scan_previous_versions other at
                    (plus config.fetch_recent_commits_days config.prune_offset_days)))
                (previous_versions repo config commits),
            sends-scanned oid (
                repo.scan_previous_versions other at
                  (plus config.fetch_recent_commits_days config.prune_offset_days)),
          ))
  ]

  pub sends-previous_versions :
      (oid commit : Text) (commits : List Text)
      → elem commit commits ≡ true
      → is_in_versions oid commit ≡ true
      → sends oid (previous_versions repo config commits) ≡ true
  unfolding elem
  sends-previous_versions oid commit [] h found = ground arith
  sends-previous_versions oid commit (other ∷ commits) h found =
      sends-versions_cons oid other commits
      ∙ ground (arith, sends-previous_versions oid commit commits, same_text_iff other commit)
