-- ===== src/Commands/Prune.antt =====
-- commands/command_prune.go, with its configuration in lfs/config.go: which local objects are
-- deleted. The scans of Git, the check of the remote and the deletion of a file are arguments. Each
-- task sends its object IDs and errors into channels, in an order that the scheduler chooses.
pub mod Messages
pub mod Needed
pub mod Sparing
mod Tests
use git_lfs.Prelude.{
  ℕ, ◌+◌, Bool, true, false, not, ◌&&◌, ◌||◌, Option, none, some, List, [], ◌∷◌, ◌++◌, Text, length,
  ltb, eqb, codes, keep, text_comparable, elem, ◌==◌, if◌then◌else◌,
}
use git_lfs.Prelude.Int.{ℤ, pos, negsuc, sub_ℕ}
use git_lfs.Tools.StringSet.{StringSet, add, contains}
use git_lfs.Config.Values.{env_int, env_bool, or_empty}
use git_lfs.Filter.{Filter, PatternType, git_attributes, allows, new_filter}
use git_lfs.Lfs.Pointer.{empty_object}

-- lfs/config.go
pub record FetchPruneConfig : Type 0 where
  pub fetch_recent_refs_days : ℤ
  pub fetch_recent_refs_include_remotes : Bool
  pub fetch_recent_commits_days : ℤ
  pub fetch_recent_always : Bool
  pub prune_offset_days : ℤ
  pub prune_verify_remote_always : Bool
  pub prune_remote_name : Text
  pub prune_recent : Bool
  pub prune_force : Bool

-- What the keys of the Git configuration give; `get` reads one.
unfoldable pub new_fetch_prune_config : (get : Text → Option Text) → FetchPruneConfig
unfolding env_int env_bool or_empty
new_fetch_prune_config get =
    let remote = or_empty (get (codes "lfs.pruneremotetocheck")) in
    record {
      fetch_recent_refs_days = env_int (get (codes "lfs.fetchrecentrefsdays")) (pos 7);
      fetch_recent_refs_include_remotes = env_bool (get (codes "lfs.fetchrecentremoterefs")) true;
      fetch_recent_commits_days = env_int (get (codes "lfs.fetchrecentcommitsdays")) (pos 0);
      fetch_recent_always = env_bool (get (codes "lfs.fetchrecentalways")) false;
      prune_offset_days = env_int (get (codes "lfs.pruneoffsetdays")) (pos 3);
      prune_verify_remote_always = env_bool (get (codes "lfs.pruneverifyremotealways")) false;
      prune_remote_name = (if eqb (length remote) 0 then codes "origin" else remote);
      prune_recent = false;
      prune_force = false;
    }

-- `fs.Object`
pub record Object : Type 0 where
  pub oid : Text
  pub size : ℕ

-- What a task sends: an object to be retained, or an error.
pub data Message : Type 0 where
  retain : Text → Message
  problem : Message

-- What a scan calls back with, and whether it ends with an error.
pub record Scan : Type 0 where
  pub found : List Message
  pub fails : Bool

-- What `scanRefsToChan` finds at a commit or at all: pointers, each at a path, and errors.
pub data Found : Type 0 where
  pointer : (name oid : Text) → Found
  unreadable : Found

pub record Listing : Type 0 where
  pub found : List Found
  pub fails : Bool

-- The pointers at paths that the scanner's filter allows, and the errors.
unfoldable pub reported : Option Filter → List Found → List Message
unfolding allows
reported filter [] = []
reported filter (pointer name oid ∷ found) =
    if allows filter name then retain oid ∷ reported filter found else reported filter found
reported filter (unreadable ∷ found) = problem ∷ reported filter found

abbrev pub report : Option Filter → Listing → Scan
report filter listing = record { found = reported filter listing.found; fails = listing.fails }

-- The answers of Git, and the filter of the scanner, which of the scans here ScanRef and ScanAll
-- apply; an answer `none` is an error, for the recent branches one that ends the program at once. A
-- commit is named by its SHA, and a scan of its previous versions starts a number of days
-- before its date.
pub record Repository : Type 0 where
  pub filter : Option Filter
  pub current_ref : Option Text
  pub recent_branches : (days : ℤ) → (include_remotes : Bool) → Option (List Text)
  pub work_tree_heads : Option (List Text)
  pub commit_date : Text → Option ℕ
  pub scan_ref : Text → Listing
  pub scan_previous_versions : Text → (date : ℕ) → (days : ℤ) → Scan
  pub scan_unpushed : (remote : Text) → Scan
  pub scan_stashed : Scan

abbrev pub ref_scan : Repository → Text → Scan
ref_scan repo ref = report repo.filter (repo.scan_ref ref)

-- The scanner of `prune`: its filter excludes the paths of lfs.fetchexclude.
abbrev pub with_excludes :
    (wildmatch : PatternType → Text → Text → Bool)
    → (fetch_exclude_paths : List Text) → Repository
    → Repository
with_excludes wildmatch fetch_exclude_paths repo = record repo {
  filter = some (new_filter wildmatch [] fetch_exclude_paths git_attributes []);
}

-- The messages of a task that scans.
unfoldable pub scanned : Scan → List Message
scanned s = if s.fails then s.found ++ problem ∷ [] else s.found

abbrev pub above_zero : ℤ → Bool
above_zero (pos n) = ltb 0 n
above_zero (negsuc n) = false

unfoldable pub plus : ℤ → ℤ → ℤ
plus (pos m) (pos n) = pos (m + n)
plus (pos m) (negsuc n) = sub_ℕ m (n + 1)
plus (negsuc m) (pos n) = sub_ℕ n (m + 1)
plus (negsuc m) (negsuc n) = negsuc (m + n + 1)

pub record Flags : Type 0 where
  pub recent : Bool
  pub force : Bool
  pub verify_remote : Bool
  pub no_verify_remote : Bool

-- `pruneCommand`: what it calls `prune` with, the configuration and whether the remote is verified.
unfoldable pub prune_command : FetchPruneConfig → Flags → Option (FetchPruneConfig × Bool)
prune_command config flags =
    if flags.verify_remote && flags.no_verify_remote
    then none
    else some (
      record config { prune_recent = flags.recent || flags.force; prune_force = flags.force },
      not flags.no_verify_remote && (config.prune_verify_remote_always || flags.verify_remote),
    )

module _ (repo : Repository) (config : FetchPruneConfig) where
  abbrev pub retained_at_ref : Text → List Message
  retained_at_ref ref = scanned (ref_scan repo ref)

  abbrev pub previous_versions_of_ref : Text → (date : ℕ) → List Message
  previous_versions_of_ref ref date = scanned (
      repo.scan_previous_versions ref date
        (plus config.fetch_recent_commits_days config.prune_offset_days))

  abbrev pub retained_unpushed : List Message
  retained_unpushed = scanned (repo.scan_unpushed config.prune_remote_name)

  abbrev pub retained_stashed : List Message
  retained_stashed = scanned repo.scan_stashed

  -- The refs that are new to the set of commits: the set then, and their messages.
  unfoldable pub at_new_refs : StringSet → List Text → StringSet × List Message
  at_new_refs commits [] = (commits, [])
  at_new_refs commits (sha ∷ refs) =
      let (all, messages) = at_new_refs (add commits sha).0 refs in
      (all, (if (add commits sha).1 then retained_at_ref sha else []) ++ messages)

  abbrev pub at_branches : StringSet → Option (List Text) → StringSet × List Message
  at_branches commits none = (commits, problem ∷ [])
  at_branches commits (some refs) = at_new_refs commits refs

  unfoldable pub recent_refs : StringSet → StringSet × List Message
  recent_refs commits =
      if not config.prune_recent && above_zero config.fetch_recent_refs_days
      then at_branches commits (
          repo.recent_branches (plus config.fetch_recent_refs_days config.prune_offset_days)
            config.fetch_recent_refs_include_remotes)
      else (commits, [])

  unfoldable pub previous_versions : List Text → List Message
  previous_versions [] = []
  previous_versions (commit ∷ commits) =
      let rest = previous_versions commits in
      elim (repo.commit_date commit) [
        | none ↦ problem ∷ rest
        | some date ↦ previous_versions_of_ref commit date ++ rest
      ]

  unfoldable pub from_current : Text → List Message
  from_current sha =
      let (commits, recent) = recent_refs (sha ∷ []) in
      (if config.prune_force then [] else retained_at_ref sha)
      ++ (recent
          ++ (if not config.prune_recent && above_zero config.fetch_recent_commits_days
              then previous_versions commits
              else []))

  -- `pruneTaskGetRetainedCurrentAndRecentRefs`, with the tasks that it starts, by the current ref.
  abbrev pub current_and_recent : Option Text → List Message
  current_and_recent none = problem ∷ []
  current_and_recent (some sha) = from_current sha

  unfoldable pub current_and_recent_refs : List Message
  current_and_recent_refs = current_and_recent repo.current_ref

  -- `pruneTaskGetRetainedWorktree`, by the heads of the work trees and the current ref.
  abbrev pub at_heads : Option (List Text) → Option Text → List Message
  at_heads none _ = problem ∷ []
  at_heads (some heads) none = problem ∷ []
  at_heads (some heads) (some sha) = (at_new_refs (sha ∷ []) heads).1

  unfoldable pub work_trees : List Message
  work_trees = if config.prune_force then [] else at_heads repo.work_tree_heads repo.current_ref

  -- All messages of the tasks whose objects are retained.
  unfoldable pub retained_messages : List Message
  retained_messages =
      current_and_recent_refs ++ (retained_unpushed ++ (work_trees ++ retained_stashed))

-- `pruneTaskCollectRetained`
unfoldable pub collect_retained : StringSet → List Message → StringSet
unfolding add
collect_retained retained [] = retained
collect_retained retained (retain oid ∷ messages) = collect_retained (add retained oid).0 messages
collect_retained retained (problem ∷ messages) = collect_retained retained messages

unfoldable pub some_message : (Message → Bool) → List Message → Bool
some_message p [] = false
some_message p (m ∷ messages) = p m || some_message p messages

abbrev pub is_problem : Message → Bool
is_problem (retain oid) = false
is_problem problem = true

-- `pruneTaskCollectErrors`: whether there are any.
abbrev pub has_problem : List Message → Bool
has_problem messages = some_message is_problem messages

unfoldable pub prunable_objects : List Object → StringSet → List Object
unfolding contains keep
prunable_objects local retained = keep (λ (file : Object). not (contains retained file.oid)) local

abbrev pub oids : List Object → List Text
oids [] = []
oids (file ∷ files) = file.oid ∷ oids files

-- `pruneCheckVerified`: the objects that are missing on the remote.
unfoldable pub missing_objects : List Text → (reachable verified : StringSet) → List Text
unfolding contains keep
missing_objects prunable reachable verified =
    keep (λ oid. not (contains verified oid) && contains reachable oid) prunable

-- What `pruneDeleteFiles` removes and what it does not; the null device is passed over.
unfoldable pub delete_files : (removes : Text → Bool) → List Text → List Text × List Text
delete_files removes [] = ([], [])
delete_files removes (oid ∷ prunable) =
    let (deleted, problems) = delete_files removes prunable in
    if ltb (length oid) 4
    then (deleted, oid ∷ problems)
    else if oid == empty_object
    then (deleted, problems)
    else if removes oid
    then (oid ∷ deleted, problems)
    else (deleted, oid ∷ problems)

-- How the command ends: an exit before anything is deleted, a report, or the deletion.
pub data Outcome : Type 0 where
  sub_tasks_failed : Outcome
  missing_on_remote : List Text → Outcome
  would_prune : List Text → Outcome
  pruned : (deleted problems : List Text) → Outcome

-- The check of the remote: what ScanAll finds, with the scanner's filter, and the objects that the
-- queue verified of the prunable.
pub record Remote : Type 0 where
  pub filter : Option Filter
  pub scan_all : Listing
  pub verifies : List Object → StringSet

-- `pruneTaskGetReachableObjects`
unfoldable pub reachable_messages : Remote → List Message
reachable_messages remote = scanned (report remote.filter remote.scan_all)

unfoldable pub delete_or_report : (dry_run : Bool) → (removes : Text → Bool) → List Text → Outcome
unfolding delete_files
delete_or_report dry_run removes prunable =
    if dry_run
    then would_prune prunable
    else let (deleted, problems) = delete_files removes prunable in pruned deleted problems

unfoldable pub check_and_delete :
    Option Remote → (dry_run : Bool) → (removes : Text → Bool) → List Object → Outcome
unfolding missing_objects delete_or_report collect_retained
check_and_delete none dry_run removes prunable = delete_or_report dry_run removes (oids prunable)
check_and_delete (some remote) dry_run removes prunable =
    elim (missing_objects (oids prunable) (collect_retained [] (reachable_messages remote))
      (remote.verifies prunable)) [
        | [] ↦ delete_or_report dry_run removes (oids prunable)
        | oid ∷ missing ↦ missing_on_remote (oid ∷ missing)
      ]

abbrev pub remote_problem : Option Remote → Bool
remote_problem none = false
remote_problem (some remote) = has_problem (reachable_messages remote)

-- `prune`, on the messages in the order in which they arrived; with a remote, it is verified.
unfoldable pub prune :
    (arrived : List Message)
    → Option Remote
    → (dry_run : Bool) → (removes : Text → Bool) → List Object
    → Outcome
unfolding some_message collect_retained prunable_objects check_and_delete
prune arrived remote dry_run removes local =
    if has_problem arrived || remote_problem remote
    then sub_tasks_failed
    else check_and_delete remote dry_run removes
        (prunable_objects local (collect_retained [] arrived))
