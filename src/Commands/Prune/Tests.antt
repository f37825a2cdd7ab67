-- ===== src/Commands/Prune/Tests.antt =====
-- A repository on which prune deletes one object of two. The remote does not have it, and commits
-- refer to it, but at a path that is excluded.
use mathlib.Core.List.{Permᴰ}
use git_lfs.Prelude.{
  ◌≡◌, refl, Bool, true, false, Option, none, some, List, [], ◌∷◌, Text, codes, elem,
  text_comparable, keep, ◌==◌,
}
use git_lfs.Tools.StringSet.{add, contains}
use git_lfs.Filter.{PatternType, git_attributes, new_filter, allows, any_matches}
use git_lfs.Commands.Prune.{
  Listing, pointer, reported, reachable_messages, FetchPruneConfig, Object, retain, Scan,
  Repository, scanned, at_new_refs, recent_refs, previous_versions, from_current,
  current_and_recent_refs, work_trees, retained_messages, some_message, has_problem,
  collect_retained, prunable_objects, missing_objects, delete_files, Remote, remote_problem,
  delete_or_report, check_and_delete, prune, new_fetch_prune_config, prune_command, plus,
}
use git_lfs.Commands.Prune.Sparing.{sends, removed, remote_allows, deleted_only_if}
use git_lfs.Commands.Prune.Needed.{IsNeeded, needed-kept}

abbrev head : Text
head = 1 ∷ []

abbrev branch : Text
branch = 2 ∷ []

abbrev old_version : Text
old_version = 7 ∷ 7 ∷ 7 ∷ 7 ∷ []

abbrev garbage : Text
garbage = 8 ∷ 8 ∷ 8 ∷ 8 ∷ []

abbrev nothing : Scan
nothing = record { found = []; fails = false }

-- Each commit has an object that is kept, and one at a path that lfs.fetchexclude names.
abbrev listing : Listing
listing = record {
  found = pointer (codes "kept") old_version ∷ pointer (codes "excluded") garbage ∷ [];
  fails = false;
}

abbrev same_path : PatternType → Text → Text → Bool
same_path type pattern name = pattern == name

abbrev fetch_exclude_paths : List Text
fetch_exclude_paths = codes "excluded" ∷ []

abbrev config : FetchPruneConfig
config = new_fetch_prune_config (λ key. none)

abbrev git : Repository
git = record {
  filter = none;
  current_ref = some head;
  recent_branches = λ days include_remotes. some (branch ∷ head ∷ []);
  work_tree_heads = some [];
  commit_date = λ commit. some 100;
  scan_ref = λ commit. listing;
  scan_previous_versions = λ commit date days. nothing;
  scan_unpushed = λ remote. nothing;
  scan_stashed = nothing;
}

abbrev local : List Object
local = record { oid = old_version; size = 5 } ∷ record { oid = garbage; size = 6 } ∷ []

-- The remote has no object.
abbrev remote : Option Remote
remote = some (record {
  filter = some (new_filter same_path [] fetch_exclude_paths git_attributes []);
  scan_all = listing;
  verifies = λ prunable. [];
})

deleted_only_if_example :
    (has_problem (retain old_version ∷ []) ≡ false)
    × (remote_problem remote ≡ false)
    × (false ≡ false)
    × (true ≡ true)
    × (elem garbage (old_version ∷ garbage ∷ []) ≡ true)
    × (sends garbage (retain old_version ∷ []) ≡ false)
    × (remote_allows remote
          (prunable_objects local (collect_retained [] (retain old_version ∷ [])))
          garbage
        ≡ true)
unfolding prune some_message collect_retained add contains elem prunable_objects keep
    check_and_delete missing_objects delete_or_report delete_files reachable_messages scanned
    reported allows any_matches new_filter
deleted_only_if_example =
    deleted_only_if (retain old_version ∷ []) remote false (λ oid. true) local garbage refl

needed-kept_example :
    elem old_version (
      removed (prune (retain old_version ∷ retain old_version ∷ []) none false (λ oid. true) local))
    ≡ false
unfolding retained_messages current_and_recent_refs from_current recent_refs at_new_refs
    previous_versions work_trees scanned reported allows any_matches new_filter add contains elem
    some_message plus new_fetch_prune_config
needed-kept_example =
    needed-kept same_path fetch_exclude_paths git config
      (retain old_version ∷ retain old_version ∷ []) none false (λ oid. true) local old_version
      (Permᴰ.swap refl refl)
      (IsNeeded.at_recent_branch branch (branch ∷ head ∷ []) refl refl refl refl refl refl)

-- `--force` passes over the recent refs as well.
force_is_recent :
    prune_command config
      (record { recent = false; force = true; verify_remote = false; no_verify_remote = false })
    ≡ some (record config { prune_recent = true; prune_force = true }, false)
unfolding prune_command new_fetch_prune_config
force_is_recent = refl

both_flags :
    prune_command config
      (record { recent = false; force = false; verify_remote = true; no_verify_remote = true })
    ≡ none
unfolding prune_command
both_flags = refl
