-- ===== src/Commands/Prune/Needed.antt =====
-- The objects that commands/command_prune.go has to keep: at the current commit, at recent
-- branches, in recent versions, at other work trees, in stashes, and those that no remote has yet.
use mathlib.Core.List.{Permᴰ}
use git_lfs.Prelude.{
  ◌≡◌, sym, ap, ◌∙◌, Bool, Bool-cases, true, false, Option, inl, inr, some, List, [], ◌∷◌, Text,
  text_comparable, elem, arith,
}
use git_lfs.Filter.{PatternType}
use git_lfs.Commands.Prune.{
  ref_scan, with_excludes, Remote, FetchPruneConfig, Object, Message, is_problem, Repository,
  from_current, above_zero, recent_refs, current_and_recent_refs, retained_messages, prune,
}
use git_lfs.Commands.Prune.Sparing.{sends, removed, deleted_only_if}
use git_lfs.Commands.Prune.Sparing.Sent.{
  is_retained, some_message-perm, sends-scanned, new_refs_lem, sends-previous_versions,
  is_in_versions,
}
use git_lfs.Commands.Prune.Messages.{
  recent_branches, from_current_lem, recent_lem, current_lem, work_tree_lem, retained_lem,
  current_ref_known, sends-new, recent_refs-keeps,
}

module _ (repo : Repository) (config : FetchPruneConfig) where
  -- The commits whose previous versions are kept: the current one, and the recent branches.
  pub data IsKeptCommit : Text → Type 0 where
    current : {sha : Text} → repo.current_ref ≡ some sha → IsKeptCommit sha
    recent :
        {sha : Text} (refs : List Text)
        → above_zero config.fetch_recent_refs_days ≡ true
        → recent_branches repo config ≡ some refs
        → elem sha refs ≡ true
        → IsKeptCommit sha

  pub data IsNeeded : Text → Type 0 where
    unpushed :
        {oid : Text}
        → sends oid (repo.scan_unpushed config.prune_remote_name).found ≡ true
        → IsNeeded oid
    stashed : {oid : Text} → sends oid repo.scan_stashed.found ≡ true → IsNeeded oid
    at_current_ref :
        {oid : Text} (sha : Text)
        → config.prune_force ≡ false
        → repo.current_ref ≡ some sha
        → sends oid (ref_scan repo sha).found ≡ true
        → IsNeeded oid
    at_work_tree :
        {oid : Text} (sha : Text) (heads : List Text)
        → config.prune_force ≡ false
        → repo.work_tree_heads ≡ some heads
        → elem sha heads ≡ true
        → sends oid (ref_scan repo sha).found ≡ true
        → IsNeeded oid
    at_recent_branch :
        {oid : Text} (sha : Text) (refs : List Text)
        → config.prune_force ≡ false
        → config.prune_recent ≡ false
        → above_zero config.fetch_recent_refs_days ≡ true
        → recent_branches repo config ≡ some refs
        → elem sha refs ≡ true
        → sends oid (ref_scan repo sha).found ≡ true
        → IsNeeded oid
    in_recent_version :
        {oid : Text} (commit : Text)
        → config.prune_recent ≡ false
        → above_zero config.fetch_recent_commits_days ≡ true
        → IsKeptCommit commit
        → is_in_versions repo config oid commit ≡ true
        → IsNeeded oid

  same_head : {a b : Text} → repo.current_ref ≡ some a → repo.current_ref ≡ some b → a ≡ b
  same_head e f = cc

  elem-kept :
      (head : Text)
      → repo.current_ref ≡ some head
      → config.prune_recent ≡ false
      → {commit : Text} → IsKeptCommit commit
      → elem commit (recent_refs repo config (head ∷ [])).0 ≡ true
  elem-kept head located g (current e) =
      ap (λ c. elem c (recent_refs repo config (head ∷ [])).0) (same_head e located)
      ∙ recent_refs-keeps repo config head
  elem-kept head located g {commit} (recent refs above e member) =
      ap (λ r. elem commit r.0) (recent_lem repo config head g above e)
      ∙ (new_refs_lem repo config (head ∷ []) refs commit ∙ ground arith)

  module _ (head : Text) (located : repo.current_ref ≡ some head) where
    sends-current :
        (oid : Text)
        → sends oid (current_and_recent_refs repo config) ≡ true
        → sends oid (retained_messages repo config) ≡ true
    sends-current oid h = ground (arith, retained_lem repo config (is_retained oid))

    current_iff :
        (oid : Text)
        → sends oid (current_and_recent_refs repo config)
          ≡ sends oid (from_current repo config head)
    current_iff oid = ap (λ messages. sends oid messages) (current_lem repo config head located)

    sends-needed : {oid : Text} → IsNeeded oid → sends oid (retained_messages repo config) ≡ true
    sends-needed {oid} (unpushed found) = ground (
      arith,
      retained_lem repo config (is_retained oid),
      sends-scanned oid (repo.scan_unpushed config.prune_remote_name),
    )
    sends-needed {oid} (stashed found) =
        ground
          (arith, retained_lem repo config (is_retained oid), sends-scanned oid repo.scan_stashed)
    sends-needed {oid} (at_current_ref sha f e found) =
        let same = ap (λ c. sends oid (ref_scan repo c).found) (same_head e located) in
        sends-current oid
          (current_iff oid ∙ ground (arith, from_current_lem repo config head oid, same))
    sends-needed {oid} (at_work_tree sha heads f e member found) = ground (
      arith,
      retained_lem repo config (is_retained oid),
      current_iff oid,
      from_current_lem repo config head oid,
      ap (λ messages. sends oid messages) (work_tree_lem repo config head located f e),
      sends-new repo config oid sha head heads member found,
    )
    sends-needed {oid} (at_recent_branch sha refs f g above e member found) = sends-current oid (
        current_iff oid
        ∙ ground (
          arith,
          from_current_lem repo config head oid,
          ap (λ r. sends oid r.1) (recent_lem repo config head g above e),
          sends-new repo config oid sha head refs member found,
        ))
    sends-needed {oid} (in_recent_version commit g above kept found) =
        let versions =
          sends-previous_versions repo config oid commit _ (elem-kept head located g kept) found in
        sends-current oid
          (current_iff oid ∙ ground (arith, from_current_lem repo config head oid, versions))

-- Prune deletes no object that is needed, in whatever order the messages of its tasks arrive, with
-- or without a check of the remote, for every set of local objects. Needed is an object that the
-- scans report as not pushed or as stashed, at any path, and one that they report at a path that no
-- pattern of lfs.fetchexclude matches: without force at the current commit or at the head of a work
-- tree, and without force or recent at a recent branch. Needed is also, without recent and at any
-- path, one in a previous version that the number of days of the configuration includes, of the
-- current commit or of a recent branch. An object that is only at excluded paths of those commits
-- is not among the needed ones.
pub needed-kept :
    (wildmatch : PatternType → Text → Text → Bool) (fetch_exclude_paths : List Text)
    (git : Repository) (config : FetchPruneConfig) (arrived : List Message) (remote : Option Remote)
    (dry_run : Bool) (removes : Text → Bool) (local : List Object) (oid : Text)
    → Permᴰ arrived (retained_messages (with_excludes wildmatch fetch_exclude_paths git) config)
    → IsNeeded (with_excludes wildmatch fetch_exclude_paths git) config oid
    → elem oid (removed (prune arrived remote dry_run removes local)) ≡ false
needed-kept wildmatch fetch_exclude_paths git config arrived remote dry_run removes local oid order
      needed =
    let repo = with_excludes wildmatch fetch_exclude_paths git in
    elim (Bool-cases (elem oid (removed (prune arrived remote dry_run removes local)))) [
      | inr kept ↦ kept
      | inl deleted ↦
          let only = deleted_only_if arrived remote dry_run removes local oid deleted in
          let (head, located) =
            current_ref_known repo config (sym (some_message-perm is_problem order) ∙ only.0) in
          absurd (
            ground (
              arith,
              only,
              some_message-perm (is_retained oid) order,
              sends-needed repo config head located needed,
            ))
    ]
