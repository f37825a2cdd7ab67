-- ===== src/Commands/Prune/Messages.antt =====
-- What the tasks of commands/command_prune.go send, by the answers of Git.
use git_lfs.Prelude.{
  ◌≡◌, ap, ◌∙◌, Bool, true, false, not, ◌&&◌, ◌||◌, Option, Option-cases, inl, inr, some, List, [],
  ◌∷◌, ◌++◌, Text, text_comparable, elem, same_text_iff, arith, if◌then◌else◌,
}
use git_lfs.Commands.Prune.{
  FetchPruneConfig, Message, some_message, is_problem, has_problem, Repository, from_current,
  above_zero, plus, scanned, ref_scan, at_new_refs, recent_refs, current_and_recent_refs,
  at_branches, current_and_recent, at_heads, work_trees, retained_messages, previous_versions,
}
use git_lfs.Commands.Prune.Sparing.{sends}
use git_lfs.Commands.Prune.Sparing.Sent.{
  is_retained, some_message-append, sends-scanned, sends-new_refs, new_refs_lem,
}

module _ (repo : Repository) (config : FetchPruneConfig) where
  abbrev pub recent_branches : Option (List Text)
  recent_branches =
      repo.recent_branches (plus config.fetch_recent_refs_days config.prune_offset_days)
        config.fetch_recent_refs_include_remotes

  pub from_current_lem :
      (head oid : Text)
      → sends oid (from_current repo config head) ≡ (
          (not config.prune_force && sends oid (ref_scan repo head).found)
          || (sends oid (recent_refs repo config (head ∷ [])).1
              || ((not config.prune_recent && above_zero config.fetch_recent_commits_days)
                  && sends oid
                      (previous_versions repo config (recent_refs repo config (head ∷ [])).0))))
  unfolding from_current some_message
  from_current_lem head oid =
      let old =
        if not config.prune_recent && above_zero config.fetch_recent_commits_days
        then previous_versions repo config (recent_refs repo config (head ∷ [])).0
        else [] in
      ground (
        arith,
        some_message-append (is_retained oid)
            (if config.prune_force then [] else scanned (ref_scan repo head))
            ((recent_refs repo config (head ∷ [])).1 ++ old),
        some_message-append (is_retained oid) (recent_refs repo config (head ∷ [])).1 old,
        sends-scanned oid (ref_scan repo head),
      )

  pub recent_lem :
      {refs : List Text} (head : Text)
      → config.prune_recent ≡ false
      → above_zero config.fetch_recent_refs_days ≡ true
      → recent_branches ≡ some refs
      → recent_refs repo config (head ∷ []) ≡ at_new_refs repo config (head ∷ []) refs
  unfolding recent_refs
  recent_lem head e f g = ground (arith, ap (at_branches repo config (head ∷ [])) g)

  module _ (head : Text) (located : repo.current_ref ≡ some head) where
    pub current_lem : current_and_recent_refs repo config ≡ from_current repo config head
    unfolding current_and_recent_refs
    current_lem = ap (current_and_recent repo config) located

    pub work_tree_lem :
        {heads : List Text}
        → config.prune_force ≡ false
        → repo.work_tree_heads ≡ some heads
        → work_trees repo config ≡ (at_new_refs repo config (head ∷ []) heads).1
    unfolding work_trees
    work_tree_lem {heads} f e =
        let found = ap (λ r. at_heads repo config r repo.current_ref) e in
        ground (arith, found ∙ ap (at_heads repo config (some heads)) located)

  pub retained_lem :
      (p : Message → Bool)
      → some_message p (retained_messages repo config) ≡ (
          some_message p (current_and_recent_refs repo config)
          || (some_message p (scanned (repo.scan_unpushed config.prune_remote_name))
              || (some_message p (work_trees repo config)
                  || some_message p (scanned repo.scan_stashed))))
  unfolding retained_messages
  retained_lem p =
      let stashes = scanned repo.scan_stashed in
      let others = work_trees repo config ++ stashes in
      ground (
        arith,
        some_message-append p (current_and_recent_refs repo config)
            (scanned (repo.scan_unpushed config.prune_remote_name) ++ others),
        some_message-append p (scanned (repo.scan_unpushed config.prune_remote_name)) others,
        some_message-append p (work_trees repo config) stashes,
      )

  -- Without a current commit, a task fails.
  pub current_ref_known :
      has_problem (retained_messages repo config) ≡ false
      → (head : Text) × (repo.current_ref ≡ some head)
  unfolding current_and_recent_refs some_message
  current_ref_known h = elim (Option-cases repo.current_ref) [
    | inl none_found ↦
        let failed = ap (λ r. has_problem (current_and_recent repo config r)) none_found in
        absurd (ground (arith, retained_lem is_problem, failed))
    | inr found ↦ found
  ]

  pub sends-new :
      (oid sha head : Text) (refs : List Text)
      → elem sha refs ≡ true
      → sends oid (ref_scan repo sha).found ≡ true
      → (sends oid (ref_scan repo head).found
          || sends oid (at_new_refs repo config (head ∷ []) refs).1)
        ≡ true
  unfolding elem
  sends-new oid sha head refs h found =
      ground
        (arith, sends-new_refs repo config oid sha (head ∷ []) refs h found, same_text_iff head sha)

  -- The current commit stays in the set when the recent branches join it.
  pub recent_refs-keeps : (head : Text) → elem head (recent_refs repo config (head ∷ [])).0 ≡ true
  unfolding recent_refs elem
  recent_refs-keeps head =
      let kept = same_text_iff head head in
      elim (Option-cases recent_branches) [
        | inl missing ↦ ground (arith, kept, ap (at_branches repo config (head ∷ [])) missing)
        | inr (refs, e) ↦ ground (
          arith,
          kept,
          ap (at_branches repo config (head ∷ [])) e,
          new_refs_lem repo config (head ∷ []) refs head,
        )
      ]
