-- ===== src/Tools/KvStore/Saving.antt =====
-- What `Save` writes, alone and after another session's `Save`.
use git_lfs.Prelude.{
  ℕ, ◌+◌, ◌<◌, ◌^◌, ◌≡◌, ◌≢◌, ◌⊎◌, refl, sym, ◌∙◌, ap, Option, none, [], Text, text_comparable,
  true, false, eqb, eqb_iff, arith, Bool-cases, inl, inr, if◌then◌else◌,
}
use git_lfs.Prelude.Dict
use git_lfs.Prelude.Dict.{Dict}
use git_lfs.Tools.KvStore.{
  Store, File, no_version, no_db, contents, Error, save, next_version, get, new_store,
  load_and_merge_reader, reapply,
}
use git_lfs.Tools.KvStore.Replay.{outcome, lookup-reapply}
use git_lfs.Tools.KvStore.Session.{Tracks}

module _ {V : Type 0} where
  -- A saved file, with what each key of it holds.
  abbrev pub Holds : File V → ℕ → (Text → Option V) → Type 0
  Holds f v values =
      (d : Dict Text V) × (f ≡ contents v d) × ((key : Text) → Dict.lookup key d ≡ values key)

  -- The map that is written, and the version that it is written with.
  abbrev written : Store V → ℕ → Dict Text V → Dict Text V
  written k v d = if eqb v k.version then k.db else reapply d k.log

  save-contents :
      (k : Store V) (v : ℕ) (d : Dict Text V)
      → k.log ≢ []
      → save true true true k (contents v d) ≡ (
        record { log = []; version = next_version v; db = written k v d },
        contents (next_version v) (written k v d),
        none,
      )
  unfolding save
  save-contents k v d h = ground (arith)

  -- If a store with changes tracks the map it was loaded from, and a file at the store's version
  -- holds that map, Save writes for each key the outcome of the log on the file's value, at the
  -- next version; the store is then free of changes, has that version, and reads as the file.
  pub save_merges :
      (base : Dict Text V) (k : Store V) (v : ℕ) (d : Dict Text V)
      → Tracks base k
      → k.log ≢ []
      → (v ≡ k.version → (key : Text) → Dict.lookup key d ≡ Dict.lookup key base)
      → Holds
          (save true true true k (contents v d)).1
          (next_version v)
          (λ key. outcome key (Dict.lookup key d) k.log)
        × ((save true true true k (contents v d)).2 ≡ none)
        × ((save true true true k (contents v d)).0.log ≡ [])
        × ((save true true true k (contents v d)).0.version ≡ next_version v)
        × ((key : Text)
            → get (save true true true k (contents v d)).0 key
              ≡ outcome key (Dict.lookup key d) k.log)
  unfolding get
  save_merges base k v d t h same =
      let merges : (key : Text)
          → Dict.lookup key (written k v d) ≡ outcome key (Dict.lookup key d) k.log =
        λ key. elim (Bool-cases (eqb v k.version)) [
          | inl current ↦ rw current (
              t key
              ∙ ap (λ o. outcome key o k.log) (sym (same ((eqb_iff v k.version).0 current) key)))
          | inr stale ↦ rw stale (lookup-reapply d k.log key)
        ] in
      let e = save-contents k v d h in
      (
        (written k v d, ap (λ (r : Store V × File V × Option Error). r.1) e, merges),
        ap (λ (r : Store V × File V × Option Error). r.2) e,
        ap (λ (r : Store V × File V × Option Error). r.0.log) e,
        ap (λ (r : Store V × File V × Option Error). r.0.version) e,
        λ key. ap (λ (r : Store V × File V × Option Error). Dict.lookup key r.0.db) e ∙ merges key,
      )

  -- If two sessions load one file at a version below 2^64 and both have changes, the file after
  -- both saves holds for each key the outcome of the first session's log and then the second's on
  -- the value that was loaded, at the version after next.
  pub second_save_merges :
      (a b : Store V) (v : ℕ) (d : Dict Text V)
      → v < 2 ^ 64
      → a.version ≡ v
      → b.version ≡ v
      → Tracks d a
      → Tracks d b
      → a.log ≢ []
      → b.log ≢ []
      → Holds
          (save true true true b (save true true true a (contents v d)).1).1
          (next_version (next_version v))
          (λ key. outcome key (outcome key (Dict.lookup key d) a.log) b.log)
  unfolding next_version
  second_save_merges a b v d fits va vb ta tb ha hb =
      let first = (save_merges d a v d ta ha (λ _ key. refl)).0 in
      let stale : v + 1 ≢ 0 → next_version v ≡ b.version → ⊥ = λ _ e. omega arith in
      let second =
        (save_merges d b (next_version v) first.0 tb hb (λ e. absurd (stale (omega arith) e))).0 in
      (
        second.0,
        ap (λ (f : File V). (save true true true b f).1) first.1 ∙ second.1,
        λ key. second.2 key ∙ ap (λ o. outcome key o b.log) (first.2 key),
      )

  -- A file saved (under the conditions of save_merges, at a version that does not wrap) is loaded
  -- by a new store without error and without changes, and each key reads as in the store that saved
  -- it.
  pub new_store-save :
      (base : Dict Text V) (k : Store V) (v : ℕ) (d : Dict Text V)
      → Tracks base k
      → k.log ≢ []
      → (v ≡ k.version → (key : Text) → Dict.lookup key d ≡ Dict.lookup key base)
      → v + 1 < 2 ^ 64
      → ((new_store true true (save true true true k (contents v d)).1).1 ≡ none)
        × ((new_store true true (save true true true k (contents v d)).1).0.log ≡ [])
        × ((key : Text)
            → get (new_store true true (save true true true k (contents v d)).1).0 key
              ≡ get (save true true true k (contents v d)).0 key)
  unfolding new_store next_version reapply get
  new_store-save base k v d t h same fits =
      let e : (save true true true k (contents v d)).1 ≡ contents (next_version v) (written k v d) =
        ap (λ (r : Store V × File V × Option Error). r.1) (save-contents k v d h) in
      let e' : (save true true true k (contents v d)).0.db ≡ written k v d =
        ap (λ (r : Store V × File V × Option Error). r.0.db) (save-contents k v d h) in
      let loads : eqb (next_version v) 0 ≡ false = ground arith in
      (rw e (rw loads), rw e (rw loads), λ key. rw e (rw loads (rw e')))

  -- If a store has changes and the file does not decode (or only its map does not, at another
  -- version), the load fails, but Save reports no error and writes the store's own map over the
  -- file.
  pub save_drops_load_error :
      (k : Store V) (f : File V)
      → (f ≡ no_version) ⊎ ((v : ℕ) × (f ≡ no_db v) × (v ≢ k.version))
      → k.log ≢ []
      → ((load_and_merge_reader k f).1 ≢ none)
        × (save true true true k f ≡ (
          record { log = []; version = next_version k.version; db = k.db },
          contents (next_version k.version) k.db,
          none,
        ))
  unfolding save
  save_drops_load_error k f (inl e) h = (ground arith, ground arith)
  save_drops_load_error k f (inr (v, e, n)) h =
      (ground (arith, eqb_iff v k.version), ground (arith, eqb_iff v k.version))
