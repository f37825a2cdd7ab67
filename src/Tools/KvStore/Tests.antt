-- ===== src/Tools/KvStore/Tests.antt =====
-- Two sessions of tools/kv/keyvaluestore.go, and the theorems at concrete stores.
use git_lfs.Prelude.{
  ℕ, ◌≡◌, ◌≢◌, refl, none, List, [], ◌∷◌, Text, codes, text_comparable, true, arith,
}
use git_lfs.Prelude.Dict
use git_lfs.Prelude.Dict.{Dict}
use git_lfs.Tools.KvStore.{
  Store, Change, set_operation, File, no_version, contents, save, set, remove, get, new_store,
  load_and_merge_reader, next_version,
}
use git_lfs.Tools.KvStore.Replay.{outcome}
use git_lfs.Tools.KvStore.Session.{
  Tracks, Edit, set_key, remove_key, remove_every, edits, edits-Tracks,
}
use git_lfs.Tools.KvStore.Saving.{Holds, save_merges, second_save_merges, new_store-save}

abbrev on_disk : Dict Text ℕ
on_disk = (codes "x", 1) ∷ (codes "y", 2) ∷ []

abbrev loaded : Store ℕ
loaded = record { log = []; version = 7; db = on_disk }

loaded-Tracks : Tracks on_disk loaded
unfolding get
loaded-Tracks key = refl

abbrev script_a : List (Edit ℕ)
script_a = remove_every ∷ set_key (codes "x") 5 ∷ []

abbrev script_b : List (Edit ℕ)
script_b = remove_key (codes "x") ∷ set_key (codes "z") 9 ∷ []

abbrev a : Store ℕ
a = edits loaded script_a

abbrev b : Store ℕ
b = edits loaded script_b

a_changed : a.log ≢ []
unfolding set git_lfs.Tools.KvStore.remove_all
a_changed = cc

b_changed : b.log ≢ []
unfolding set remove
b_changed = cc

a_version : a.version ≡ 7
unfolding set git_lfs.Tools.KvStore.remove_all
a_version = refl

b_version : b.version ≡ 7
unfolding set remove
b_version = refl

edits-Tracks_example : Tracks on_disk a
edits-Tracks_example = edits-Tracks on_disk loaded script_a loaded-Tracks

save_merges_example :
    Holds
      (save true true true a (contents 7 on_disk)).1
      (next_version 7)
      (λ key. outcome key (Dict.lookup key on_disk) a.log)
    × ((save true true true a (contents 7 on_disk)).2 ≡ none)
    × ((save true true true a (contents 7 on_disk)).0.log ≡ [])
    × ((save true true true a (contents 7 on_disk)).0.version ≡ next_version 7)
    × ((key : Text)
        → get (save true true true a (contents 7 on_disk)).0 key
          ≡ outcome key (Dict.lookup key on_disk) a.log)
save_merges_example =
    save_merges on_disk a 7 on_disk (edits-Tracks on_disk loaded script_a loaded-Tracks) a_changed
      (λ _ key. refl)

second_save_merges_example :
    Holds
      (save true true true b (save true true true a (contents 7 on_disk)).1).1
      (next_version (next_version 7))
      (λ key. outcome key (outcome key (Dict.lookup key on_disk) a.log) b.log)
second_save_merges_example =
    second_save_merges a b 7 on_disk (omega arith) a_version b_version
      (edits-Tracks on_disk loaded script_a loaded-Tracks)
      (edits-Tracks on_disk loaded script_b loaded-Tracks) a_changed b_changed

new_store-save_example :
    ((new_store true true (save true true true a (contents 7 on_disk)).1).1 ≡ none)
    × ((new_store true true (save true true true a (contents 7 on_disk)).1).0.log ≡ [])
    × ((key : Text)
        → get (new_store true true (save true true true a (contents 7 on_disk)).1).0 key
          ≡ get (save true true true a (contents 7 on_disk)).0 key)
new_store-save_example =
    new_store-save on_disk a 7 on_disk (edits-Tracks on_disk loaded script_a loaded-Tracks)
      a_changed (λ _ key. refl) (omega arith)
