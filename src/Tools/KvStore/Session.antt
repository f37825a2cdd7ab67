-- ===== src/Tools/KvStore/Session.antt =====
-- Between saves a store shows its log replayed onto the map that it was loaded from.
use git_lfs.Prelude.{◌≡◌, refl, none, List, [], ◌∷◌, Text, text_comparable, elem, false, arith}
use git_lfs.Prelude.Dict
use git_lfs.Prelude.Dict.{Dict}
use git_lfs.Prelude.Dict.Laws.{keys, lookup-insert, lookup-delete}
use git_lfs.Tools.KvStore.{Store, set, remove, remove_all, get}
use git_lfs.Tools.KvStore.Replay.{outcome, outcome-append, outcome-removals}

-- What a client of an open store may do.
pub data Edit (V : Type 0) : Type 0 where
  set_key : Text → V → Edit V
  remove_key : Text → Edit V
  remove_every : Edit V

module _ {V : Type 0} where
  abbrev pub edit : Store V → Edit V → Store V
  edit k (set_key key value) = set k key value
  edit k (remove_key key) = remove k key
  edit k remove_every = remove_all k

  abbrev pub edits : Store V → List (Edit V) → Store V
  edits k [] = k
  edits k (e ∷ es) = edits (edit k e) es

  -- Every read of the store is the outcome of the log on `base`.
  abbrev pub Tracks : Dict Text V → Store V → Type 0
  Tracks base k = (key : Text) → get k key ≡ outcome key (Dict.lookup key base) k.log

  absent_key : (m : Dict Text V) (k : Text) → elem k (keys m) ≡ false → Dict.lookup k m ≡ none
  unfolding Dict.lookup elem
  absent_key [] k h = refl
  absent_key ((j, v) ∷ m) k h = ground (arith, absent_key m k)

  pub edit-Tracks :
      (base : Dict Text V) (k : Store V) (e : Edit V) → Tracks base k → Tracks base (edit k e)
  unfolding set remove remove_all get
  edit-Tracks base k (set_key x v) h key =
      rw outcome-append (ground (arith, h key, lookup-insert x key v k.db))
  edit-Tracks base k (remove_key x) h key =
      rw outcome-append (ground (arith, h key, lookup-delete x key k.db))
  edit-Tracks base k remove_every h key =
      rw (outcome-append, outcome-removals)
        (unfold Dict.lookup in ground (arith, h key, absent_key k.db key))

  -- Whatever sequence of Set, Remove and RemoveAll a client makes on a store that tracks a map,
  -- each Get is the outcome of the store's log on that map.
  pub edits-Tracks :
      (base : Dict Text V) (k : Store V) (es : List (Edit V))
      → Tracks base k
      → Tracks base (edits k es)
  edits-Tracks base k [] h = h
  edits-Tracks base k (e ∷ es) h = edits-Tracks base (edit k e) es (edit-Tracks base k e h)
