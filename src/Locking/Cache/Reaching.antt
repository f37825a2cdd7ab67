-- ===== src/Locking/Cache/Reaching.antt =====
-- What a client of the cache of locking/cache.go can reach, and what the two ways to remove a lock do.
use git_lfs.Prelude.{
  ◌≡◌, ◌∙◌, sym, false, none, some, inl, inr, Bool-cases, Option-cases, Text, text_comparable, ◌==◌,
  ◌||◌, arith, if◌then◌else◌,
}
use git_lfs.Prelude.Dict
use git_lfs.Tools.KvStore.{get, remove_all}
use git_lfs.Locking.Cache.{
  Lock, LockCache, is_id_key, encode_id_key, add, remove_by_path, remove_by_id, clear,
}
use git_lfs.Locking.Cache.Pairs.{
  IsPaired, IsAddable, IsHeld, is_id_key-encode_id_key, add-IsPaired, Forgets-IsPaired,
  get-remove_two, remove_by_path-Forgets, remove_by_id-Forgets,
}

IsPaired-IsHeld :
    (c : LockCache) (key : Text) (l : Lock) → IsPaired c → get c key ≡ some l → IsHeld c l
IsPaired-IsHeld c key l w found = elim (Bool-cases (is_id_key key)) [
  | inl y ↦
      let (same, plain, under_path) = w.by_id key l y found in (plain, under_path, ground arith)
  | inr n ↦ let (same, under_id) = w.by_path key l n found in (ground arith, ground arith, under_id)
]

clear-IsPaired : (c : LockCache) → IsPaired (clear c)
unfolding clear remove_all get Dict.lookup
clear-IsPaired c = record {
  by_path = λ key l plain found. absurd (ground arith);
  by_id = λ key l id found. absurd (ground arith);
}

remove_by_path-IsPaired :
    (c : LockCache) (file_path : Text) → IsPaired c → IsPaired (remove_by_path c file_path)
unfolding remove_by_path
remove_by_path-IsPaired c file_path w = elim (Option-cases (get c file_path)) [
  | inl e ↦ rw (e, remove_by_path) w
  | inr (l, e) ↦
      rw (e, remove_by_path)
        (Forgets-IsPaired c _ l w (IsPaired-IsHeld c file_path l w e)
          (get-remove_two c l.path (encode_id_key l.id)))
]

remove_by_id-IsPaired : (c : LockCache) (id : Text) → IsPaired c → IsPaired (remove_by_id c id)
unfolding remove_by_id
remove_by_id-IsPaired c id w = elim (Option-cases (get c (encode_id_key id))) [
  | inl e ↦ rw (e, remove_by_id) w
  | inr (l, e) ↦
      rw (e, remove_by_id)
        (Forgets-IsPaired c _ l w (IsPaired-IsHeld c (encode_id_key id) l w e) (λ key. ground (
          arith,
          get-remove_two c (encode_id_key id) l.path key,
          w.by_id (encode_id_key id) l (is_id_key-encode_id_key id) e,
        )))
]

-- What a client does with the cache: a lock that the server gave is added, locks are removed by path
-- or by ID, and all are dropped.
infix 40 ◌⟶◌ ◌⟶*◌
pub data ◌⟶◌ : LockCache → LockCache → Type 0 where
  adds : {c : LockCache} (l : Lock) → IsAddable c l → c ⟶ add c l
  removes_path : {c : LockCache} (file_path : Text) → c ⟶ remove_by_path c file_path
  removes_id : {c : LockCache} (id : Text) → c ⟶ remove_by_id c id
  clears : {c : LockCache} → c ⟶ clear c

pub data ◌⟶*◌ : LockCache → LockCache → Type 0 where
  here : {c : LockCache} → c ⟶* c
  next : {c d e : LockCache} → c ⟶ d → d ⟶* e → c ⟶* e

step-IsPaired : {c d : LockCache} → c ⟶ d → IsPaired c → IsPaired d
step-IsPaired {c} (adds l f) w = add-IsPaired c l w f
step-IsPaired {c} (removes_path file_path) w = remove_by_path-IsPaired c file_path w
step-IsPaired {c} (removes_id id) w = remove_by_id-IsPaired c id w
step-IsPaired {c} clears w = clear-IsPaired c

pub reached-IsPaired : {c d : LockCache} → c ⟶* d → IsPaired c → IsPaired d
reached-IsPaired here w = w
reached-IsPaired (next s more) w = reached-IsPaired more (step-IsPaired s w)

-- For a lock that such a cache has under its path, no key of an ID, removing it by its ID and by
-- its path leave the same entries: the two of the lock are gone and every other is as before.
pub remove_by_id-remove_by_path :
    (c : LockCache) (l : Lock)
    → IsPaired c
    → is_id_key l.path ≡ false
    → get c l.path ≡ some l
    → (key : Text)
    → (get (remove_by_id c l.id) key ≡ get (remove_by_path c l.path) key)
      × (get (remove_by_path c l.path) key
          ≡ (if encode_id_key l.id == key || l.path == key then none else get c key))
remove_by_id-remove_by_path c l w plain found key =
    let held = IsPaired-IsHeld c l.path l w found in
    let by_path = remove_by_path-Forgets c l held key in
    (remove_by_id-Forgets c l held key ∙ sym by_path, ground (arith, by_path))
