-- ===== src/Locking/Cache/Pairs.antt =====
-- The two entries of each lock in the cache of locking/cache.go.
use git_lfs.Prelude.{
  ◌≡◌, refl, true, false, none, some, inl, inr, Bool-cases, Text, text_comparable, ◌==◌,
  same_text_iff, arith, eq_refl, if◌then◌else◌,
}
use git_lfs.Prelude.Dict
use git_lfs.Prelude.Dict.{Dict}
use git_lfs.Prelude.Dict.Laws.{lookup-insert, lookup-delete}
use git_lfs.Strings.{has_prefix}
use git_lfs.Tools.KvStore.{set, get, remove}
use git_lfs.Locking.Cache.{
  Lock, LockCache, is_id_key, encode_id_key, add, remove_by_path, remove_by_id,
}

pub is_id_key-encode_id_key : (id : Text) → is_id_key (encode_id_key id) ≡ true
unfolding encode_id_key
is_id_key-encode_id_key id = elim (Bool-cases (is_id_key id)) [
  | inl y ↦ rw (y, encode_id_key) y
  | inr n ↦ rw (n, encode_id_key) (unfold is_id_key has_prefix in refl)
]

-- Each lock in the cache is found under its path, which is no key of an ID, and under the key of its
-- ID, and under no other key.
pub record IsPaired (c : LockCache) : Type 0 where
  pub by_path :
      (key : Text) (l : Lock)
      → is_id_key key ≡ false
      → get c key ≡ some l
      → (l.path ≡ key) × (get c (encode_id_key l.id) ≡ some l)
  pub by_id :
      (key : Text) (l : Lock)
      → is_id_key key ≡ true
      → get c key ≡ some l
      → (encode_id_key l.id ≡ key) × (is_id_key l.path ≡ false) × (get c l.path ≡ some l)

-- A lock may be added if its path is no key of an ID, and a lock that is there for its path or its
-- ID is there for both.
pub record IsAddable (c : LockCache) (l : Lock) : Type 0 where
  pub plain : is_id_key l.path ≡ false
  pub same_id : (old : Lock) → get c l.path ≡ some old → encode_id_key old.id ≡ encode_id_key l.id
  pub same_path : (old : Lock) → get c (encode_id_key l.id) ≡ some old → old.path ≡ l.path

get-add :
    (c : LockCache) (l : Lock) (key : Text)
    → get (add c l) key
      ≡ (if encode_id_key l.id == key then some l else if l.path == key then some l else get c key)
unfolding get add set
get-add c l key =
    rw (lookup-insert (encode_id_key l.id) key l (Dict.insert l.path l c.db))
      (rw (lookup-insert l.path key l c.db) refl)

pub get-remove_two :
    (c : LockCache) (a b key : Text)
    → get (remove (remove c a) b) key
      ≡ (if b == key then none else if a == key then none else get c key)
unfolding get remove
get-remove_two c a b key =
    rw (lookup-delete b key (Dict.delete a c.db)) (rw (lookup-delete a key c.db) refl)

pub add-IsPaired : (c : LockCache) (l : Lock) → IsPaired c → IsAddable c l → IsPaired (add c l)
add-IsPaired c l w f = record {
  by_path = λ key m plain found.
      let here = is_id_key-encode_id_key l.id in
      let there = is_id_key-encode_id_key m.id in
      let old = w.by_path key m plain in
      let clash = f.same_path m in
      ground (
        arith,
        f.plain,
        get-add c l key,
        get-add c l (encode_id_key l.id),
        get-add c l (encode_id_key m.id),
        same_text_iff (encode_id_key l.id) key,
        same_text_iff l.path key,
        same_text_iff (encode_id_key l.id) (encode_id_key m.id),
        same_text_iff l.path (encode_id_key m.id),
        eq_refl (encode_id_key l.id),
      );
  by_id = λ key m id found.
      let here = is_id_key-encode_id_key l.id in
      let old = w.by_id key m id in
      let clash = f.same_id m in
      ground (
        arith,
        f.plain,
        get-add c l key,
        get-add c l l.path,
        get-add c l m.path,
        same_text_iff (encode_id_key l.id) key,
        same_text_iff l.path key,
        same_text_iff (encode_id_key l.id) l.path,
        same_text_iff (encode_id_key l.id) m.path,
        same_text_iff l.path m.path,
        eq_refl l.path,
      );
}

-- The lock is in the cache, under both of its keys.
abbrev pub IsHeld : LockCache → Lock → Type 0
IsHeld c l =
    (is_id_key l.path ≡ false) × (get c l.path ≡ some l) × (get c (encode_id_key l.id) ≡ some l)

-- `d` has the entries of `c` but the two of `l`.
abbrev pub Forgets : LockCache → Lock → LockCache → Type 0
Forgets c l d =
    (key : Text)
    → get d key
      ≡ (if encode_id_key l.id == key then none else if l.path == key then none else get c key)

pub Forgets-IsPaired :
    (c d : LockCache) (l : Lock) → IsPaired c → IsHeld c l → Forgets c l d → IsPaired d
Forgets-IsPaired c d l w (plain_path, under_path, under_id) forgets = record {
  by_path = λ key m plain found.
      let old = w.by_path key m plain in
      ground (
        arith,
        forgets key,
        forgets (encode_id_key m.id),
        is_id_key-encode_id_key m.id,
        same_text_iff (encode_id_key l.id) (encode_id_key m.id),
        same_text_iff l.path (encode_id_key m.id),
        same_text_iff l.path key,
      );
  by_id = λ key m id found.
      let old = w.by_id key m id in
      ground (
        arith,
        forgets key,
        forgets m.path,
        is_id_key-encode_id_key l.id,
        same_text_iff (encode_id_key l.id) m.path,
        same_text_iff l.path m.path,
        same_text_iff (encode_id_key l.id) key,
      );
}

-- A lock that is held is forgotten, by its path and by its ID alike.
pub remove_by_path-Forgets :
    (c : LockCache) (l : Lock) → IsHeld c l → Forgets c l (remove_by_path c l.path)
unfolding remove_by_path
remove_by_path-Forgets c l (plain_path, under_path, under_id) key =
    rw (under_path, remove_by_path) (get-remove_two c l.path (encode_id_key l.id) key)

pub remove_by_id-Forgets :
    (c : LockCache) (l : Lock) → IsHeld c l → Forgets c l (remove_by_id c l.id)
unfolding remove_by_id
remove_by_id-Forgets c l (plain_path, under_path, under_id) key =
    rw (under_id, remove_by_id) (ground (arith, get-remove_two c (encode_id_key l.id) l.path key))
