-- ===== src/Lfs/Pointer/Sound.antt =====
-- What a decoded pointer is known to satisfy.
use mathlib.Core.Path.{subst}
use git_lfs.Prelude.{
  inl, inr, Option-cases, Bool-cases, ℕ, ◌+◌, ◌≤◌, ◌<◌, ◌^◌, ◌≡◌, ◌≢◌, ◌↔◌, refl, sym, ◌∙◌, ap,
  true, false, ◌||◌, Option, none, some, List, [], ◌∷◌, Text, codes, All, Uniq, elem, eqb, ltb,
  number_comparable, text_comparable, ◌==◌, same_text_iff, arith,
}
use git_lfs.Prelude.Int.{ℤ, pos, negsuc}
use git_lfs.Prelude.Dict
use git_lfs.Prelude.Dict.{Dict}
use git_lfs.Strings.{parse_int, trim_space}
use git_lfs.Strings.Decimal.{parse_int-lt}
use git_lfs.Lfs.Pointer.{
  Pointer, PointerExtension, encoded, new_pointer, new_pointer_extension, sha256, latest,
}
use git_lfs.Lfs.Pointer.Errors.{Decoded, decoded, refused, ◌>>=◌, PointerError}
use git_lfs.Lfs.Pointer.Decoding.{
  Maps, parse_oid, natural, three_parts, named_extension, parse_pointer_extension, parse_extensions,
  matches_oid, decode_kv, assemble, decode_buffer, decode_from, mark_canonical, Reader,
  insert_by_priority, sort_by_priority, validate, validate_pointer_extensions, verify_version,
  value_of, present, standardized, decode_kv_data,
}
use git_lfs.Lfs.Pointer.Valid.{Rises}
use git_lfs.Lfs.Pointer.Sorting.{priorities}

bind_ok :
    {Val Next : Type 0} {out : Next} (first : Decoded Val) (next : Val → Decoded Next)
    → (first >>= next) ≡ decoded out
    → (v : Val) × (first ≡ decoded v) × (next v ≡ decoded out)
bind_ok (decoded v) next h = (v, refl, h)
bind_ok (refused why) next h = cc

ok_injective : {p q : Pointer} → decoded p ≡ decoded q → p ≡ q
ok_injective h = cc

parse_oid_sound : (value oid : Text) → parse_oid value ≡ decoded oid → matches_oid oid ≡ true
unfolding parse_oid
parse_oid_sound value oid h = ground arith

natural_sound :
    (o : Option ℤ) (e : PointerError) (n : ℕ) → natural o e ≡ decoded n → o ≡ some (pos n)
unfolding natural
natural_sound none e n h = cc
natural_sound (some (pos m)) e n h = ground arith
natural_sound (some (negsuc m)) e n h = cc

-- An extension with a well-formed object ID.
pub record IsHashed (ext : PointerExtension) : Type 0 where
  pub hashed : matches_oid ext.oid ≡ true
  pub typed : ext.oid_type ≡ sha256

named_sound :
    (key value : Text) (parts : Text × Text × Text) (ext : PointerExtension)
    → named_extension key value parts ≡ decoded ext
    → IsHashed ext
unfolding named_extension new_pointer_extension
named_sound key value (a, b, c) ext h = record {
  hashed = ground (arith, parse_oid_sound value ext.oid);
  typed = ground arith;
}

parse_extension_sound :
    (key value : Text) (ext : PointerExtension)
    → parse_pointer_extension key value ≡ decoded ext
    → IsHashed ext
unfolding parse_pointer_extension
parse_extension_sound key value ext h = elim (Option-cases (three_parts key)) [
  | inl absent ↦ absurd (ground arith)
  | inr (parts, found) ↦ named_sound key value parts ext (ground arith)
]

parse_extensions_sound :
    (m : Dict Text Text) (exts : List PointerExtension)
    → parse_extensions m ≡ decoded exts
    → All IsHashed exts
unfolding parse_extensions
parse_extensions_sound [] [] h = tt
parse_extensions_sound [] (x ∷ exts) h = cc
parse_extensions_sound ((key, value) ∷ m) [] h = absurd (ground arith)
parse_extensions_sound ((key, value) ∷ m) (x ∷ exts) h =
    (parse_extension_sound key value x (ground arith), parse_extensions_sound m exts (ground arith))

All-insert :
    (x : PointerExtension) (xs : List PointerExtension)
    → IsHashed x
    → All IsHashed xs
    → All IsHashed (insert_by_priority x xs)
unfolding insert_by_priority
All-insert x [] h a = (h, tt)
All-insert x (y ∷ xs) h a = elim (Bool-cases (ltb x.priority y.priority)) [
  | inl less ↦ rw less (h, a)
  | inr more ↦ rw more (a.0, All-insert x xs h a.1)
]

All-sort : (xs : List PointerExtension) → All IsHashed xs → All IsHashed (sort_by_priority xs)
unfolding sort_by_priority
All-sort [] a = tt
All-sort (x ∷ xs) a = All-insert x (sort_by_priority xs) a.0 (All-sort xs a.1)

insert-Rises :
    (low : ℕ) (x : PointerExtension) (xs : List PointerExtension)
    → low ≤ x.priority
    → elem x.priority (priorities xs) ≡ false
    → Rises low xs
    → Rises low (insert_by_priority x xs)
unfolding insert_by_priority elem
insert-Rises low x [] l n r = (l, tt)
insert-Rises low x (y ∷ xs) l n r = elim (Bool-cases (ltb x.priority y.priority)) [
  | inl less ↦ rw less (l, (ground arith, r.1))
  | inr more ↦ rw more (r.0, insert-Rises (y.priority + 1) x xs (ground arith) (ground arith) r.1)
]

elem-insert :
    (k : ℕ) (x : PointerExtension) (xs : List PointerExtension)
    → elem k (priorities (insert_by_priority x xs)) ≡ (eqb x.priority k || elem k (priorities xs))
unfolding insert_by_priority elem
elem-insert k x [] = refl
elem-insert k x (y ∷ xs) = ground (arith, elem-insert k x xs)

elem-sort :
    (k : ℕ) (xs : List PointerExtension)
    → elem k (priorities (sort_by_priority xs)) ≡ elem k (priorities xs)
unfolding sort_by_priority elem
elem-sort k [] = refl
elem-sort k (x ∷ xs) = ground (arith, elem-insert k x (sort_by_priority xs), elem-sort k xs)

sort-Rises : (xs : List PointerExtension) → Uniq (priorities xs) → Rises 0 (sort_by_priority xs)
unfolding sort_by_priority
sort-Rises [] u = tt
sort-Rises (x ∷ xs) u =
    insert-Rises 0 x (sort_by_priority xs) (omega arith) (elem-sort x.priority xs ∙ u.0)
      (sort-Rises xs u.1)

-- What has been seen is not met again.
validate_apart :
    (k : ℕ) (seen : List ℕ) (xs : List PointerExtension)
    → validate seen xs ≡ decoded tt
    → elem k seen ≡ true
    → elem k (priorities xs) ≡ false
unfolding validate elem
validate_apart k seen [] h m = refl
validate_apart k seen (x ∷ xs) h m =
    ground (
      arith,
      validate_apart k (x.priority ∷ seen) xs,
      ap (λ j. elem j seen) {x = x.priority} {y = k},
    )

validate_unique :
    (seen : List ℕ) (xs : List PointerExtension)
    → validate seen xs ≡ decoded tt
    → Uniq (priorities xs)
unfolding validate elem
validate_unique seen [] h = tt
validate_unique seen (x ∷ xs) h = (
  validate_apart x.priority (x.priority ∷ seen) xs (ground arith) (ground arith),
  validate_unique (x.priority ∷ seen) xs (ground arith),
)

-- What every decoded pointer satisfies.
pub record IsDecoded (p : Pointer) : Type 0 where
  pub versioned : p.version ≡ latest
  pub typed : p.oid_type ≡ sha256
  pub hashed : matches_oid p.oid ≡ true
  pub fits : p.size < 2 ^ 63
  pub extended : All IsHashed p.extensions
  pub rising : Rises 0 p.extensions

-- What the steps of a successful `decodeKV` returned.
Steps :
    (Text → Decoded Text)
    → Decoded ℕ
    → Decoded (List PointerExtension)
    → (List PointerExtension → Decoded (Unit {0}))
    → Pointer
    → Type 0
Steps f m5 m6 g p =
    (value oid : Text) × (size : ℕ) × (exts : List PointerExtension) × (f value ≡ decoded oid)
    × (m5 ≡ decoded size)
    × (m6 ≡ decoded exts)
    × (g exts ≡ decoded tt)
    × (new_pointer oid size (sort_by_priority exts) ≡ p)

Steps-of :
    (m1 : Decoded (Unit {0})) (m2 : Decoded Text) (f : Text → Decoded Text) (m5 : Decoded ℕ)
    (m6 : Decoded (List PointerExtension)) (g : List PointerExtension → Decoded (Unit {0}))
    (p : Pointer)
    → (m1 >>= λ _. m2 >>= λ value. f value >>= λ oid. m5 >>= λ size.
        m6 >>= λ exts. g exts >>= λ _. decoded (new_pointer oid size (sort_by_priority exts)))
      ≡ decoded p
    → Steps f m5 m6 g p
unfolding Steps
Steps-of (decoded _) (decoded value) f (decoded size) (decoded exts) g p h =
    let (oid, o, h') = bind_ok (f value) _ h in
    let (t, u, built) = bind_ok (g exts) _ h' in
    (value, oid, size, exts, o, refl, refl, u, ok_injective built)
Steps-of _ _ f _ _ g p h = absurd (ground arith)

module _ (order : Dict Text Text → Dict Text Text) where
  assemble_sound : (maps : Maps) (p : Pointer) → assemble order maps ≡ decoded p → IsDecoded p
  unfolding assemble new_pointer validate_pointer_extensions Steps
  assemble_sound (kvps, exts) p h =
      let (value, oid, size, extensions, o, s, e, u, built) =
        Steps-of (verify_version (value_of (codes "version") kvps))
          (present (Dict.lookup (codes "oid") kvps) _) parse_oid
          (natural (parse_int (value_of (codes "size") kvps)) _) (parse_extensions (order exts))
          (validate []) p h in
      subst IsDecoded built (record {
        versioned = refl;
        typed = refl;
        hashed = parse_oid_sound value oid o;
        fits = parse_int-lt _ size (natural_sound _ _ size s);
        extended = All-sort extensions (parse_extensions_sound (order exts) extensions e);
        rising = sort-Rises extensions (validate_unique [] extensions u);
      })

  decode_kv_sound : (s : Text) (p : Pointer) → decode_kv order s ≡ decoded p → IsDecoded p
  unfolding decode_kv
  decode_kv_sound s p h =
      let (maps, _, built) = bind_ok (standardized (decode_kv_data s)) (assemble order) h in
      assemble_sound maps p built

  mark_sound : (s : Text) (p : Pointer) → IsDecoded p → IsDecoded (mark_canonical s p)
  unfolding mark_canonical
  mark_sound s p d = record {
    versioned = d.versioned;
    typed = d.typed;
    hashed = d.hashed;
    fits = d.fits;
    extended = d.extended;
    rising = d.rising;
  }

  encoded-mark_canonical : (s : Text) (p : Pointer) → encoded (mark_canonical s p) ≡ encoded p
  unfolding mark_canonical encoded
  encoded-mark_canonical s p = refl

  canonical-mark : (s : Text) (p : Pointer) → (mark_canonical s p).canonical ≡ (encoded p == s)
  unfolding mark_canonical
  canonical-mark s p = refl

  buffer_sound :
      (c : ℕ) (s : Text) (p : Pointer)
      → decode_buffer order (c ∷ s) ≡ decoded p
      → IsDecoded p × ((p.canonical ≡ true) ↔ (encoded p ≡ c ∷ s))
  unfolding decode_buffer
  buffer_sound c s p h =
      let (q, parsed, built) =
        bind_ok (decode_kv order (trim_space (c ∷ s))) (λ q. decoded (mark_canonical (c ∷ s) q))
          h in
      let sound = decode_kv_sound (trim_space (c ∷ s)) q parsed in
      let e : mark_canonical (c ∷ s) q ≡ p = ok_injective built in
      subst (λ r. IsDecoded r × ((r.canonical ≡ true) ↔ (encoded r ≡ c ∷ s))) e
        (
          mark_sound (c ∷ s) q sound,
          (
            λ t.
                encoded-mark_canonical (c ∷ s) q
                ∙ (same_text_iff (encoded q) (c ∷ s)).0 (sym (canonical-mark (c ∷ s) q) ∙ t),
            λ t.
                canonical-mark (c ∷ s) q
                ∙ (same_text_iff (encoded q) (c ∷ s)).1
                    (sym (encoded-mark_canonical (c ∷ s) q) ∙ t),
          ),
        )

  -- A pointer decoded from at least one byte has the latest version, the SHA-256 type, an object ID
  -- of 64 hexadecimal digits, a size below 2^63, and extensions with such object IDs in strictly
  -- rising order of priority; and it is canonical exactly when its encoding is the bytes read.
  pub decode_from_sound :
      (r : Reader) (p : Pointer)
      → r.first ≢ []
      → (decode_from order r).0 ≡ decoded p
      → IsDecoded p × ((p.canonical ≡ true) ↔ (encoded p ≡ r.first))
  unfolding decode_from
  decode_from_sound r p n h = some_bytes r.first n (ground arith)
    where
      some_bytes :
          (s : Text)
          → s ≢ []
          → decode_buffer order s ≡ decoded p
          → IsDecoded p × ((p.canonical ≡ true) ↔ (encoded p ≡ s))
      some_bytes [] n h = absurd (n refl)
      some_bytes (c ∷ s) n h = buffer_sound c s p h
