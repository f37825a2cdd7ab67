-- ===== src/Lfs/Pointer/RoundTrip.antt =====
-- Decoding what was encoded.
use mathlib.Core.List.{Permᴰ}
use git_lfs.Prelude.{
  ◌+◌, ◌<◌, ◌≡◌, ◌≢◌, refl, sym, ◌∙◌, ap, Bool, true, false, ◌||◌, some, List, [], ◌∷◌, ◌++◌, Text,
  codes, All, elem, eqb, number_comparable, text_comparable, ◌==◌, eq_refl, arith,
}
use git_lfs.Prelude.Int.{pos}
use git_lfs.Prelude.Dict
use git_lfs.Prelude.Dict.{Dict}
use git_lfs.Strings.{format_int, parse_int, split_first, trim_space, has_prefix, contains_text}
use git_lfs.Strings.Decimal.{format_int_digit, parse_int-format_int}
use git_lfs.Lfs.Pointer.{
  Pointer, PointerExtension, encoded, new_pointer, new_pointer_extension, latest,
}
use git_lfs.Lfs.Pointer.Errors.{decoded, ◌>>=◌}
use git_lfs.Lfs.Pointer.Decoding.{
  parse_oid, natural, three_parts, named_extension, parse_pointer_extension, parse_extensions,
  matches_oid, matches_header, scan, decode_kv_data, decode_kv, assemble, decode_buffer,
  decode_from, mark_canonical, Reader, failed, sort_by_priority, verify_version, present,
  standardized,
}
use git_lfs.Lfs.Pointer.Valid.{IsExtension, IsPointer}
use git_lfs.Lfs.Pointer.Lines.{
  ext_key, ext_value, oid_line, size_line, trimmed, trim_space-encoded, scan_lines-trimmed,
}
use git_lfs.Lfs.Pointer.Scanning.{entries, scan-extensions}
use git_lfs.Lfs.Pointer.Sorting.{
  All-perm, sort-perm, sort-Rises, Rises-Uniq, Uniq-perm, validate-distinct,
}

parse_oid-sha256 :
    (oid : Text) → matches_oid oid ≡ true → parse_oid (codes "sha256:" ++ oid) ≡ decoded oid
unfolding parse_oid split_first
parse_oid-sha256 oid h = rw h

three_parts-ext_key :
    (ext : PointerExtension)
    → ext.priority < 10
    → three_parts (ext_key ext) ≡ some (codes "ext", (48 + ext.priority) ∷ [], ext.name)
unfolding three_parts split_first
three_parts-ext_key ext h = rw (format_int_digit ext.priority h) (ground arith)

parse-entry :
    (ext : PointerExtension)
    → IsExtension ext
    → parse_pointer_extension (ext_key ext) (ext_value ext) ≡ decoded ext
unfolding parse_pointer_extension named_extension new_pointer_extension natural
parse-entry ext v =
    let number : parse_int ((48 + ext.priority) ∷ []) ≡ some (pos ext.priority) =
      ap parse_int (sym (format_int_digit ext.priority v.one_digit))
      ∙ parse_int-format_int ext.priority (omega (arith, v.one_digit)) in
    rw (three_parts-ext_key ext v.one_digit, parse_pointer_extension)
      (rw number (rw (parse_oid-sha256 ext.oid v.hashed) (ground (arith, v.typed))))

parse-entries :
    (exts : List PointerExtension)
    → All IsExtension exts
    → parse_extensions (entries exts) ≡ decoded exts
unfolding parse_extensions
parse-entries [] v = refl
parse-entries (x ∷ exts) v = rw (parse-entry x v.0) (rw (parse-entries exts v.1))

-- A rearrangement of the entries is the entries of a rearrangement.
entries-perm :
    {m d : Dict Text Text}
    → Permᴰ m d
    → (exts : List PointerExtension) → d ≡ entries exts
    → (exts' : List PointerExtension) × (m ≡ entries exts') × Permᴰ exts' exts
entries-perm Permᴰ.nil [] e = ([], refl, Permᴰ.nil)
entries-perm Permᴰ.nil (x ∷ exts) e = cc
entries-perm (Permᴰ.cons e p) [] f = cc
entries-perm (Permᴰ.cons e p) (x ∷ exts) f =
    let (exts', g, q) = entries-perm p exts (cc) in (x ∷ exts', cc, Permᴰ.cons refl q)
entries-perm (Permᴰ.swap e g) [] f = cc
entries-perm (Permᴰ.swap e g) (x ∷ []) f = cc
entries-perm (Permᴰ.swap e g) (x ∷ y ∷ exts) f = (y ∷ x ∷ exts, cc, Permᴰ.swap refl refl)
entries-perm (Permᴰ.trans p q) exts f =
    let (mid, g, r) = entries-perm q exts f in
    let (exts', h, s) = entries-perm p mid g in (exts', h, Permᴰ.trans s r)

or_true : (a b : Bool) → b ≡ true → (a || b) ≡ true
or_true true b h = refl
or_true false b h = h

-- An order in which a loop may visit a map: each entry once.
abbrev pub IsOrder : (Dict Text Text → Dict Text Text) → Type 0
IsOrder order = (m : Dict Text Text) → Permᴰ (order m) m

module _ (order : Dict Text Text → Dict Text Text) (visits : IsOrder order) (p : Pointer)
    (v : IsPointer p) where
  names_lfs : contains_text (codes "git-lfs") (trimmed p) ≡ true
  unfolding contains_text has_prefix
  names_lfs = refl

  header_matches : matches_header (trimmed p) ≡ true
  unfolding matches_header
  header_matches = or_true _ _ names_lfs

  decode_lines :
      decode_kv_data (trimmed p)
      ≡ decoded (
        (codes "version", latest)
            ∷ (codes "oid", codes "sha256:" ++ p.oid)
            ∷ (codes "size", format_int p.size)
            ∷ [],
        entries p.extensions,
      )
  unfolding decode_kv_data
  decode_lines = rw header_matches (
      rw (scan_lines-trimmed p v) (
        unfold scan split_first Dict.insert in
        (scan-extensions [] p.extensions 0 (oid_line p.oid ∷ size_line p.size ∷ [])
          (codes "size" ∷ []) ((codes "version", latest) ∷ []) v.extended v.rising tt)))

  assembled :
      (maps : Dict Text Text × Dict Text Text)
      → maps ≡ (
        (codes "version", latest)
            ∷ (codes "oid", codes "sha256:" ++ p.oid)
            ∷ (codes "size", format_int p.size)
            ∷ [],
        entries p.extensions,
      )
      → assemble order maps ≡ decoded (new_pointer p.oid p.size p.extensions)
  unfolding assemble verify_version elem natural Dict.lookup present
  assembled maps e =
      let (exts', visited, perm) = entries-perm (visits (entries p.extensions)) p.extensions refl in
      let unique = Rises-Uniq 0 p.extensions v.rising in
      let parsed =
        ap parse_extensions visited ∙ parse-entries exts' (All-perm IsExtension perm v.extended) in
      let sorted : sort_by_priority exts' ≡ p.extensions =
        sort-perm perm unique ∙ sort-Rises 0 p.extensions v.rising in
      let size = parse_int-format_int p.size v.fits in
      rw e (
        rw (parse_oid-sha256 p.oid v.hashed)
          (rw size (rw parsed (rw (validate-distinct exts' (Uniq-perm perm unique)) (rw sorted)))))

  decode_kv-trimmed : decode_kv order (trimmed p) ≡ decoded (new_pointer p.oid p.size p.extensions)
  unfolding decode_kv standardized
  decode_kv-trimmed = rw decode_lines (assembled _ refl)

  same_encoding : encoded (new_pointer p.oid p.size p.extensions) ≡ encoded p
  unfolding encoded new_pointer
  same_encoding = rw v.typed

  is_canonical : (encoded (new_pointer p.oid p.size p.extensions) == encoded p) ≡ true
  is_canonical = ap (λ t. t == encoded p) same_encoding ∙ eq_refl (encoded p)

  marked :
      mark_canonical (encoded p) (new_pointer p.oid p.size p.extensions)
      ≡ record p { canonical = true }
  unfolding mark_canonical new_pointer
  marked = λ i. record {
    version = sym v.versioned i;
    oid = p.oid;
    size = p.size;
    oid_type = sym v.typed i;
    extensions = p.extensions;
    canonical = is_canonical i;
  }

  nonempty :
      (s : Text)
      → s ≢ []
      → decode_buffer order s
        ≡ (decode_kv order (trim_space s) >>= λ q. decoded (mark_canonical s q))
  unfolding decode_buffer
  nonempty [] h = absurd (h refl)
  nonempty (c ∷ s) h = refl

  encoded-ne-nil : encoded p ≢ []
  unfolding encoded
  encoded-ne-nil e =
      let positive : eqb p.size 0 ≡ false = ground (arith, v.positive) in cc (rw positive at e)

  -- A pointer that a file can carry (latest version, SHA-256 object ID, size from 1 to 2^63 - 1,
  -- extensions with one-digit, strictly rising priorities, names of which the first character is a
  -- word character and none is a space or a newline) is decoded from its encoding, if one read
  -- gives it whole without failing, to the pointer marked canonical, in whatever order the map of
  -- extensions is visited.
  pub decode_from-encoded :
      (r : Reader)
      → r.first ≡ encoded p
      → r.status ≢ failed
      → (decode_from order r).0 ≡ decoded (record p { canonical = true })
  unfolding decode_from
  decode_from-encoded r e s =
      let buffer : decode_buffer order (encoded p) ≡ decoded (record p { canonical = true }) =
        nonempty (encoded p) encoded-ne-nil
        ∙ ap (λ t. decode_kv order t >>= λ q. decoded (mark_canonical (encoded p) q))
            (trim_space-encoded p v)
        ∙ ap (λ d. d >>= λ q. decoded (mark_canonical (encoded p) q)) decode_kv-trimmed
        ∙ ap decoded marked in
      ground (arith, buffer, ap (decode_buffer order) e)
