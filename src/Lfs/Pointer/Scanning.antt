-- ===== src/Lfs/Pointer/Scanning.antt =====
-- What the loop of `decodeKVData` makes of the lines of a pointer.
use git_lfs.Prelude.{
  inl, ℕ, ◌+◌, ◌≤◌, ◌<◌, ◌≡◌, refl, ◌∙◌, ap, true, false, List, [], ◌∷◌, ◌++◌, append_assoc,
  append-nil, Text, codes, All, elem, ◌==◌, text_comparable, arith,
}
use git_lfs.Prelude.Dict
use git_lfs.Prelude.Dict.{Dict}
use git_lfs.Prelude.Dict.Laws.{keys}
use git_lfs.Strings.{cut_prefix, is_digit}
use git_lfs.Strings.Splitting.{split_first-append}
use git_lfs.Strings.Decimal.{format_int_digit}
use git_lfs.Lfs.Pointer.{PointerExtension}
use git_lfs.Lfs.Pointer.Decoding.{scan, matches_ext, numbered_name}
use git_lfs.Lfs.Pointer.Valid.{IsExtension, IsName, Rises}
use git_lfs.Lfs.Pointer.Lines.{ext_key, ext_value, ext_key-Lacks, lines_of}

abbrev pub entries : List PointerExtension → Dict Text Text
entries [] = []
entries (ext ∷ exts) = (ext_key ext, ext_value ext) ∷ entries exts

numbered_name-named :
    (p : ℕ) (name : Text) → p < 10 → IsName name → numbered_name ((48 + p) ∷ b'-' ∷ name) ≡ true
unfolding numbered_name is_digit
numbered_name-named p [] l n = absurd n
numbered_name-named p (w ∷ s) l n = ground arith

matches_ext-ext_key : (ext : PointerExtension) → IsExtension ext → matches_ext (ext_key ext) ≡ true
unfolding matches_ext cut_prefix
matches_ext-ext_key ext v =
    ap (λ t. numbered_name (t ++ b'-' ∷ ext.name)) (format_int_digit ext.priority v.one_digit)
    ∙ numbered_name-named ext.priority ext.name v.one_digit v.named

-- One line of an extension.
scan_extension :
    (ext : PointerExtension) (lines later : List Text) (kvps exts : Dict Text Text)
    → IsExtension ext
    → scan ((ext_key ext ++ b' ' ∷ ext_value ext) ∷ lines) (codes "oid" ∷ later) kvps exts
      ≡ scan lines (codes "oid" ∷ later) kvps (Dict.insert (ext_key ext) (ext_value ext) exts)
unfolding scan
scan_extension ext lines later kvps exts v =
    rw
      (
        split_first-append b' ' (ext_key ext) (ext_value ext) (ext_key-Lacks 32 ext (inl refl) v),
        scan,
      )
      (rw (matches_ext-ext_key ext v, scan))

-- The priorities stay below a bound.
abbrev Below : ℕ → List PointerExtension → Type 0
Below high [] = Unit
Below high (ext ∷ exts) = (ext.priority < high) × Below high exts

Below-weaken : (a b : ℕ) (exts : List PointerExtension) → a ≤ b → Below a exts → Below b exts
Below-weaken a b [] h v = tt
Below-weaken a b (x ∷ exts) h v = (omega arith, Below-weaken a b exts h v.1)

Below-append :
    (b : ℕ) (exts : List PointerExtension) (x : PointerExtension)
    → Below b exts
    → x.priority < b
    → Below b (exts ++ x ∷ [])
Below-append b [] x h l = (l, tt)
Below-append b (y ∷ exts) x h l = (h.0, Below-append b exts x h.1 l)

-- Two keys with different digits differ.
ext_key-ne :
    (a b : PointerExtension)
    → a.priority < b.priority
    → b.priority < 10
    → (ext_key a == ext_key b) ≡ false
ext_key-ne a b l h =
    let ea = format_int_digit a.priority (omega arith) in
    let eb = format_int_digit b.priority h in rw (ea, eb) (ground arith)

key_is_new :
    (done : List PointerExtension) (ext : PointerExtension)
    → Below ext.priority done
    → ext.priority < 10
    → elem (ext_key ext) (keys (entries done)) ≡ false
unfolding elem
key_is_new [] ext h l = refl
key_is_new (x ∷ done) ext h l = rw (ext_key-ne x ext h.0 l) (key_is_new done ext h.1 l)

insert_new :
    (key value : Text) (m : Dict Text Text)
    → elem key (keys m) ≡ false
    → Dict.insert key value m ≡ m ++ (key, value) ∷ []
unfolding elem Dict.insert
insert_new key value [] h = refl
insert_new key value ((k, v) ∷ m) h = ground (arith, insert_new key value m)

entries-append :
    (done : List PointerExtension) (x : PointerExtension)
    → entries done ++ (ext_key x, ext_value x) ∷ [] ≡ entries (done ++ x ∷ [])
entries-append [] x = refl
entries-append (y ∷ done) x = ap (λ m. (ext_key y, ext_value y) ∷ m) (entries-append done x)

-- The extensions' lines are collected in the map, in their order.
pub scan-extensions :
    (done exts : List PointerExtension) (low : ℕ) (lines later : List Text) (kvps : Dict Text Text)
    → All IsExtension exts
    → Rises low exts
    → Below low done
    → scan (lines_of exts lines) (codes "oid" ∷ later) kvps (entries done)
      ≡ scan lines (codes "oid" ∷ later) kvps (entries (done ++ exts))
scan-extensions done [] low lines later kvps v r b = rw append-nil
scan-extensions done (x ∷ exts) low lines later kvps v r b =
    scan_extension x (lines_of exts lines) later kvps (entries done) v.0
    ∙ ap (scan (lines_of exts lines) (codes "oid" ∷ later) kvps) (
        insert_new (ext_key x) (ext_value x) (entries done)
          (key_is_new done x (Below-weaken low x.priority done r.0 b) v.0.one_digit)
        ∙ entries-append done x)
    ∙ scan-extensions (done ++ x ∷ []) exts (x.priority + 1) lines later kvps v.1 r.1 (
        Below-append (x.priority + 1) done x
          (Below-weaken low (x.priority + 1) done (omega arith) b) (omega arith))
    ∙ ap (λ l. scan lines (codes "oid" ∷ later) kvps (entries l)) (append_assoc done (x ∷ []) exts)
