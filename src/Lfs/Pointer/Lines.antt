-- ===== src/Lfs/Pointer/Lines.antt =====
-- The text of a pointer file as the lines that the decoder scans.
use mathlib.Core.Path.{subst, ap₂}
use git_lfs.Prelude.{
  ◌⊎◌, inl, inr, ℕ, ◌<◌, ◌≡◌, refl, sym, ◌∙◌, ap, true, false, List, [], ◌∷◌, ◌++◌, append_assoc,
  Text, codes, All, All-append, eqb, arith,
}
use git_lfs.Strings.{format_int, scan_lines, trim_space, drop_cr}
use git_lfs.Strings.Decimal.{format_int-All, format_int-append}
use git_lfs.Strings.Splitting.{
  Lacks, Lacks-weaken, scan_lines-cons, scan_lines_last, drop_cr-append_cons, drop_cr_lacking,
}
use git_lfs.Strings.Trimming.{trim_space-newline}
use git_lfs.Lfs.Pointer.{
  Pointer, PointerExtension, encoded, extension_line, extension_lines, newline,
}
use git_lfs.Lfs.Pointer.Decoding.{matches_oid}
use git_lfs.Lfs.Pointer.Valid.{IsExtension, IsPointer, IsName, matches_oid-All, is_hex_range}

abbrev pub version_line : Text
version_line = codes "version https://git-lfs.github.com/spec/v1"

abbrev pub oid_line : Text → Text
oid_line oid = codes "oid sha256:" ++ oid

abbrev pub size_line : ℕ → Text
size_line size = codes "size " ++ format_int size

-- What is left of the text when its last newline is trimmed.
abbrev pub trimmed : Pointer → Text
trimmed p =
    version_line ++ 10 ∷ (extension_lines p.extensions ++ (oid_line p.oid ++ 10 ∷ size_line p.size))

oid-Lacks : (b : ℕ) (oid : Text) → b < 48 → matches_oid oid ≡ true → Lacks b oid
oid-Lacks b oid h m =
    Lacks-weaken b oid (λ c x. omega (arith, is_hex_range c x)) (matches_oid-All oid m).1

digits-Lacks : (b n : ℕ) → b < 48 → Lacks b (format_int n)
digits-Lacks b n h = Lacks-weaken b (format_int n) (λ c x. omega arith) (format_int-All n)

encoded-trimmed : (p : Pointer) → IsPointer p → encoded p ≡ trimmed p ++ newline
unfolding encoded
encoded-trimmed p v =
    let positive : eqb p.size 0 ≡ false = ground arith in rw (positive, v.typed) (simp append_assoc)

abbrev inner : Pointer → Text → Text
inner p digits =
    codes "ersion https://git-lfs.github.com/spec/v1"
    ++ 10 ∷ (extension_lines p.extensions ++ (oid_line p.oid ++ 10 ∷ (codes "size " ++ digits)))

trimmed-inner :
    (p : Pointer) (s : Text) (d : ℕ)
    → format_int p.size ≡ s ++ d ∷ []
    → trimmed p ≡ b'v' ∷ inner p s ++ d ∷ []
trimmed-inner p s d e = rw e (simp append_assoc)

trimmed-newline :
    (p : Pointer) (s : Text) (d : ℕ)
    → format_int p.size ≡ s ++ d ∷ []
    → trimmed p ++ newline ≡ b'v' ∷ inner p s ++ d ∷ 10 ∷ []
trimmed-newline p s d e = rw e (simp append_assoc)

-- The trimming takes the last newline off, and nothing else.
pub trim_space-encoded : (p : Pointer) → IsPointer p → trim_space (encoded p) ≡ trimmed p
trim_space-encoded p v =
    let (s, d, e, digit) = format_int-append p.size in
    ap trim_space (encoded-trimmed p v ∙ trimmed-newline p s d e)
    ∙ trim_space-newline b'v' (inner p s) d (omega arith) (omega arith)
    ∙ sym (trimmed-inner p s d e)

-- The key and the value of an extension's line.
abbrev pub ext_key : PointerExtension → Text
ext_key ext = codes "ext-" ++ (format_int ext.priority ++ b'-' ∷ ext.name)

abbrev pub ext_value : PointerExtension → Text
ext_value ext = codes "sha256:" ++ ext.oid

pub extension_line-parts :
    (ext : PointerExtension)
    → IsExtension ext
    → extension_line ext ≡ ext_key ext ++ b' ' ∷ ext_value ext
unfolding extension_line
extension_line-parts ext v = rw v.typed (simp append_assoc)

name-Lacks : (b : ℕ) (s : Text) → (b ≡ 32) ⊎ (b ≡ 10) → IsName s → Lacks b s
name-Lacks b [] h n = absurd n
name-Lacks b (w ∷ s) (inl e) n = subst (λ x. Lacks x (w ∷ s)) (sym e) n.1
name-Lacks b (w ∷ s) (inr e) n = subst (λ x. Lacks x (w ∷ s)) (sym e) n.2

pub ext_key-Lacks :
    (b : ℕ) (ext : PointerExtension) → (b ≡ 32) ⊎ (b ≡ 10) → IsExtension ext → Lacks b (ext_key ext)
ext_key-Lacks b ext h v =
    let rest : Lacks b (format_int ext.priority ++ b'-' ∷ ext.name) =
      All-append _ (format_int ext.priority) (b'-' ∷ ext.name)
        (digits-Lacks b ext.priority (ground arith))
        (ground arith, name-Lacks b ext.name h v.named) in
    All-append _ (codes "ext-") _ (omega arith) rest

ext_line-Lacks :
    (ext : PointerExtension) → IsExtension ext → Lacks 10 (ext_key ext ++ b' ' ∷ ext_value ext)
ext_line-Lacks ext v =
    All-append _ (ext_key ext) (b' ' ∷ ext_value ext) (ext_key-Lacks 10 ext (inr refl) v) (
      omega arith,
      All-append _ (codes "sha256:") ext.oid (omega arith)
          (oid-Lacks 10 ext.oid (omega arith) v.hashed),
    )

ext_line-drop_cr :
    (ext : PointerExtension)
    → IsExtension ext
    → drop_cr (ext_key ext ++ b' ' ∷ ext_value ext) ≡ ext_key ext ++ b' ' ∷ ext_value ext
ext_line-drop_cr ext v =
    drop_cr-append_cons (ext_key ext) b' ' (ext_value ext)
    ∙ ap (λ t. ext_key ext ++ t)
        (drop_cr_lacking (b' ' ∷ ext_value ext) (
          omega arith,
          All-append _ (codes "sha256:") ext.oid (omega arith)
              (oid-Lacks 13 ext.oid (omega arith) v.hashed),
        ))

abbrev pub lines_of : List PointerExtension → List Text → List Text
lines_of [] more = more
lines_of (ext ∷ exts) more = (ext_key ext ++ b' ' ∷ ext_value ext) ∷ lines_of exts more

scan_lines-extensions :
    (exts : List PointerExtension) (rest : Text)
    → All IsExtension exts
    → scan_lines (extension_lines exts ++ rest) ≡ lines_of exts (scan_lines rest)
unfolding extension_lines
scan_lines-extensions [] rest v = refl
scan_lines-extensions (ext ∷ exts) rest v =
    ap scan_lines (
      append_assoc (extension_line ext) (10 ∷ extension_lines exts) rest
      ∙ ap (λ l. l ++ 10 ∷ (extension_lines exts ++ rest)) (extension_line-parts ext v.0))
    ∙ scan_lines-cons (ext_key ext ++ b' ' ∷ ext_value ext) (extension_lines exts ++ rest)
        (ext_line-Lacks ext v.0)
    ∙ ap₂ ◌∷◌ (ext_line-drop_cr ext v.0) (scan_lines-extensions exts rest v.1)

-- The decoder scans the version's line, a line for each extension, the object ID's line and the
-- size's line.
pub scan_lines-trimmed :
    (p : Pointer)
    → IsPointer p
    → scan_lines (trimmed p)
      ≡ version_line ∷ lines_of p.extensions (oid_line p.oid ∷ size_line p.size ∷ [])
scan_lines-trimmed p v =
    let oid_free : (b : ℕ) → (b ≡ 10) ⊎ (b ≡ 13) → Lacks b (oid_line p.oid) = λ b h.
      All-append _ (codes "oid sha256:") p.oid (omega arith)
        (oid-Lacks b p.oid (omega arith) v.hashed) in
    let size_free : (b : ℕ) → (b ≡ 10) ⊎ (b ≡ 13) → Lacks b (size_line p.size) = λ b h.
      All-append _ (codes "size ") (format_int p.size) (omega arith)
        (digits-Lacks b p.size (omega arith)) in
    scan_lines-cons version_line _ (omega arith)
    ∙ ap (λ ls. version_line ∷ ls)
        (scan_lines-extensions p.extensions (oid_line p.oid ++ 10 ∷ size_line p.size) v.extended
          ∙ ap (lines_of p.extensions) (
              scan_lines-cons (oid_line p.oid) (size_line p.size) (oid_free 10 (inl refl))
              ∙ ap₂ ◌∷◌ (drop_cr_lacking (oid_line p.oid) (oid_free 13 (inr refl))) (
                  scan_lines_last b's' _ (size_free 10 (inl refl))
                  ∙ ap (λ l. l ∷ [])
                      (drop_cr_lacking (size_line p.size) (size_free 13 (inr refl))))))
