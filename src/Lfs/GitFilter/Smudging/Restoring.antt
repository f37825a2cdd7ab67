-- ===== src/Lfs/GitFilter/Smudging/Restoring.antt =====
-- Smudging what was cleaned: lfs/gitfilter_clean.go and lfs/gitfilter_smudge.go with extensions.
use mathlib.Core.Path.{subst}
use git_lfs.Prelude.{
  ℕ, ◌<◌, ◌≡◌, refl, sym, ap, ◌∙◌, true, false, Option, some, inl, inr, Bool-cases, List, [], ◌∷◌,
  Text, All, length, elem, text_comparable, number_comparable, ◌==◌, same_text_iff, eq_refl, arith,
  if◌then◌else◌,
}
use git_lfs.Prelude.Dict
use git_lfs.Prelude.Dict.{Dict}
use git_lfs.Config.{Extension}
use git_lfs.Config.Values.{sort_extensions}
use git_lfs.Lfs.Pointer.{PointerExtension, new_pointer, new_pointer_extension}
use git_lfs.Lfs.Pointer.Decoding.{matches_oid}
use git_lfs.Lfs.Pointer.Valid.{IsName, IsExtension, Rises}
use git_lfs.Lfs.GitFilter.{done}
use git_lfs.Lfs.GitFilter.Pipe.{command_line, pipe_from, pipe_extensions}
use git_lfs.Lfs.GitFilter.Cleaning.{cleaned, changed_extensions, pipe_read}
use git_lfs.Lfs.GitFilter.Smudging.{
  pointer_extensions, verify_extensions, verify_results, smudge_extensions, read_content,
}

module _ (sha256_hex : Text → Text) (run : List Text → Text → Option Text)
    (registered : Dict Text Extension) (file_name : Text) where
  -- The extension is configured, cleans `x` to `y` and smudges that back, and the two have one hash
  -- only if they are the same.
  pub record IsReversible (e : Extension) (x y : Text) : Type 0 where
    pub configured : Dict.lookup e.name registered ≡ some e
    pub cleans : run (command_line e.clean file_name) x ≡ some y
    pub smudges : run (command_line e.smudge file_name) y ≡ some x
    pub tells_apart : sha256_hex x ≡ sha256_hex y → x ≡ y

  smudge_one :
      (e : Extension) (x y : Text) (n size : ℕ)
      → IsReversible e x y
      → smudge_extensions sha256_hex run registered
          (new_pointer (sha256_hex y) size (new_pointer_extension e.name n (sha256_hex x) ∷ []))
          file_name
          y
        ≡ done x
  unfolding smudge_extensions pointer_extensions sort_extensions pipe_extensions verify_results
      new_pointer new_pointer_extension Dict.insert pipe_from verify_extensions elem
  smudge_one e x y n size w =
      rw (w.configured, pointer_extensions)
        (rw (w.smudges, pipe_from)
          (ground (arith, eq_refl (sha256_hex x), eq_refl (sha256_hex y), eq_refl e.name)))

  smudge_two :
      (e g : Extension) (x y z : Text) (size : ℕ)
      → (e.name == g.name) ≡ false
      → IsReversible e x y
      → IsReversible g y z
      → smudge_extensions sha256_hex run registered
          (new_pointer (sha256_hex z) size (
            new_pointer_extension e.name 0 (sha256_hex x)
            ∷ new_pointer_extension g.name 1 (sha256_hex y)
            ∷ []))
          file_name
          z
        ≡ done x
  unfolding smudge_extensions pointer_extensions sort_extensions pipe_extensions verify_results
      new_pointer new_pointer_extension Dict.insert pipe_from verify_extensions elem
  smudge_two e g x y z size other w v =
      rw (w.configured, pointer_extensions)
        (rw (v.configured, pointer_extensions)
          (rw (other, if◌then◌else◌)
            (rw (v.smudges, pipe_from)
              (rw (w.smudges, pipe_from)
                (ground (
                  arith,
                  eq_refl (sha256_hex x),
                  eq_refl (sha256_hex y),
                  eq_refl (sha256_hex z),
                  eq_refl e.name,
                  eq_refl g.name,
                  same_text_iff e.name g.name,
                  same_text_iff g.name e.name,
                ))))))

  -- At most two extensions, of which the second has another name, lead from `x` to `z`.
  abbrev pub Leads : List Extension → Text → Text → Type 0
  Leads [] x z = x ≡ z
  Leads (e ∷ []) x z = IsReversible e x z
  Leads (e ∷ g ∷ []) x z =
      ((e.name == g.name) ≡ false) × (y : Text) × IsReversible e x y × IsReversible g y z
  Leads (e ∷ g ∷ h ∷ es) x z = ⊥

  -- The names are those of a pointer file, and the hash is 64 hexadecimal digits.
  abbrev pub AreNamed : List Extension → Type 0
  AreNamed es = ((t : Text) → matches_oid (sha256_hex t) ≡ true) × All (λ e. IsName e.name) es

  abbrev pub AreValid : List PointerExtension → Type 0
  AreValid exts = All IsExtension exts × Rises 0 exts

  new_pointer_extension-IsExtension :
      (e : Extension) (n : ℕ) (t : Text)
      → n < 10
      → IsName e.name
      → matches_oid (sha256_hex t) ≡ true
      → IsExtension (new_pointer_extension e.name n (sha256_hex t))
  unfolding new_pointer_extension
  new_pointer_extension-IsExtension e n t small name hash = record {
    named = name;
    one_digit = small;
    hashed = hash;
    typed = refl;
  }

  -- The extensions are cleaned to a pointer whose content is smudged to `x`.
  abbrev pub Restores : List Extension → Text → Text → List PointerExtension → Type 0
  Restores es x z exts =
      (pipe_read sha256_hex run file_name es (done x)
        ≡ cleaned (new_pointer (sha256_hex z) (length z) exts) z)
      × (read_content sha256_hex run registered (new_pointer (sha256_hex z) (length z) exts)
            file_name z
          ≡ done x)
      × AreValid exts

  Rises-one :
      (e : Extension) (t : Text) → Rises 0 (new_pointer_extension e.name 0 (sha256_hex t) ∷ [])
  unfolding new_pointer_extension
  Rises-one e t = (omega arith, tt)

  Rises-two :
      (e g : Extension) (t u : Text)
      → Rises 0 (
          new_pointer_extension e.name 0 (sha256_hex t)
          ∷ new_pointer_extension g.name 1 (sha256_hex u)
          ∷ [])
  unfolding new_pointer_extension
  Rises-two e g t u = (omega arith, (omega arith, tt))

  restore_one :
      (e : Extension) (x z : Text)
      → AreNamed (e ∷ [])
      → IsReversible e x z
      → (exts : List PointerExtension) × Restores (e ∷ []) x z exts
  unfolding pipe_read pipe_extensions pipe_from changed_extensions read_content new_pointer
  restore_one e x z (hash, (name, more)) w = elim (Bool-cases (sha256_hex x == sha256_hex z)) [
    | inl same ↦ (
      [],
      (
        rw (w.cleans, pipe_from) (rw (same, if◌then◌else◌) refl),
        ap done (sym (w.tells_apart ((same_text_iff _ _).0 same))),
        (tt, tt),
      ),
    )
    | inr differ ↦ (
      new_pointer_extension e.name 0 (sha256_hex x) ∷ [],
      (
        rw (w.cleans, pipe_from) (rw (differ, if◌then◌else◌) refl),
        smudge_one e x z 0 (length z) w,
        ((new_pointer_extension-IsExtension e 0 x (omega arith) name (hash x), tt), Rises-one e x),
      ),
    )
  ]

  restore_two :
      (e g : Extension) (x y z : Text)
      → AreNamed (e ∷ g ∷ [])
      → (e.name == g.name) ≡ false
      → IsReversible e x y
      → IsReversible g y z
      → (exts : List PointerExtension) × Restores (e ∷ g ∷ []) x z exts
  unfolding pipe_read pipe_extensions pipe_from changed_extensions read_content new_pointer
  restore_two e g x y z (hash, (name, (name', more))) other w v =
      elim (Bool-cases (sha256_hex x == sha256_hex y)) [
        | inl same ↦ elim (Bool-cases (sha256_hex y == sha256_hex z)) [
          | inl same' ↦ (
            [],
            (
              rw (w.cleans, pipe_from)
                  (rw (v.cleans, pipe_from)
                    (rw (same, if◌then◌else◌) (rw (same', if◌then◌else◌) refl))),
              ap done (
                  sym (
                    w.tells_apart ((same_text_iff _ _).0 same)
                    ∙ v.tells_apart ((same_text_iff _ _).0 same'))),
              (tt, tt),
            ),
          )
          | inr differ' ↦ (
            new_pointer_extension g.name 0 (sha256_hex y) ∷ [],
            (
              rw (w.cleans, pipe_from)
                  (rw (v.cleans, pipe_from)
                    (rw (same, if◌then◌else◌) (rw (differ', if◌then◌else◌) refl))),
              smudge_one g y z 0 (length z) v
                  ∙ ap done (sym (w.tells_apart ((same_text_iff _ _).0 same))),
              (
                (new_pointer_extension-IsExtension g 0 y (omega arith) name' (hash y), tt),
                Rises-one g y,
              ),
            ),
          )
        ]
        | inr differ ↦ elim (Bool-cases (sha256_hex y == sha256_hex z)) [
          | inl same' ↦ (
            new_pointer_extension e.name 0 (sha256_hex x) ∷ [],
            (
              rw (w.cleans, pipe_from)
                  (rw (v.cleans, pipe_from)
                    (rw (differ, if◌then◌else◌) (rw (same', if◌then◌else◌) refl))),
              subst
                  (λ t.
                    smudge_extensions sha256_hex run registered
                      (new_pointer (sha256_hex t) (length t)
                        (new_pointer_extension e.name 0 (sha256_hex x) ∷ []))
                      file_name t
                    ≡ done x)
                  (v.tells_apart ((same_text_iff _ _).0 same')) (smudge_one e x y 0 (length y) w),
              (
                (new_pointer_extension-IsExtension e 0 x (omega arith) name (hash x), tt),
                Rises-one e x,
              ),
            ),
          )
          | inr differ' ↦ (
            new_pointer_extension e.name 0 (sha256_hex x)
                ∷ new_pointer_extension g.name 1 (sha256_hex y)
                ∷ [],
            (
              rw (w.cleans, pipe_from)
                  (rw (v.cleans, pipe_from)
                    (rw (differ, if◌then◌else◌) (rw (differ', if◌then◌else◌) refl))),
              smudge_two e g x y z (length z) other w v,
              (
                (
                  new_pointer_extension-IsExtension e 0 x (omega arith) name (hash x),
                  (new_pointer_extension-IsExtension g 1 y (omega arith) name' (hash y), tt),
                ),
                Rises-two e g x y,
              ),
            ),
          )
        ]
      ]

  pub restore :
      (e : Extension) (es : List Extension) (x z : Text)
      → AreNamed (e ∷ es)
      → Leads (e ∷ es) x z
      → (exts : List PointerExtension) × Restores (e ∷ es) x z exts
  restore e [] x z named w = restore_one e x z named w
  restore e (g ∷ []) x z named (other, y, w, v) = restore_two e g x y z named other w v
  restore e (g ∷ h ∷ es) x z named w = elim w [ ]
