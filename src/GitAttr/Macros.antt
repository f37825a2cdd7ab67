-- ===== src/GitAttr/Macros.antt =====
-- What a macro stands for, of git/gitattr/macro.go.
use git_lfs.Prelude.{
  ◌≡◌, refl, ap, ◌∙◌, true, Option, none, some, inl, inr, Bool-cases, Option-cases, List, [], ◌∷◌,
  ◌++◌, Text, codes, text_comparable, ◌==◌, if◌then◌else◌,
}
use git_lfs.Prelude.Dict
use git_lfs.Prelude.Dict.Laws.{lookup-insert}
use git_lfs.GitAttr.{Attr, Line, Macros, expand, or_nil, process_lines}

-- The attributes with what `defined` says before each that is set.
unfoldable pub with_macros : (Text → Option (List Attr)) → List Attr → List Attr
with_macros defined [] = []
with_macros defined (attr ∷ attrs) =
    (if attr.v == codes "true" then or_nil (defined attr.k) else [])
    ++ attr ∷ with_macros defined attrs

expand-with_macros :
    (macros : Macros) (defined : Text → Option (List Attr)) (attrs : List Attr)
    → ((name : Text) → Dict.lookup name macros ≡ defined name)
    → expand macros attrs ≡ with_macros defined attrs
unfolding expand with_macros
expand-with_macros macros defined [] same = refl
expand-with_macros macros defined (attr ∷ attrs) same =
    rw (expand-with_macros macros defined attrs same) (
      rw (same attr.k) (elim (Bool-cases (attr.v == codes "true")) [
        | inl y ↦ rw (y, if◌then◌else◌) refl
        | inr n ↦ rw (n, if◌then◌else◌) refl
      ]))

module _ {W : Type 0} where
  -- What the last line that defines the macro says, or else what `old` does.
  unfoldable pub last_defined : Option (List Attr) → Text → List (Line W) → Option (List Attr)
  last_defined old name [] = old
  last_defined old name (line ∷ lines) = elim line.pattern [
    | some pattern ↦ last_defined old name lines
    | none ↦ last_defined (if line.macro_name == name then some line.attrs else old) name lines
  ]

  known_macros :
      (macros : Macros) (lines : List (Line W)) (name : Text)
      → Dict.lookup name (process_lines macros lines true).1
        ≡ last_defined (Dict.lookup name macros) name lines
  unfolding process_lines last_defined
  known_macros macros [] name = refl
  known_macros macros (line ∷ lines) name = elim (Option-cases line.pattern) [
    | inl e ↦
        rw (e, process_lines)
          (known_macros (Dict.insert line.macro_name line.attrs macros) lines name
            ∙ ap (λ old. last_defined old name lines)
                (lookup-insert line.macro_name name line.attrs macros))
    | inr (p, e) ↦ rw (e, process_lines) (known_macros macros lines name)
  ]

  process_lines-append :
      (macros : Macros) (before after : List (Line W))
      → (process_lines macros (before ++ after) true).0
        ≡ (process_lines macros before true).0
          ++ (process_lines (process_lines macros before true).1 after true).0
  unfolding process_lines
  process_lines-append macros [] after = refl
  process_lines-append macros (line ∷ before) after = elim (Option-cases line.pattern) [
    | inl e ↦
        rw (e, process_lines)
          (process_lines-append (Dict.insert line.macro_name line.attrs macros) before after)
    | inr (p, e) ↦
        rw (e, process_lines)
          (ap
            (λ lines.
              record { pattern = some p; macro_name = []; attrs = expand macros line.attrs }
              ∷ lines)
            (process_lines-append macros before after))
  ]

  -- When macros are read, the line that a line with a pattern becomes has its attributes in order,
  -- and before each that is set those that the last line above it which defines the macro of that
  -- name gives it, or, if there is none, those that were known at first.
  pub process_lines-with_macros :
      (macros : Macros) (before after : List (Line W)) (line : Line W) (p : W)
      → line.pattern ≡ some p
      → (process_lines macros (before ++ line ∷ after) true).0
        ≡ (process_lines macros before true).0
          ++ record {
            pattern = some p;
            macro_name = [];
            attrs =
                with_macros (λ name. last_defined (Dict.lookup name macros) name before) line.attrs;
          }
            ∷ (process_lines (process_lines macros before true).1 after true).0
  unfolding process_lines
  process_lines-with_macros macros before after line p e =
      process_lines-append macros before (line ∷ after)
      ∙ ap (λ lines. (process_lines macros before true).0 ++ lines)
          (rw (e, process_lines)
            (ap
              (λ attrs.
                record { pattern = some p; macro_name = []; attrs = attrs }
                ∷ (process_lines (process_lines macros before true).1 after true).0)
              (expand-with_macros (process_lines macros before true).1 _ line.attrs
                (known_macros macros before))))
