-- ===== src/Strings/Fields.antt =====
-- `strings.Fields`, and the fields of plain ASCII.
use git_lfs.Prelude.{
  ℕ, zero, suc, ◌-◌, ◌≤◌, ◌≡◌, refl, sym, ap, ◌∙◌, none, some, List, [], ◌∷◌, ◌++◌, append_assoc,
  append-nil, length, All, Text, arith,
}
use git_lfs.Strings.{cut_any, spaces, cut_prefix}

-- How many bytes of white space a text begins with: those of one character, or none.
unfoldable pub space_length : Text → ℕ
unfolding cut_any
space_length s = elim (cut_any spaces s) [ none ↦ 0 | some rest ↦ length s - length rest ]

abbrev pub field : Text → List Text
field [] = []
field (c ∷ cur) = (c ∷ cur) ∷ []

-- `skip` bytes of a character of white space are left, and `cur` is the field so far.
unfoldable pub fields_from : (skip : ℕ) (cur : Text) → Text → List Text
unfolding space_length
fields_from skip cur [] = field cur
fields_from (suc k) cur (c ∷ s) = fields_from k cur s
fields_from zero cur (c ∷ s) = elim (space_length (c ∷ s)) [
  | zero ↦ fields_from zero (cur ++ c ∷ []) s
  | suc k ↦ field cur ++ fields_from k [] s
]

unfoldable pub fields : Text → List Text
unfolding fields_from
fields s = fields_from 0 [] s

-- Visible ASCII characters.
abbrev pub IsPlain : Text → Type 0
IsPlain s = All (λ c. (33 ≤ c) × (c ≤ 126)) s

plain_lem : (c : ℕ) (s : Text) → 33 ≤ c → c ≤ 126 → space_length (c ∷ s) ≡ 0
unfolding space_length cut_any cut_prefix
plain_lem c s h k = ground arith

one_byte_lem : (s : Text) → suc (length s) - length s ≡ 1
one_byte_lem s = omega arith

fields_from-plain :
    (cur w s : Text) → IsPlain w → fields_from 0 cur (w ++ s) ≡ fields_from 0 (cur ++ w) s
unfolding fields_from
fields_from-plain cur [] s p = ap (λ t. fields_from 0 t s) (sym (append-nil cur))
fields_from-plain cur (c ∷ w) s ((h, k), p) =
    rw (plain_lem c (w ++ s) h k, fields_from)
      (fields_from-plain (cur ++ c ∷ []) w s p
        ∙ ap (λ t. fields_from 0 t s) (append_assoc cur (c ∷ []) w))

-- A plain word before a blank is a field.
pub fields-blank :
    (c : ℕ) (w s : Text) → IsPlain (c ∷ w) → fields ((c ∷ w) ++ 32 ∷ s) ≡ (c ∷ w) ∷ fields s
unfolding fields
fields-blank c w s p =
    fields_from-plain [] (c ∷ w) (32 ∷ s) p ∙ rw (one_byte_lem s, fields_from) refl

pub fields-last : (c : ℕ) (w : Text) → IsPlain (c ∷ w) → fields (c ∷ w) ≡ (c ∷ w) ∷ []
unfolding fields
fields-last c w p =
    ap (fields_from 0 []) (sym (append-nil (c ∷ w))) ∙ fields_from-plain [] (c ∷ w) [] p
