-- ===== src/Strings/Trimming.antt =====
-- `TrimSpace` of texts that begin and end with visible ASCII characters.
use mathlib.Core.List.{reverse, reverse-append, reverse-reverse}
use git_lfs.Prelude.{
  All, ◌≢◌, ℕ, zero, suc, ◌≤◌, ◌≡◌, refl, sym, ◌∙◌, ap, none, List, [], ◌∷◌, ◌++◌, Text, length,
  arith,
}
use git_lfs.Strings.{trim_space, trim_start, cut_any, cut_prefix, spaces, reverses}

-- From `!` to `~`.
abbrev pub IsVisible : ℕ → Type 0
IsVisible c = (33 ≤ c) × (c ≤ 126)

-- The prefix begins with another byte.
abbrev Differs : ℕ → Text → Type 0
Differs c [] = ⊥
Differs c (x ∷ p) = x ≢ c

cut_any-none : (c : ℕ) (s : Text) (ps : List Text) → All (Differs c) ps → cut_any ps (c ∷ s) ≡ none
unfolding cut_any
cut_any-none c s [] h = refl
cut_any-none c s ([] ∷ ps) h = absurd h.0
cut_any-none c s ((x ∷ p) ∷ ps) h = ground (arith, cut_any-none c s ps h.1)

trim_start_visible : (f c : ℕ) (s : Text) → IsVisible c → trim_start spaces f (c ∷ s) ≡ c ∷ s
unfolding trim_start
trim_start_visible zero c s h = refl
trim_start_visible (suc f) c s h = rw (cut_any-none c s spaces (omega arith), trim_start)

trim_end_visible :
    (f c : ℕ) (s : Text) → IsVisible c → trim_start (reverses spaces) f (c ∷ s) ≡ c ∷ s
unfolding trim_start
trim_end_visible zero c s h = refl
trim_end_visible (suc f) c s h = rw (cut_any-none c s (reverses spaces) (omega arith), trim_start)

trim_end_newline :
    (f c : ℕ) (s : Text) → IsVisible c → trim_start (reverses spaces) (suc f) (10 ∷ c ∷ s) ≡ c ∷ s
trim_end_newline f c s h = unfold trim_start cut_any cut_prefix in trim_end_visible f c s h

-- A newline behind a text that begins and ends with visible characters is trimmed, and no more.
pub trim_space-newline :
    (c : ℕ) (s : Text) (d : ℕ)
    → IsVisible c
    → IsVisible d
    → trim_space (c ∷ s ++ d ∷ 10 ∷ []) ≡ c ∷ s ++ d ∷ []
unfolding trim_space
trim_space-newline c s d hc hd =
    let n = length (s ++ d ∷ 10 ∷ []) in
    ap (λ t. reverse (trim_start (reverses spaces) (length t) (reverse t)))
      (trim_start_visible (suc n) c (s ++ d ∷ 10 ∷ []) hc)
    ∙ ap (λ t. reverse (trim_start (reverses spaces) (suc n) t))
        (reverse-append (c ∷ s) (d ∷ 10 ∷ []))
    ∙ ap reverse (trim_end_newline n d (reverse (c ∷ s)) hd)
    ∙ ap reverse (sym (reverse-append (c ∷ s) (d ∷ [])))
    ∙ reverse-reverse (c ∷ s ++ d ∷ [])
