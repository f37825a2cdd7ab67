-- ===== src/Filter/Decision.antt =====
-- What filepathfilter/filepathfilter.go allows.
use git_lfs.Prelude.{
  ℕ, zero, suc, ◌≡◌, ◌↔◌, ◌⊎◌, inl, inr, refl, ap, ◌∙◌, Bool, true, false, Bool-cases, some, List,
  [], ◌∷◌, All, Text, map, get_elem?, arith, ltb, length,
}
use git_lfs.Filter.{
  Pattern, Filter, PatternType, any_matches, allows, new_filter, new_from_patterns,
  convert_to_wildmatch, new_pattern, included, excluded, wildmatch_to_string, default_value_option,
  set_options,
}

-- A pattern of the list matches.
abbrev pub Matches : Text → List Pattern → Type 0
Matches filename ps =
    (i : ℕ) × (p : Pattern) × (get_elem? ps i ≡ some p) × (p.matches filename ≡ true)

abbrev pub Misses : Text → List Pattern → Type 0
Misses filename ps = All (λ p. p.matches filename ≡ false) ps

matches_lem :
    (filename : Text) (ps : List Pattern) → any_matches filename ps ≡ true → Matches filename ps
unfolding any_matches
matches_lem filename [] h = cc
matches_lem filename (p ∷ ps) h = elim (Bool-cases (p.matches filename)) [
  | inl y ↦ (0, p, refl, y)
  | inr n ↦ let (i, found, e, m) = matches_lem filename ps (rw n at h) in (suc i, found, e, m)
]

any_matches_of :
    (filename : Text) (ps : List Pattern) → Matches filename ps → any_matches filename ps ≡ true
unfolding any_matches
any_matches_of filename [] (i, p, e, m) = cc
any_matches_of filename (q ∷ ps) (zero, p, e, m) = ground arith
any_matches_of filename (q ∷ ps) (suc i, p, e, m) =
    ground (arith, any_matches_of filename ps (i, p, e, m))

misses_lem :
    (filename : Text) (ps : List Pattern) → any_matches filename ps ≡ false → Misses filename ps
unfolding any_matches
misses_lem filename [] h = tt
misses_lem filename (p ∷ ps) h = (ground arith, misses_lem filename ps (ground arith))

no_match_of :
    (filename : Text) (ps : List Pattern) → Misses filename ps → any_matches filename ps ≡ false
unfolding any_matches
no_match_of filename [] h = refl
no_match_of filename (p ∷ ps) (h, hs) = ground (arith, no_match_of filename ps hs)

empty_lem : (ps : List Pattern) → ltb 0 (length ps) ≡ false → ps ≡ []
empty_lem [] h = refl
empty_lem (p ∷ ps) h = absurd (ground arith)

allows_cases :
    (f : Filter) (filename : Text)
    → (allows (some f) filename ≡ true) ↔ (
        ((any_matches filename f.include ≡ true)
          ⊎ ((ltb 0 (length f.include) ≡ false) × (f.default_value ≡ true)))
        × (any_matches filename f.exclude ≡ false))
unfolding allows
allows_cases f filename = ground arith

-- A filter allows a path exactly if one of its patterns to include matches it, or there are none
-- and its default is to allow, and none of its patterns to exclude matches it.
pub allows_iff :
    (f : Filter) (filename : Text)
    → (allows (some f) filename ≡ true) ↔ (
        (Matches filename f.include ⊎ ((f.include ≡ []) × (f.default_value ≡ true)))
        × Misses filename f.exclude)
allows_iff f filename = (forward, backward)
  where
    forward :
        allows (some f) filename ≡ true
        → (Matches filename f.include ⊎ ((f.include ≡ []) × (f.default_value ≡ true)))
          × Misses filename f.exclude
    forward h =
        let (chosen, kept) = (allows_cases f filename).0 h in
        (
          elim chosen [
            | inl m ↦ inl (matches_lem filename f.include m)
            | inr (e, d) ↦ inr (empty_lem f.include e, d)
          ],
          misses_lem filename f.exclude kept,
        )

    backward :
        (Matches filename f.include ⊎ ((f.include ≡ []) × (f.default_value ≡ true)))
          × Misses filename f.exclude
        → allows (some f) filename ≡ true
    backward (inl m, h) =
        (allows_cases f filename).1
          (inl (any_matches_of filename f.include m), no_match_of filename f.exclude h)
    backward (inr (e, d), h) =
        (allows_cases f filename).1
          (inr (ap (λ ps. ltb 0 (length ps)) e ∙ nothing_lem, d), no_match_of filename f.exclude h)
      where
        nothing_lem : ltb 0 0 ≡ false
        nothing_lem = ground arith

-- The last of some values, or another value if there are none.
abbrev pub last_or : Bool → List Bool → Bool
last_or b [] = b
last_or b (c ∷ more) = last_or c more

set_options-last_or :
    (b : Bool) (defaults : List Bool)
    → (set_options (map default_value_option defaults) (record { default_value = b })).default_value
      ≡ last_or b defaults
unfolding set_options
set_options-last_or b [] = refl
set_options-last_or b (c ∷ defaults) = set_options-last_or c defaults

-- A filter made of raw patterns names them, in order, and its default is the last one that the
-- options set, or to allow.
pub new_filter-included :
    (wildmatch : PatternType → Text → Text → Bool) (include exclude : List Text)
    (ptype : PatternType) (defaults : List Bool)
    → let f = new_filter wildmatch include exclude ptype (map default_value_option defaults) in
      (included f ≡ include) × (excluded f ≡ exclude) × (f.default_value ≡ last_or true defaults)
unfolding new_filter new_from_patterns convert_to_wildmatch new_pattern included excluded
    wildmatch_to_string
new_filter-included wildmatch include exclude ptype defaults =
    (texts include, texts exclude, set_options-last_or true defaults)
  where
    texts : (raw : List Text) → wildmatch_to_string (convert_to_wildmatch wildmatch raw ptype) ≡ raw
    texts [] = refl
    texts (p ∷ raw) = ap (λ ps. p ∷ ps) (texts raw)
