-- ===== src/Strings/Splitting.antt =====
-- Parts and lines of texts that are put together from parts without the separator.
use git_lfs.Prelude.{
  ℕ, ◌≡◌, ◌≢◌, refl, ap, none, some, [], ◌∷◌, ◌++◌, append_assoc, append-nil, Text, All, eqb,
  eqb_iff, false, true, if◌then◌else◌, arith,
}
use git_lfs.Strings.{split, split_first, scan_lines, lines_from, last_line, drop_cr}

abbrev pub Lacks : ℕ → Text → Type 0
Lacks b = All (λ c. c ≢ b)

pub split_first-append :
    (sep : ℕ) (a b : Text) → Lacks sep a → split_first sep (a ++ sep ∷ b) ≡ some (a, b)
unfolding split_first
split_first-append sep [] b h = ground (arith, eqb_iff sep sep)
split_first-append sep (c ∷ a) b h = ground (arith, split_first-append sep a b)

pub split_first-none : (sep : ℕ) (a : Text) → Lacks sep a → split_first sep a ≡ none
unfolding split_first
split_first-none sep [] h = refl
split_first-none sep (c ∷ a) h = ground (arith, split_first-none sep a)

-- The two parts are the text around the first separator.
pub split_first_sound :
    (sep : ℕ) (s a b : Text) → split_first sep s ≡ some (a, b) → (s ≡ a ++ sep ∷ b) × Lacks sep a
unfolding split_first
split_first_sound sep [] a b h = ground arith
split_first_sound sep (c ∷ s) [] b h = ground arith
split_first_sound sep (c ∷ s) (x ∷ a) b h = ground (arith, split_first_sound sep s a b)

pub drop_cr-append : (s : Text) (d : ℕ) → d ≢ 13 → drop_cr (s ++ d ∷ []) ≡ s ++ d ∷ []
drop_cr-append [] d h = ground arith
drop_cr-append (c ∷ []) d h = ground arith
drop_cr-append (c ∷ x ∷ s) d h = ap (λ t. c ∷ t) (drop_cr-append (x ∷ s) d h)

lines_from-append :
    (cur l rest : Text)
    → Lacks 10 l
    → lines_from cur (l ++ 10 ∷ rest) ≡ drop_cr (cur ++ l) ∷ lines_from [] rest
unfolding lines_from
lines_from-append cur [] rest h = rw append-nil
lines_from-append cur (c ∷ l) rest h =
    ground (arith, lines_from-append (cur ++ c ∷ []) l rest, append_assoc cur (c ∷ []) l)

lines_from_last : (cur l : Text) → Lacks 10 l → lines_from cur l ≡ last_line (cur ++ l)
unfolding lines_from
lines_from_last cur [] h = rw append-nil
lines_from_last cur (c ∷ l) h =
    ground (arith, lines_from_last (cur ++ c ∷ []) l, append_assoc cur (c ∷ []) l)

-- A line and its newline are the first token.
pub scan_lines-cons :
    (l rest : Text) → Lacks 10 l → scan_lines (l ++ 10 ∷ rest) ≡ drop_cr l ∷ scan_lines rest
unfolding scan_lines
scan_lines-cons l rest h = lines_from-append [] l rest h

-- A last line that has no newline is a token too.
pub scan_lines_last :
    (c : ℕ) (l : Text) → Lacks 10 (c ∷ l) → scan_lines (c ∷ l) ≡ drop_cr (c ∷ l) ∷ []
unfolding scan_lines last_line
scan_lines_last c l h = lines_from_last [] (c ∷ l) h

pub drop_cr-append_cons :
    (s : Text) (c : ℕ) (t : Text) → drop_cr (s ++ c ∷ t) ≡ s ++ drop_cr (c ∷ t)
drop_cr-append_cons [] c t = refl
drop_cr-append_cons (x ∷ []) c t = refl
drop_cr-append_cons (x ∷ y ∷ s) c t = ap (λ r. x ∷ r) (drop_cr-append_cons (y ∷ s) c t)

pub drop_cr_lacking : (s : Text) → Lacks 13 s → drop_cr s ≡ s
drop_cr_lacking [] h = refl
drop_cr_lacking (x ∷ []) h = ground arith
drop_cr_lacking (x ∷ y ∷ s) h = ap (λ r. x ∷ r) (drop_cr_lacking (y ∷ s) h.1)

pub Lacks-weaken {κ} :
    {P : ℕ → Type κ} (b : ℕ) (s : Text) → ((c : ℕ) → P c → c ≢ b) → All P s → Lacks b s
Lacks-weaken b [] f h = tt
Lacks-weaken b (c ∷ s) f h = (f c h.0, Lacks-weaken b s f h.1)

-- `strings.Split` of parts that lack the separator.
pub split-append :
    (sep : ℕ) (l rest : Text) → Lacks sep l → split sep (l ++ sep ∷ rest) ≡ l ∷ split sep rest
unfolding split
split-append sep [] rest h = rw (eqb_refl sep, if◌then◌else◌) refl
  where
    eqb_refl : (n : ℕ) → eqb n n ≡ true
    eqb_refl n = ground arith
split-append sep (c ∷ l) rest h =
    rw (differ c h.0, if◌then◌else◌) (rw (split-append sep l rest h.1) refl)
  where
    differ : (c : ℕ) → c ≢ sep → eqb c sep ≡ false
    differ c n = ground arith

pub split_lacking : (sep : ℕ) (l : Text) → Lacks sep l → split sep l ≡ l ∷ []
unfolding split
split_lacking sep [] h = refl
split_lacking sep (c ∷ l) h = rw (differ c h.0, if◌then◌else◌) (rw (split_lacking sep l h.1) refl)
  where
    differ : (c : ℕ) → c ≢ sep → eqb c sep ≡ false
    differ c n = ground arith
