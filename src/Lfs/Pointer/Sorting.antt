-- ===== src/Lfs/Pointer/Sorting.antt =====
-- Sorting by priority does not depend on the order in which Go visits the map of extensions.
use mathlib.Core.List.{Permᴰ}
use mathlib.Core.Path.{subst, ap₂}
use git_lfs.Prelude.{
  ℕ, ◌+◌, ◌<◌, ◌≡◌, ◌≢◌, refl, sym, ◌∙◌, ap, false, List, [], ◌∷◌, All, Uniq, elem,
  number_comparable, arith,
}
use git_lfs.Lfs.Pointer.{PointerExtension}
use git_lfs.Lfs.Pointer.Errors.{decoded}
use git_lfs.Lfs.Pointer.Decoding.{
  validate, validate_pointer_extensions, insert_by_priority, sort_by_priority,
}
use git_lfs.Lfs.Pointer.Valid.{Rises}

abbrev pub priorities : List PointerExtension → List ℕ
priorities [] = []
priorities (x ∷ xs) = x.priority ∷ priorities xs

elem-perm :
    {xs ys : List PointerExtension} (k : ℕ)
    → Permᴰ xs ys
    → elem k (priorities xs) ≡ elem k (priorities ys)
unfolding elem
elem-perm k Permᴰ.nil = refl
elem-perm k (Permᴰ.cons e p) = ground (arith, e, elem-perm k p)
elem-perm k (Permᴰ.swap e f) = ground (arith, e, f)
elem-perm k (Permᴰ.trans p q) = elem-perm k p ∙ elem-perm k q

pub Uniq-perm :
    {xs ys : List PointerExtension} → Permᴰ xs ys → Uniq (priorities ys) → Uniq (priorities xs)
unfolding elem
Uniq-perm Permᴰ.nil u = tt
Uniq-perm (Permᴰ.cons {a = a} e p) u = (ground (arith, elem-perm a.priority p, e), Uniq-perm p u.1)
Uniq-perm (Permᴰ.swap {a = a} {b = b} {l = l} e f) u =
    let ea = ap (λ (x : PointerExtension). x.priority) e in
    let eb = ap (λ (x : PointerExtension). x.priority) f in
    (
      ground (arith, ea, eb, ap (λ k. elem k (priorities l)) ea),
      (ground (arith, ap (λ k. elem k (priorities l)) eb), u.1.1),
    )
Uniq-perm (Permᴰ.trans p q) u = Uniq-perm p (Uniq-perm q u)

insert_comm :
    (a b : PointerExtension) (xs : List PointerExtension)
    → a.priority ≢ b.priority
    → insert_by_priority a (insert_by_priority b xs)
      ≡ insert_by_priority b (insert_by_priority a xs)
unfolding insert_by_priority
insert_comm a b [] h = ground arith
insert_comm a b (x ∷ xs) h = ground (arith, insert_comm a b xs)

pub sort-perm :
    {xs ys : List PointerExtension}
    → Permᴰ xs ys
    → Uniq (priorities ys)
    → sort_by_priority xs ≡ sort_by_priority ys
unfolding sort_by_priority elem
sort-perm Permᴰ.nil u = refl
sort-perm (Permᴰ.cons e p) u = ap₂ insert_by_priority e (sort-perm p u.1)
sort-perm (Permᴰ.swap {a' = x} {b' = y} {l = l} e f) u =
    ap₂ (λ a b. insert_by_priority a (insert_by_priority b (sort_by_priority l))) e f
    ∙ insert_comm y x (sort_by_priority l) (ground arith)
sort-perm (Permᴰ.trans p q) u = sort-perm p (Uniq-perm q u) ∙ sort-perm q u

-- Extensions in rising order are sorted.
pub sort-Rises : (low : ℕ) (xs : List PointerExtension) → Rises low xs → sort_by_priority xs ≡ xs
unfolding sort_by_priority insert_by_priority
sort-Rises low [] r = refl
sort-Rises low (x ∷ []) r = refl
sort-Rises low (x ∷ y ∷ xs) r = ground (arith, sort-Rises (x.priority + 1) (y ∷ xs))

elem-Rises :
    (k low : ℕ) (xs : List PointerExtension)
    → k < low
    → Rises low xs
    → elem k (priorities xs) ≡ false
unfolding elem
elem-Rises k low [] h r = refl
elem-Rises k low (x ∷ xs) h r = ground (arith, elem-Rises k (x.priority + 1) xs)

pub Rises-Uniq : (low : ℕ) (xs : List PointerExtension) → Rises low xs → Uniq (priorities xs)
Rises-Uniq low [] r = tt
Rises-Uniq low (x ∷ xs) r = (
  elem-Rises x.priority (x.priority + 1) xs (omega arith) r.1,
  Rises-Uniq (x.priority + 1) xs r.1,
)

-- The priorities that are seen and those to come do not meet.
abbrev Fresh : List ℕ → List PointerExtension → Type 0
Fresh seen [] = Unit
Fresh seen (x ∷ xs) = (elem x.priority seen ≡ false) × Fresh seen xs

Fresh-cons :
    (k : ℕ) (seen : List ℕ) (xs : List PointerExtension)
    → elem k (priorities xs) ≡ false
    → Fresh seen xs
    → Fresh (k ∷ seen) xs
unfolding elem
Fresh-cons k seen [] h f = tt
Fresh-cons k seen (x ∷ xs) h f = (ground arith, Fresh-cons k seen xs (ground arith) f.1)

validate-Uniq :
    (seen : List ℕ) (xs : List PointerExtension)
    → Uniq (priorities xs)
    → Fresh seen xs
    → validate seen xs ≡ decoded tt
unfolding validate
validate-Uniq seen [] u f = refl
validate-Uniq seen (x ∷ xs) u f =
    rw f.0 (validate-Uniq (x.priority ∷ seen) xs u.1 (Fresh-cons x.priority seen xs u.0 f.1))

Fresh-from_none : (xs : List PointerExtension) → Fresh [] xs
unfolding elem
Fresh-from_none [] = tt
Fresh-from_none (x ∷ xs) = (refl, Fresh-from_none xs)

-- Extensions with different priorities pass the validation.
pub validate-distinct :
    (xs : List PointerExtension)
    → Uniq (priorities xs)
    → validate_pointer_extensions xs ≡ decoded tt
unfolding validate_pointer_extensions
validate-distinct xs u = validate-Uniq [] xs u (Fresh-from_none xs)

pub All-perm :
    (P : PointerExtension → Type 0) {xs ys : List PointerExtension}
    → Permᴰ xs ys
    → All P ys
    → All P xs
All-perm P Permᴰ.nil h = h
All-perm P (Permᴰ.cons e p) h = (subst P (sym e) h.0, All-perm P p h.1)
All-perm P (Permᴰ.swap e f) h = (subst P (sym e) h.1.0, (subst P (sym f) h.0, h.1.1))
All-perm P (Permᴰ.trans p q) h = All-perm P p (All-perm P q h)
