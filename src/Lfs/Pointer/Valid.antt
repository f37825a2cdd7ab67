-- ===== src/Lfs/Pointer/Valid.antt =====
-- The pointers that a pointer file can carry.
use git_lfs.Prelude.{
  ℕ, ◌+◌, ◌≤◌, ◌<◌, ◌^◌, ◌≡◌, Bool, true, List, [], ◌∷◌, Text, All, all, length, arith,
}
use git_lfs.Strings.Splitting.{Lacks}
use git_lfs.Lfs.Pointer.{Pointer, PointerExtension, latest, sha256}
use git_lfs.Lfs.Pointer.Decoding.{matches_oid, is_hex, is_word}

-- A word character and then anything but a space and a newline.
abbrev pub IsName : Text → Type 0
IsName [] = ⊥
IsName (w ∷ s) = (is_word w ≡ true) × Lacks 32 (w ∷ s) × Lacks 10 (w ∷ s)

pub record IsExtension (ext : PointerExtension) : Type 0 where
  pub named : IsName ext.name
  pub one_digit : ext.priority < 10
  pub hashed : matches_oid ext.oid ≡ true
  pub typed : ext.oid_type ≡ sha256

-- The priorities rise strictly, from `low` on.
abbrev pub Rises : ℕ → List PointerExtension → Type 0
Rises low [] = Unit
Rises low (ext ∷ exts) = (low ≤ ext.priority) × Rises (ext.priority + 1) exts

pub record IsPointer (p : Pointer) : Type 0 where
  pub versioned : p.version ≡ latest
  pub hashed : matches_oid p.oid ≡ true
  pub typed : p.oid_type ≡ sha256
  pub positive : 0 < p.size
  pub fits : p.size < 2 ^ 63
  pub extended : All IsExtension p.extensions
  pub rising : Rises 0 p.extensions

all-All : (p : ℕ → Bool) (s : Text) → all p s ≡ true → All (λ c. p c ≡ true) s
unfolding all
all-All p [] h = tt
all-All p (c ∷ s) h = (ground arith, all-All p s (ground arith))

-- An object ID is 64 bytes that are 0 to 9 or a to f.
pub matches_oid-All :
    (s : Text) → matches_oid s ≡ true → (length s ≡ 64) × All (λ c. is_hex c ≡ true) s
unfolding matches_oid
matches_oid-All s h = (ground arith, all-All is_hex s (ground arith))

pub is_hex_range : (c : ℕ) → is_hex c ≡ true → (48 ≤ c) × (c ≤ 102)
unfolding is_hex
is_hex_range c h = (ground arith, ground arith)
