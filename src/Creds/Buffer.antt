-- ===== src/Creds/Buffer.antt =====
-- Credentials as the text that `git credential` reads and writes (creds/creds.go).
use git_lfs.Prelude.{
  ℕ, ◌≡◌, ◌≢◌, refl, sym, ap, ◌∙◌, false, some, inl, inr, Bool-cases, List, [], ◌∷◌, ◌++◌,
  append_assoc, append-nil, All, All-append, Text, text_comparable, ◌==◌, same_text_iff, arith,
  elem, elem-append, Uniq,
}
use git_lfs.Prelude.Dict
use git_lfs.Prelude.Dict.{Dict}
use git_lfs.Prelude.Dict.Laws.{keys}
use git_lfs.Strings.{split, split_first}
use git_lfs.Strings.Splitting.{Lacks, split_first-append, split-append}
use git_lfs.Creds.{Creds, buffer_creds, cred_of_line, add_lines, parse_output}

-- A field that stands on one line.
abbrev pub IsLine : Text × Text → Type 0
IsLine (k, v) = Lacks b'=' k × Lacks 10 k × Lacks 10 v × (v ≢ [])

insert-new :
    (k v : Text) (m : Creds) → elem k (keys m) ≡ false → Dict.insert k v m ≡ m ++ (k, v) ∷ []
unfolding Dict.insert elem
insert-new k v [] h = refl
insert-new k v ((j, w) ∷ m) h = elim (Bool-cases (j == k)) [
  | inl y ↦ absurd (ground arith)
  | inr n ↦ rw n (ap (λ m. (j, w) ∷ m) (insert-new k v m (ground arith)))
]

keys-append : (m n : Creds) → keys (m ++ n) ≡ keys m ++ keys n
keys-append [] n = refl
keys-append ((k, v) ∷ m) n = ap (λ ks. k ∷ ks) (keys-append m n)

line_lem : (k v : Text) → IsLine (k, v) → cred_of_line (k ++ b'=' ∷ v) ≡ some (k, v)
unfolding cred_of_line
line_lem k [] (ke, kn, vn, some_v) = absurd (some_v refl)
line_lem k (c ∷ v) (ke, kn, vn, some_v) =
    rw (split_first-append b'=' k (c ∷ v) ke, cred_of_line) refl

-- Apart from the ones before.
abbrev AreNew : Creds → Creds → Type 0
AreNew before [] = Unit
AreNew before ((k, v) ∷ c) = (elem k (keys before) ≡ false) × AreNew (before ++ (k, v) ∷ []) c

others_new :
    (k v : Text) (before c : Creds)
    → elem k (keys c) ≡ false
    → All (λ (e : Text × Text). elem e.0 (keys before) ≡ false) c
    → All (λ (e : Text × Text). elem e.0 (keys (before ++ (k, v) ∷ [])) ≡ false) c
unfolding elem
others_new k v before [] h a = tt
others_new k v before ((j, w) ∷ c) h (new, a) = (
  ground (
    arith,
    ap (elem j) (keys-append before ((k, v) ∷ [])),
    elem-append j (keys before) (k ∷ []),
    same_text_iff j k,
    same_text_iff k j,
  ),
  others_new k v before c (ground arith) a,
)

distinct-AreNew :
    (before c : Creds)
    → All (λ (e : Text × Text). elem e.0 (keys before) ≡ false) c
    → Uniq (keys c)
    → AreNew before c
distinct-AreNew before [] a u = tt
distinct-AreNew before ((k, v) ∷ c) (new, a) (apart, u) =
    (new, distinct-AreNew (before ++ (k, v) ∷ []) c (others_new k v before c apart a) u)

none_before : (c : Creds) → All (λ (e : Text × Text). elem e.0 (keys {V = Text} []) ≡ false) c
unfolding elem
none_before [] = tt
none_before (e ∷ c) = (refl, none_before c)

add_line_lem :
    (before : Creds) (k v : Text) (lines : List Text)
    → IsLine (k, v)
    → elem k (keys before) ≡ false
    → add_lines before ((k ++ b'=' ∷ v) ∷ lines) ≡ add_lines (before ++ (k, v) ∷ []) lines
unfolding add_lines
add_line_lem before k v lines line new =
    rw (line_lem k v line, add_lines) (ap (λ m. add_lines m lines) (insert-new k v before new))

add_lines-buffer_creds :
    (before c : Creds)
    → All IsLine c
    → AreNew before c
    → add_lines before (split 10 (buffer_creds c)) ≡ before ++ c
unfolding buffer_creds add_lines split cred_of_line split_first
add_lines-buffer_creds before [] h new = sym (append-nil before)
add_lines-buffer_creds before ((k, v) ∷ c) (line, h) (new, rest) =
    ap (add_lines before)
      (split-append 10 (k ++ b'=' ∷ v) (buffer_creds c) (All-append _ k _ line.1 (not_end, line.2)))
    ∙ add_line_lem before k v (split 10 (buffer_creds c)) line new
    ∙ add_lines-buffer_creds (before ++ (k, v) ∷ []) c h rest
    ∙ append_assoc before ((k, v) ∷ []) c
  where
    not_end : ◌≢◌ {A = ℕ} b'=' 10
    not_end e = omega (arith, e)

-- What is read of the text that credentials are written as is the credentials again, in the same
-- order, if each key stands on one line and has no equals sign, each value stands on one line and
-- is not empty, and no key comes twice.
pub parse_output-buffer_creds :
    (c : Creds) → All IsLine c → Uniq (keys c) → parse_output (buffer_creds c) ≡ c
unfolding parse_output
parse_output-buffer_creds c h u =
    add_lines-buffer_creds [] c h (distinct-AreNew [] c (none_before c) u)
