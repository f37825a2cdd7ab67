-- ===== src/Config/Urls/Order.antt =====
-- The choice of config/url_config.go does not hang on the order in which Go visits the map, as far
-- as the scores of the chosen match go.
use mathlib.Core.List.{Permᴰ}
use git_lfs.Prelude.{
  ℕ, ◌≡◌, refl, sym, ap, ◌∙◌, Bool, true, false, ◌&&◌, ◌||◌, Option, none, some, List, [], ◌∷◌,
  Text, ltb, eqb, arith, if◌then◌else◌,
}
use git_lfs.Config.Urls.{Url, UrlMatch, match_url, better, consider, best_match}

abbrev pub Scores : Type 0
Scores = ℕ × ℕ × ℕ

-- The scores by which matches are compared: of the host, then of the path, then of the user.
abbrev pub scores : UrlMatch → Scores
scores m = (m.host_score, m.path_score, m.user_match)

abbrev below : Scores → Scores → Bool
below (h, p, u) (g, q, v) = ltb h g || (eqb h g && (ltb p q || (eqb p q && ltb u v)))

abbrev larger : Scores → Scores → Scores
larger a b = if below a b then b else a

larger_swap : (a b c : Scores) → larger (larger a b) c ≡ larger (larger a c) b
larger_swap (a, b, c) (d, e, f) (g, h, i) = ground arith

better-below : (best match : UrlMatch) → better best match ≡ below (scores best) (scores match)
unfolding better
better-below best match = ground arith

score_of : Option UrlMatch → Scores → Scores
score_of none a = a
score_of (some m) a = larger a (scores m)

consider-scores :
    (best : UrlMatch) (m : Option UrlMatch) → scores (consider best m) ≡ score_of m (scores best)
unfolding consider score_of
consider-scores best none = refl
consider-scores best (some match) =
    rw (better-below best match, if◌then◌else◌) (choice (below (scores best) (scores match)))
  where
    choice :
        (b : Bool) → scores (if b then match else best) ≡ (if b then scores match else scores best)
    choice true = refl
    choice false = refl

score_swap :
    (m n : Option UrlMatch) (a : Scores) → score_of m (score_of n a) ≡ score_of n (score_of m a)
unfolding score_of
score_swap none n a = refl
score_swap (some m) none a = refl
score_swap (some m) (some n) a = larger_swap a (scores n) (scores m)

-- The scores that the loop comes to.
best_scores : Url → Scores → List (Text × Url) → Scores
best_scores search a [] = a
best_scores search a ((key, config) ∷ configs) =
    best_scores search (score_of (match_url search key config) a) configs

abbrev step : Url → Scores → Text × Url → Scores
step search a (key, config) = score_of (match_url search key config) a

best_match-scores :
    (search : Url) (best : UrlMatch) (configs : List (Text × Url))
    → scores (best_match search best configs) ≡ best_scores search (scores best) configs
unfolding best_match best_scores
best_match-scores search best [] = refl
best_match-scores search best ((key, config) ∷ configs) =
    best_match-scores search (consider best (match_url search key config)) configs
    ∙ ap (λ a. best_scores search a configs) (consider-scores best (match_url search key config))

best_scores-perm :
    (search : Url) {xs ys : List (Text × Url)}
    → Permᴰ xs ys
    → (a : Scores) → best_scores search a xs ≡ best_scores search a ys
unfolding best_scores
best_scores-perm search Permᴰ.nil a = refl
best_scores-perm search (Permᴰ.cons {a = x} {b = y} {l₁ = xs} {l₂ = ys} e p) a =
    best_scores-perm search p (step search a x)
    ∙ ap (λ (z : Text × Url). best_scores search (step search a z) ys) e
best_scores-perm search (Permᴰ.swap {a = x} {b = y} {a' = u} {b' = v} {l = l} e f) a =
    ap (λ b. best_scores search b l)
      (score_swap (match_url search y.0 y.1) (match_url search x.0 x.1) a
        ∙ ap (λ (z : Text × Url). step search (step search a y) z) e
        ∙ ap (λ (z : Text × Url). step search (step search a z) v) f)
best_scores-perm search (Permᴰ.trans p q) a =
    best_scores-perm search p a ∙ best_scores-perm search q a

-- In whatever order the keys are visited, the scores of the match that is chosen for a URL, of its
-- host, its path and its user, are the same.
pub best_match-perm :
    (search : Url) (best : UrlMatch) (xs ys : List (Text × Url))
    → Permᴰ xs ys
    → scores (best_match search best xs) ≡ scores (best_match search best ys)
best_match-perm search best xs ys p =
    best_match-scores search best xs
    ∙ best_scores-perm search p (scores best)
    ∙ sym (best_match-scores search best ys)
