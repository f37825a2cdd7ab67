-- ===== src/Lfs/DiffIndex/Lines.antt =====
-- What lfs/diff_index_scanner.go reads in a line that `git diff-index` prints.
use git_lfs.Prelude.{
  ◌≡◌, ◌≢◌, refl, ap, ◌∙◌, some, List, [], ◌∷◌, ◌++◌, append-nil, Text, All-append, arith,
}
use git_lfs.Prelude.Int.{ℤ, pos}
use git_lfs.Strings.{split, trim_prefix, cut_prefix, parse_int}
use git_lfs.Strings.Fields.{fields, IsPlain, fields-blank, fields-last}
use git_lfs.Strings.Splitting.{Lacks}
use git_lfs.Lfs.DiffIndex.{
  DiffIndexEntry, entry, scan_line, scan_parts, described, score_of, second_name,
}

-- A word of visible characters.
pub record IsWord (w : Text) : Type 0 where
  pub plain : IsPlain w
  pub written : w ≢ []

-- The line for an entry, with the text of a score.
abbrev pub description_of : DiffIndexEntry → Text → Text
description_of e score =
    58
    ∷ (e.src_mode
        ++ (32
            ∷ (e.dst_mode ++ (32 ∷ (e.src_sha ++ (32 ∷ (e.dst_sha ++ (32 ∷ e.status ∷ score))))))))

-- The second name stands behind a tab, if there is one.
abbrev pub behind_tab : Text → Text
behind_tab [] = []
behind_tab (c ∷ name) = 9 ∷ c ∷ name

abbrev pub line_of : DiffIndexEntry → Text → Text
line_of e score = description_of e score ++ (9 ∷ (e.src_name ++ behind_tab e.dst_name))

pub record IsListed (e : DiffIndexEntry) (score : Text) : Type 0 where
  pub src_mode : IsPlain e.src_mode
  pub dst_mode : IsWord e.dst_mode
  pub src_sha : IsWord e.src_sha
  pub dst_sha : IsWord e.dst_sha
  pub status_score : IsPlain (e.status ∷ score)
  pub src_name : Lacks 9 e.src_name
  pub dst_name : Lacks 9 e.dst_name

fields-word : (w s : Text) → IsWord w → fields (w ++ 32 ∷ s) ≡ w ∷ fields s
fields-word [] s h = absurd (h.written refl)
fields-word (c ∷ w) s h = fields-blank c w s h.plain

fields-description_of :
    (e : DiffIndexEntry) (score : Text)
    → IsListed e score
    → fields (description_of e score)
      ≡ (58 ∷ e.src_mode) ∷ e.dst_mode ∷ e.src_sha ∷ e.dst_sha ∷ (e.status ∷ score) ∷ []
fields-description_of e score h =
    fields-blank 58 e.src_mode _ ((omega arith, omega arith), h.src_mode)
    ∙ ap (λ fs. (58 ∷ e.src_mode) ∷ fs)
        (fields-word e.dst_mode _ h.dst_mode
          ∙ ap (λ fs. e.dst_mode ∷ fs)
              (fields-word e.src_sha _ h.src_sha
                ∙ ap (λ fs. e.src_sha ∷ fs)
                    (fields-word e.dst_sha _ h.dst_sha
                      ∙ ap (λ fs. e.dst_sha ∷ fs) (fields-last e.status score h.status_score))))

split-tab : (a b : Text) → Lacks 9 a → split 9 (a ++ 9 ∷ b) ≡ a ∷ split 9 b
unfolding split
split-tab [] b h = ground arith
split-tab (c ∷ a) b (n, h) = rw (split-tab a b h, split) (ground arith)

split-last : (a : Text) → Lacks 9 a → split 9 a ≡ a ∷ []
unfolding split
split-last [] h = refl
split-last (c ∷ a) (n, h) = rw (split-last a h, split) (ground arith)

plain-Lacks : (w : Text) → IsPlain w → Lacks 9 w
plain-Lacks [] h = tt
plain-Lacks (c ∷ w) ((a, b), h) = (ground arith, plain-Lacks w h)

blank-Lacks : (w s : Text) → IsPlain w → Lacks 9 s → Lacks 9 (w ++ 32 ∷ s)
blank-Lacks w s h k = All-append _ w (32 ∷ s) (plain-Lacks w h) (cc, k)

description_of-Lacks :
    (e : DiffIndexEntry) (score : Text) → IsListed e score → Lacks 9 (description_of e score)
description_of-Lacks e score h =
    blank-Lacks (58 ∷ e.src_mode) _ ((omega arith, omega arith), h.src_mode)
      (blank-Lacks e.dst_mode _ h.dst_mode.plain (
        blank-Lacks e.src_sha _ h.src_sha.plain (
          blank-Lacks e.dst_sha _ h.dst_sha.plain (plain-Lacks (e.status ∷ score) h.status_score))))

names_of : Text → List Text
names_of [] = []
names_of (c ∷ name) = (c ∷ name) ∷ []

split-names :
    (src dst : Text)
    → Lacks 9 src
    → Lacks 9 dst
    → split 9 (src ++ behind_tab dst) ≡ src ∷ names_of dst
unfolding names_of
split-names src [] h k = ap (split 9) (append-nil src) ∙ split-last src h
split-names src (c ∷ dst) h k =
    split-tab src (c ∷ dst) h ∙ ap (λ ns. src ∷ ns) (split-last (c ∷ dst) k)

second_name-names_of : (dst : Text) → second_name (names_of dst) ≡ dst
unfolding names_of
second_name-names_of [] = refl
second_name-names_of (c ∷ dst) = refl

score_of-number : (score : Text) (n : ℤ) → parse_int score ≡ some n → score_of score ≡ pos 0
unfolding score_of
score_of-number score n h = rw (h, score_of) refl

-- A line for an entry of `git diff-index`, of which the modes, the hashes and the status with its
-- score are visible ASCII characters, no mode of the destination and no hash is empty, and no name
-- has a tab, is read as that entry, with a score of zero whatever number the line gives for it.
pub scan_line-line_of :
    (e : DiffIndexEntry) (score : Text) (n : ℤ)
    → IsListed e score
    → parse_int score ≡ some n
    → scan_line (line_of e score) ≡ entry (record e { status_score = pos 0 })
unfolding scan_line scan_parts described trim_prefix cut_prefix
scan_line-line_of e score n h number =
    ap (scan_parts (line_of e score)) (
      split-tab (description_of e score) _ (description_of-Lacks e score h)
      ∙ ap (λ ns. description_of e score ∷ ns)
          (split-names e.src_name e.dst_name h.src_name h.dst_name))
    ∙ ap (described (description_of e score) (names_of e.dst_name) e.src_name)
        (fields-description_of e score h)
    ∙ read
  where
    read :
        described
          (description_of e score)
          (names_of e.dst_name)
          e.src_name
          ((58 ∷ e.src_mode) ∷ e.dst_mode ∷ e.src_sha ∷ e.dst_sha ∷ (e.status ∷ score) ∷ [])
        ≡ entry (record e { status_score = pos 0 })
    read =
        ap (λ d. entry (record e { status_score = score_of score; dst_name = d }))
          (second_name-names_of e.dst_name)
        ∙ ap (λ z. entry (record e { status_score = z })) (score_of-number score n number)
