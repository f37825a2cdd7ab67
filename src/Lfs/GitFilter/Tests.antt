-- ===== src/Lfs/GitFilter/Tests.antt =====
-- The filters of lfs/gitfilter_clean.go and lfs/gitfilter_smudge.go at concrete content.
use mathlib.Core.List.Permᴰ
use git_lfs.Prelude.{
  ◌≡◌, refl, inl, inr, true, Option, none, some, List, [], ◌∷◌, Text, codes, text_comparable, ◌==◌,
  eqb, Bool-cases, all, arith, if◌then◌else◌,
}
use git_lfs.Prelude.Int.{negsuc}
use git_lfs.Prelude.Dict
use git_lfs.Prelude.Dict.{Dict}
use git_lfs.Strings.{split}
use git_lfs.Config.{Extension}
use git_lfs.Config.Values.{sort_extensions}
use git_lfs.Lfs.Pointer.{Pointer, encoded, empty_object}
use git_lfs.Lfs.Pointer.Decoding.{Reader, more, end_of_file, matches_oid, is_word}
use git_lfs.Lfs.GitFilter.{failed, extension_failed, Store}
use git_lfs.Lfs.GitFilter.Pipe.{clean_action, pipe_extensions, command_line, replace_file}
use git_lfs.Lfs.GitFilter.Cleaning.{clean, finish_clean, wrote, read_all}
use git_lfs.Lfs.GitFilter.Smudging.{smudge_command}
use git_lfs.Lfs.GitFilter.Smudging.Restoring.{IsReversible}
use git_lfs.Lfs.GitFilter.RoundTrip.{smudge_command-clean}

-- Hashes that tell the two contents of the test apart.
abbrev hash_of : Text → Text
hash_of [] = empty_object
hash_of (c ∷ s) =
    if eqb c b'a'
    then codes "aaaaaaaaaaaaaaaaaaaaaaaaaaaaaaaaaaaaaaaaaaaaaaaaaaaaaaaaaaaaaaaa"
    else codes "bbbbbbbbbbbbbbbbbbbbbbbbbbbbbbbbbbbbbbbbbbbbbbbbbbbbbbbbbbbbbbbb"

hash_of-matches_oid : (t : Text) → matches_oid (hash_of t) ≡ true
unfolding matches_oid all
hash_of-matches_oid [] = refl
hash_of-matches_oid (c ∷ s) = elim (Bool-cases (eqb c b'a')) [
  | inl y ↦ rw (y, if◌then◌else◌) refl
  | inr n ↦ rw (n, if◌then◌else◌) refl
]

-- A program puts a byte in front, and another takes it off.
abbrev run : List Text → Text → Option Text
run [] input = none
run (name ∷ args) [] = none
run (name ∷ args) (c ∷ s) = if name == codes "mark" then some (b'b' ∷ c ∷ s) else some s

abbrev marker : Extension
marker = record {
  name = codes "marker";
  clean = codes "mark %f";
  smudge = codes "unmark %f";
  priority = 0;
}

abbrev registered : Dict Text Extension
registered = (codes "marker", marker) ∷ []

marker-IsReversible :
    IsReversible hash_of run registered (codes "file") marker (codes "a") (codes "ba")
unfolding Dict.lookup command_line split replace_file
marker-IsReversible = record {
  configured = refl;
  cleans = refl;
  smudges = refl;
  tells_apart = λ e. absurd (ground arith);
}

abbrev empty_store : Store
empty_store = record { objects = []; references = [] }

abbrev as_listed : Dict Text Text → Dict Text Text
as_listed m = m

abbrev content : Reader
content = record { first = codes "a"; status = end_of_file; rest = [] }

smudge_command-clean_example :
    (p : Pointer) × (s' : Store) × (finish_clean empty_store
        (clean hash_of run as_listed registered content (codes "file") (negsuc 0))
      ≡ wrote (encoded p) s')
    × (smudge_command hash_of run as_listed registered s'
          (record { first = encoded p; status = more; rest = [] })
          (codes "file")
          true
          true
          (λ oid size. none)
        ≡ (s', codes "a", none))
unfolding sort_extensions read_all Dict.lookup is_word
smudge_command-clean_example =
    smudge_command-clean hash_of run as_listed registered (codes "file") (marker ∷ []) content
      (negsuc 0) (codes "a") (codes "ba") empty_store more [] true true (λ oid size. none)
      (λ m. Permᴰ.refl m) refl (hash_of-matches_oid, ((refl, omega arith, omega arith), tt))
      marker-IsReversible refl refl (omega arith) (omega arith) (inl refl) (cc)

abbrev third : Text → Extension
third name = record { name = name; clean = codes "mark"; smudge = codes "unmark"; priority = 0 }

-- With three extensions, the first fails where it writes something.
three_extensions :
    pipe_extensions hash_of run clean_action
      (codes "file")
      (third (codes "x") ∷ third (codes "y") ∷ third (codes "z") ∷ [])
      (codes "a")
    ≡ failed (extension_failed (some (codes "x")))
unfolding pipe_extensions
three_extensions = refl
