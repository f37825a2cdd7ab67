-- ===== src/Config/Values.antt =====
-- What a value of the configuration is taken to be (config/environment.go, config/map_fetcher.go,
-- config/extension.go), how a key is looked up (config/git_fetcher.go), and which remote is meant
-- (config/config.go). The letters of keys and of words are taken to be ASCII.
use git_lfs.Prelude.{
  ℕ, ◌+◌, Bool, ◌&&◌, Option, none, some, List, [], ◌∷◌, ◌++◌, map, Text, codes, text_comparable,
  number_comparable, leb, ltb, length, elem, if◌then◌else◌,
}
use git_lfs.Prelude.Int.{ℤ}
use git_lfs.Prelude.Dict
use git_lfs.Prelude.Dict.{Dict}
use git_lfs.Prelude.Dict.Laws.{keys}
use git_lfs.Strings.{split, parse_int}
use git_lfs.Config.{Extension, Reading, values_of, get, join}

unfoldable pub lower : ℕ → ℕ
lower c = if leb b'A' c && leb c b'Z' then c + 32 else c

unfoldable pub to_lower : Text → Text
unfolding lower
to_lower s = map lower s

-- `Int`
unfoldable pub int_value : Text → ℤ → ℤ
int_value [] default = default
int_value (c ∷ s) default = elim (parse_int (c ∷ s)) [ none ↦ default | some i ↦ i ]

abbrev pub true_words : List Text
true_words = codes "true" ∷ codes "1" ∷ codes "on" ∷ codes "yes" ∷ codes "t" ∷ []

-- `Bool`: any other word, of those that mean false or not, is false.
unfoldable pub bool_value : Text → Bool → Bool
unfolding to_lower elem
bool_value [] default = default
bool_value (c ∷ s) default = elem (to_lower (c ∷ s)) true_words

-- `Environment.Int` and `Environment.Bool`, of what `Get` returns: a missing value is empty.
unfoldable pub or_empty : Option Text → Text
or_empty none = []
or_empty (some v) = v

unfoldable pub env_int : Option Text → ℤ → ℤ
unfolding or_empty int_value
env_int value default = int_value (or_empty value) default

unfoldable pub env_bool : Option Text → Bool → Bool
unfolding or_empty bool_value
env_bool value default = bool_value (or_empty value) default

-- `UniqMapFetcher`
unfoldable pub uniq_map_fetcher : Dict Text Text → Dict Text (List Text)
uniq_map_fetcher [] = []
uniq_map_fetcher ((k, v) ∷ m) = (k, v ∷ []) ∷ uniq_map_fetcher m

-- `All`: a copy, in which a key without values has no entry.
unfoldable pub append_values : Text → List Text → Dict Text (List Text) → Dict Text (List Text)
unfolding values_of
append_values k [] m = m
append_values k (v ∷ vs) m = append_values k vs (Dict.insert k (values_of m k ++ v ∷ []) m)

unfoldable pub copy_all : Dict Text (List Text) → Dict Text (List Text) → Dict Text (List Text)
unfolding append_values
copy_all [] new = new
copy_all ((k, vs) ∷ m) new = copy_all m (append_values k vs new)

unfoldable pub all_values : Dict Text (List Text) → Dict Text (List Text)
unfolding copy_all
all_values vals = copy_all vals []

-- The first part and the last in lower case, the part between as it is.
unfoldable pub fold_ends : List Text → List Text
unfolding to_lower
fold_ends [] = []
fold_ends (part ∷ parts) = to_lower part ∷ fold_last parts
  where
    fold_last : List Text → List Text
    fold_last [] = []
    fold_last (part ∷ []) = to_lower part ∷ []
    fold_last (part ∷ next ∷ parts) = part ∷ fold_last (next ∷ parts)

unfoldable pub case_fold_key : Text → Text
unfolding fold_ends to_lower join
case_fold_key key =
    let parts = split b'.' key in
    if ltb (length parts) 3 then to_lower key else join (fold_ends parts)

-- `GitFetcher.Get`
unfoldable pub git_get : Dict Text (List Text) → Text → Option Text
unfolding case_fold_key get
git_get vals key = get vals (case_fold_key key)

-- `SortExtensions`: an error if two extensions have the same priority.
unfoldable pub insert_extension : Extension → List Extension → List Extension
insert_extension e [] = e ∷ []
insert_extension e (x ∷ xs) =
    let rest = x ∷ insert_extension e xs in if leb e.priority x.priority then e ∷ x ∷ xs else rest

unfoldable pub sort_extensions_from :
    (seen : List ℕ) → (sorted : List Extension) → Dict Text Extension → Option (List Extension)
unfolding insert_extension elem
sort_extensions_from seen sorted [] = some sorted
sort_extensions_from seen sorted ((name, ext) ∷ m) =
    let rest = sort_extensions_from (ext.priority ∷ seen) (insert_extension ext sorted) m in
    if elem ext.priority seen then none else rest

unfoldable pub sort_extensions : Dict Text Extension → Option (List Extension)
unfolding sort_extensions_from
sort_extensions m = sort_extensions_from [] [] m

-- The only remote, if there is exactly one.
unfoldable pub only_remote : List Text → Option Text
only_remote (remote ∷ []) = some remote
only_remote _ = none

-- `Configuration.Remote`, where none was chosen before.
unfoldable pub current_remote : Reading → (ref_name : Text) → Text
unfolding git_get only_remote
current_remote r ref_name = elim (tracking ref_name) [
  | some remote ↦ remote
  | none ↦ elim (git_get r.vals (codes "remote.lfsdefault")) [
    | some remote ↦ remote
    | none ↦ elim (only_remote (keys r.uniq_remotes)) [
      | some remote ↦ remote
      | none ↦ codes "origin"
    ]
  ]
]
  where
    tracking : Text → Option Text
    tracking [] = none
    tracking (c ∷ name) = git_get r.vals (codes "branch." ++ (c ∷ name) ++ codes ".remote")

-- `Configuration.PushRemote`, where none was chosen before.
unfoldable pub push_remote : Reading → (ref_name : Text) → Text
unfolding current_remote git_get
push_remote r ref_name =
    elim (git_get r.vals (codes "branch." ++ ref_name ++ codes ".pushRemote")) [
      | some remote ↦ remote
      | none ↦ elim (git_get r.vals (codes "remote.lfspushdefault")) [
        | some remote ↦ remote
        | none ↦ elim (git_get r.vals (codes "remote.pushDefault")) [
          | some remote ↦ remote
          | none ↦ current_remote r ref_name
        ]
      ]
    ]
