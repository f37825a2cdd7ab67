-- ===== src/Config/Urls.antt =====
-- How config/url_config.go chooses the configuration that fits a URL best. A URL comes parsed, by
-- Go's `net/url`; the loop is over the keys of the right form, in the order in which Go visits the
-- map.
pub mod Order
use git_lfs.Prelude.{
  ℕ, zero, suc, ◌+◌, ◌-◌, Bool, true, false, not, ◌&&◌, ◌||◌, Option, none, some, List, [], ◌∷◌,
  ◌++◌, Text, codes, text_comparable, ◌==◌, ltb, leb, eqb, length, get_elem?, drop, take,
  if◌then◌else◌,
}
use git_lfs.Prelude.Dict.{Dict}
use git_lfs.Strings.{split, has_prefix}
use git_lfs.Config.{values_of, last_of, join}

-- The parts of a URL that count here; the port is empty if the URL has none.
pub record Url : Type 0 where
  pub scheme : Text
  pub hostname : Text
  pub port : Text
  pub path : Text
  pub user : Option Text

unfoldable pub port_for_url : Url → Text
port_for_url u =
    if not (u.port == [])
    then u.port
    else if u.scheme == codes "http"
    then codes "80"
    else if u.scheme == codes "https"
    then codes "443"
    else if u.scheme == codes "ssh"
    then codes "22"
    else []

-- The loop of `compareHosts` over the labels of two hosts of equal length.
unfoldable pub host_score : ℕ → (search config : List Text) → ℕ
host_score score [] config = score
host_score score (s ∷ search) [] = 0
host_score score (s ∷ search) (c ∷ config) =
    let wild = host_score (score - 1) search config in
    let exact = host_score score search config in
    if c == codes "*" then wild else if s == c then exact else 0

unfoldable pub compare_hosts : (search config : Text) → ℕ
unfolding host_score
compare_hosts search config =
    let searched = split b'.' search in
    let configured = split b'.' config in
    if eqb (length searched) (length configured)
    then host_score (length searched + 1) searched configured
    else 0

-- `strings.FieldsFunc` at the slashes: the parts that are not empty.
unfoldable pub non_empty : List Text → List Text
non_empty [] = []
non_empty ([] ∷ parts) = non_empty parts
non_empty ((c ∷ part) ∷ parts) = (c ∷ part) ∷ non_empty parts

unfoldable pub path_parts : Text → List Text
unfolding non_empty
path_parts path = non_empty (split b'/' path)

-- What stands before `.git`, if the text ends in it.
unfoldable pub before_git : Text → Option Text
before_git [] = none
before_git (c ∷ s) =
    let rest = before_git s in
    if (c ∷ s) == codes ".git" then some [] else elim rest [ none ↦ none | some t ↦ some (c ∷ t) ]

-- `isDefaultLFSUrl` of a part that ends in `.git`, by the parts after it.
unfoldable pub is_info_lfs : List Text → Bool
is_info_lfs (a ∷ b ∷ parts) = a == codes "info" && b == codes "lfs"
is_info_lfs _ = false

-- A part of the path without `.git`, where the default URL of a server continues it.
unfoldable pub default_part : Text → (following : List Text) → Option Text
unfolding before_git is_info_lfs
default_part part following =
    if ltb (length part) 5 || not (is_info_lfs following) then none else before_git part

-- The loop of `comparePaths` over the configured parts.
unfoldable pub path_score : ℕ → (search config : List Text) → ℕ
unfolding default_part
path_score score search [] = score
path_score score [] (c ∷ config) = 0
path_score score (s ∷ search) (c ∷ config) =
    let exact = path_score (score + 2) search config in
    let default = path_score (score + 1) search config in
    if c == s
    then exact
    else elim (default_part s search) [ none ↦ 0 | some part ↦ if part == c then default else 0 ]

unfoldable pub compare_paths : (search config : Text) → ℕ
unfolding path_parts path_score
compare_paths search config =
    let searched = path_parts search in
    let configured = path_parts config in
    if ltb (length searched) (length configured) then 0 else path_score 1 searched configured

pub record UrlMatch : Type 0 where
  pub key : Text
  pub host_score : ℕ
  pub path_score : ℕ
  pub user_match : ℕ

abbrev pub no_match : UrlMatch
no_match = record { key = []; host_score = 0; path_score = 0; user_match = 0 }

-- 1 if a user is named and it is the right one, 0 if none is named, `none` for a wrong one.
unfoldable pub match_user : (search config : Option Text) → Option ℕ
match_user search none = some 0
match_user none (some name) = none
match_user (some user) (some name) = if user == name then some 1 else none

-- The scores of a configured URL, if it matches.
unfoldable pub match_url : (search : Url) → Text → Url → Option UrlMatch
unfolding compare_hosts compare_paths match_user port_for_url
match_url search key config =
    let host = compare_hosts search.hostname config.hostname in
    let path = compare_paths search.path config.path in
    if not (search.scheme == config.scheme)
      || eqb host 0
      || not (port_for_url search == port_for_url config)
      || eqb path 0
    then none
    else elim (match_user search.user config.user) [
      | none ↦ none
      | some user ↦
          some (record { key = key; host_score = host; path_score = path; user_match = user })
    ]

-- The end of the loop's body: whether a match replaces the best one so far.
unfoldable pub better : (best match : UrlMatch) → Bool
better best match =
    if ltb match.host_score best.host_score
    then false
    else if ltb best.host_score match.host_score
    then true
    else if ltb best.path_score match.path_score
    then true
    else eqb match.path_score best.path_score && ltb best.user_match match.user_match

unfoldable pub consider : UrlMatch → Option UrlMatch → UrlMatch
unfolding better
consider best none = best
consider best (some match) = if better best match then match else best

unfoldable pub best_match : (search : Url) → UrlMatch → List (Text × Url) → UrlMatch
unfolding consider match_url
best_match search best [] = best
best_match search best ((key, config) ∷ configs) =
    best_match search (consider best (match_url search key config)) configs

-- `getAll`: the values of the best key.
unfoldable pub matched_values :
    (search : Url) → List (Text × Url) → Dict Text (List Text) → List Text
unfolding best_match values_of
matched_values search configs vals =
    let best = best_match search no_match configs in
    if best.key == [] then [] else values_of vals best.key

-- `URLConfig.GetAll`, for a prefix and a key in lower case.
unfoldable pub url_values :
    (search : Url) → List (Text × Url) → Dict Text (List Text) → (prefix key : Text) → List Text
unfolding matched_values join
url_values search configs vals prefix key =
    let found = matched_values search configs vals in
    if eqb (length found) 0 then values_of vals (join (prefix ∷ key ∷ [])) else found

-- `URLConfig.Get`
unfoldable pub url_value :
    (search : Url) → List (Text × Url) → Dict Text (List Text) → (prefix key : Text) → Option Text
unfolding url_values last_of
url_value search configs vals prefix key = last_of (url_values search configs vals prefix key)
