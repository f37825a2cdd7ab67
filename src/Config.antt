-- ===== src/Config.antt =====
-- The configuration of config/: how the lines that Git prints are read (config/git_fetcher.go), what
-- a value is taken to be (config/environment.go, config/map_fetcher.go), and which remote is meant
-- (config/config.go). The warnings that are printed are not modelled; the keys that are ignored are.
pub mod Sources
pub mod Values
pub mod Commands
pub mod Restricting
pub mod Extensions
pub mod Urls
mod Tests
use git_lfs.Prelude.{
  ℕ, zero, suc, ◌+◌, Bool, true, false, not, ◌&&◌, ◌||◌, Option, none, some, List, [], ◌∷◌, ◌++◌,
  Text, codes, text_comparable, ◌==◌, ltb, leb, eqb, length, elem, if◌then◌else◌,
}
use git_lfs.Prelude.Int.{ℤ, pos, negsuc}
use git_lfs.Prelude.Dict
use git_lfs.Prelude.Dict.{Dict}
use git_lfs.Strings.{split_first, split, parse_int}

pub record Extension : Type 0 where
  pub name : Text
  pub clean : Text
  pub smudge : Text
  pub priority : ℕ

-- `git.ConfigurationSource`
pub record ConfigurationSource : Type 0 where
  pub lines : List Text
  pub only_safe_keys : Bool

-- What has been read so far.
pub record Reading : Type 0 where
  pub vals : Dict Text (List Text)
  pub extensions : Dict Text Extension
  pub uniq_remotes : Dict Text Bool
  pub ignored : List Text

abbrev pub safe_keys : List Text
safe_keys =
    codes "lfs.allowincompletepush"
    ∷ codes "lfs.fetchexclude"
    ∷ codes "lfs.fetchinclude"
    ∷ codes "lfs.gitprotocol"
    ∷ codes "lfs.locksverify"
    ∷ codes "lfs.pushurl"
    ∷ codes "lfs.skipdownloaderrors"
    ∷ codes "lfs.url"
    ∷ []

unfoldable pub key_is_unsafe : Text → Bool
unfolding elem
key_is_unsafe key = not (elem key safe_keys)

-- The values of a key, none for one that is missing.
unfoldable pub values_of : Dict Text (List Text) → Text → List Text
values_of vals key = elim (Dict.lookup key vals) [ none ↦ [] | some vs ↦ vs ]

-- The last of the values; `Get` of the fetchers.
unfoldable pub last_of : List Text → Option Text
last_of [] = none
last_of (v ∷ []) = some v
last_of (v ∷ w ∷ vs) = last_of (w ∷ vs)

unfoldable pub get : Dict Text (List Text) → Text → Option Text
unfolding values_of last_of
get vals key = last_of (values_of vals key)

-- `strings.Join(parts, ".")`
unfoldable pub join : List Text → Text
join [] = []
join (part ∷ []) = part
join (part ∷ next ∷ parts) = part ++ b'.' ∷ join (next ∷ parts)

-- `parts[1:len(parts)-1]` of at least one part.
unfoldable pub init : List Text → List Text
init [] = []
init (part ∷ []) = []
init (part ∷ next ∷ parts) = part ∷ init (next ∷ parts)

unfoldable pub middle : List Text → List Text
unfolding init
middle [] = []
middle (part ∷ parts) = init parts

-- What a key is of, by its parts.
pub data Setting : Type 0 where
  extension_prop : (name prop : Text) → Setting
  remote_setting : (parts : List Text) → Setting
  access_setting : Setting
  other_setting : Setting

-- `lfs.extension.<name>.<prop>`
unfoldable pub extension_parts : List Text → Option (Text × Text)
extension_parts (a ∷ b ∷ name ∷ prop ∷ []) =
    if a == codes "lfs" && b == codes "extension" then some (name, prop) else none
extension_parts _ = none

unfoldable pub is_remote : List Text → Bool
is_remote (a ∷ b ∷ parts) = a == codes "remote"
is_remote _ = false

unfoldable pub is_access : List Text → Bool
unfolding last_of
is_access parts = ltb 2 (length parts) && ends_in_access (last_of parts)
  where
    ends_in_access : Option Text → Bool
    ends_in_access none = false
    ends_in_access (some part) = part == codes "access"

unfoldable pub setting_of : List Text → Setting
unfolding extension_parts is_remote is_access
setting_of parts = elim (extension_parts parts) [
  | some (name, prop) ↦ extension_prop name prop
  | none ↦
      if is_remote parts
      then remote_setting parts
      else if is_access parts
      then access_setting
      else other_setting
]

-- A key of a remote of which only the URL of the LFS server may be set.
unfoldable pub is_refused_remote : List Text → Bool
is_refused_remote (a ∷ b ∷ c ∷ []) = not (c == codes "lfsurl")
is_refused_remote _ = false

unfoldable pub ignore : Text → Reading → Reading
ignore key r = record r { ignored = r.ignored ++ key ∷ [] }

-- The end of the loop's body: the value is appended, or its key ignored.
unfoldable pub store : (allowed : Bool) → (key val : Text) → Reading → Reading
unfolding key_is_unsafe values_of ignore
store allowed key val r =
    if not allowed && key_is_unsafe key
    then ignore key r
    else record r { vals = Dict.insert key (values_of r.vals key ++ val ∷ []) r.vals }

unfoldable pub extension_named : Dict Text Extension → Text → Extension
extension_named extensions name = elim (Dict.lookup name extensions) [
  | none ↦ record { name = name; clean = []; smudge = []; priority = 0 }
  | some ext ↦ record ext { name = name }
]

-- The priority that a value sets, if it is a number that is not negative.
unfoldable pub priority_of : ℕ → Option ℤ → ℕ
priority_of old none = old
priority_of old (some (pos n)) = n
priority_of old (some (negsuc n)) = old

unfoldable pub keep_extension : Extension → Reading → Reading
keep_extension ext r = record r { extensions = Dict.insert ext.name ext r.extensions }

unfoldable pub read_extension : (only_safe : Bool) → (key val name prop : Text) → Reading → Reading
unfolding ignore store extension_named priority_of keep_extension
read_extension only_safe key val name prop r =
    let ext = extension_named r.extensions name in
    if prop == codes "clean"
    then (if only_safe
        then ignore key r
        else store true key val (keep_extension (record ext { clean = val }) r))
    else if prop == codes "smudge"
    then (if only_safe
        then ignore key r
        else store true key val (keep_extension (record ext { smudge = val }) r))
    else if prop == codes "priority"
    then store true key val
        (keep_extension (record ext { priority = priority_of ext.priority (parse_int val) }) r)
    else store (not only_safe) key val (keep_extension ext r)

unfoldable pub read_setting : (only_safe : Bool) → (key val : Text) → Setting → Reading → Reading
unfolding read_extension is_refused_remote store ignore middle join
read_setting only_safe key val (extension_prop name prop) r =
    read_extension only_safe key val name prop r
read_setting only_safe key val (remote_setting parts) r =
    if only_safe && is_refused_remote parts
    then ignore key r
    else let remote = join (middle parts) in
      store true key val
        (record r { uniq_remotes = Dict.insert remote (remote == codes "origin") r.uniq_remotes })
read_setting only_safe key val access_setting r = store true key val r
read_setting only_safe key val other_setting r = store (not only_safe) key val r

-- The key and the value of a line, if it has both.
unfoldable pub key_value : Text → Option (Text × Text)
key_value line = split_first b'=' line

unfoldable pub read_line : (only_safe : Bool) → Reading → Text → Reading
unfolding read_setting setting_of key_value
read_line only_safe r line = elim (key_value line) [
  | none ↦ r
  | some (key, val) ↦ read_setting only_safe key val (setting_of (split b'.' key)) r
]

unfoldable pub read_lines : (only_safe : Bool) → Reading → List Text → Reading
unfolding read_line
read_lines only_safe r [] = r
read_lines only_safe r (line ∷ lines) = read_lines only_safe (read_line only_safe r line) lines

unfoldable pub read_sources : Reading → List ConfigurationSource → Reading
unfolding read_lines
read_sources r [] = r
read_sources r (gc ∷ configs) = read_sources (read_lines gc.only_safe_keys r gc.lines) configs

abbrev pub nothing_read : Reading
nothing_read = record { vals = []; extensions = []; uniq_remotes = []; ignored = [] }

unfoldable pub read_git_config : List ConfigurationSource → Reading
unfolding read_sources
read_git_config configs = read_sources nothing_read configs
