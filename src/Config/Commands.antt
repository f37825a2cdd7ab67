-- ===== src/Config/Commands.antt =====
-- The commands of the extensions that `readGitConfig` of config/git_fetcher.go keeps.
use git_lfs.Prelude.{
  ◌≡◌, refl, ap, ◌∙◌, Bool, true, false, not, ◌&&◌, Option, none, some, inl, inr, Bool-cases, List,
  [], ◌∷◌, Text, codes, text_comparable, ◌==◌, same_text_iff, if◌then◌else◌,
}
use git_lfs.Prelude.Dict
use git_lfs.Prelude.Dict.{Dict}
use git_lfs.Prelude.Dict.Laws.{lookup-insert}
use git_lfs.Config.{
  ConfigurationSource, Reading, Setting, Extension, extension_prop, remote_setting, access_setting,
  other_setting, key_is_unsafe, ignore, store, keep_extension, extension_named,
}

abbrev pub commands_of : Option Extension → Text × Text
commands_of none = ([], [])
commands_of (some ext) = (ext.clean, ext.smudge)

-- The commands of an extension, clean and smudge, each empty if it is not set.
unfoldable pub commands : Dict Text Extension → Text → Text × Text
commands extensions name = commands_of (Dict.lookup name extensions)

-- The sources that may set any key.
unfoldable pub unrestricted : List ConfigurationSource → List ConfigurationSource
unrestricted [] = []
unrestricted (gc ∷ configs) =
    let rest = unrestricted configs in if gc.only_safe_keys then rest else gc ∷ rest

-- The same commands of all extensions.
abbrev pub AreSame : Dict Text Extension → Dict Text Extension → Type 0
AreSame m n = (name : Text) → commands m name ≡ commands n name

pub store_extensions :
    (allowed : Bool) (k val : Text) (r : Reading)
    → (store allowed k val r).extensions ≡ r.extensions
unfolding store ignore
store_extensions allowed k val r = elim (Bool-cases (not allowed && key_is_unsafe k)) [
  | inl y ↦ rw (y, if◌then◌else◌) refl
  | inr n ↦ rw (n, if◌then◌else◌) refl
]

commands-insert :
    (ext : Extension) (m : Dict Text Extension) (name : Text)
    → commands (Dict.insert ext.name ext m) name
      ≡ (if ext.name == name then (ext.clean, ext.smudge) else commands m name)
unfolding commands
commands-insert ext m name =
    ap commands_of (lookup-insert ext.name name ext m) ∙ choice (ext.name == name)
  where
    choice :
        (b : Bool)
        → commands_of (if b then some ext else Dict.lookup name m)
          ≡ (if b then (ext.clean, ext.smudge) else commands_of (Dict.lookup name m))
    choice true = refl
    choice false = refl

-- An extension that is read back under its name has its commands.
pub named_commands :
    (m : Dict Text Extension) (name : Text)
    → ((extension_named m name).clean, (extension_named m name).smudge) ≡ commands m name
unfolding extension_named commands
named_commands m name = by_cases (Dict.lookup name m)
  where
    by_cases :
        (o : Option Extension)
        → (
          (elim o as (λ _. Extension) [
            | none ↦ record { name = name; clean = []; smudge = []; priority = 0 }
            | some ext ↦ record ext { name = name }
          ]).clean,
          (elim o as (λ _. Extension) [
            | none ↦ record { name = name; clean = []; smudge = []; priority = 0 }
            | some ext ↦ record ext { name = name }
          ]).smudge,
        )
          ≡ commands_of o
    by_cases none = refl
    by_cases (some ext) = refl

-- The commands after a value was read for a setting.
abbrev pub set_commands : Text → Setting → Text → Text × Text → Text × Text
set_commands val (extension_prop n prop) name (clean, smudge) =
    if n == name
    then (if prop == codes "clean"
        then (val, smudge)
        else if prop == codes "smudge"
        then (clean, val)
        else (clean, smudge))
    else (clean, smudge)
set_commands val (remote_setting parts) name cs = cs
set_commands val access_setting name cs = cs
set_commands val other_setting name cs = cs

pub named_name : (m : Dict Text Extension) (name : Text) → (extension_named m name).name ≡ name
unfolding extension_named
named_name m name = by_cases (Dict.lookup name m)
  where
    by_cases :
        (o : Option Extension)
        → (elim o as (λ _. Extension) [
          | none ↦ record { name = name; clean = []; smudge = []; priority = 0 }
          | some ext ↦ record ext { name = name }
        ]).name
          ≡ name
    by_cases none = refl
    by_cases (some ext) = refl

-- To keep an extension sets its commands, and those of no other.
pub kept_commands :
    (allowed : Bool) (k val n name : Text) (ext : Extension) (r : Reading)
    → ext.name ≡ n
    → commands (store allowed k val (keep_extension ext r)).extensions name
      ≡ (if n == name then (ext.clean, ext.smudge) else commands r.extensions name)
unfolding keep_extension
kept_commands allowed k val n name ext r same =
    ap (λ m. commands m name) (store_extensions allowed k val (keep_extension ext r))
    ∙ commands-insert ext r.extensions name
    ∙ ap (λ i. if i == name then (ext.clean, ext.smudge) else commands r.extensions name) same

-- The commands under a name, for those of an equal one.
pub at_name :
    (n name : Text) (m : Dict Text Extension) (f : Text × Text → Text × Text)
    → (if n == name then f (commands m n) else commands m name)
      ≡ (if n == name then f (commands m name) else commands m name)
at_name n name m f = elim (Bool-cases (n == name)) [
  | inl y ↦ rw (y, if◌then◌else◌) (ap (λ i. f (commands m i)) ((same_text_iff n name).0 y))
  | inr d ↦ rw (d, if◌then◌else◌) refl
]
