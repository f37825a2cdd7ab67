-- ===== src/Config/Restricting.antt =====
-- What the lines of a source of safe keys do to the commands of the extensions, in `readGitConfig` of
-- config/git_fetcher.go.
use git_lfs.Prelude.{
  ◌≡◌, refl, ap, ◌∙◌, Bool, true, false, ◌&&◌, Option, none, some, inl, inr, Bool-cases, List, [],
  ◌∷◌, Text, codes, text_comparable, ◌==◌, if◌then◌else◌,
}
use git_lfs.Prelude.Dict
use git_lfs.Prelude.Dict.{Dict}
use git_lfs.Strings.{split, parse_int}
use git_lfs.Config.{
  Reading, Setting, Extension, extension_prop, remote_setting, access_setting, other_setting,
  setting_of, is_refused_remote, ignore, store, keep_extension, read_extension, read_setting,
  key_value, read_line, read_lines, extension_named, priority_of, join, middle,
}
use git_lfs.Config.Commands.{
  commands, store_extensions, named_commands, set_commands, named_name, kept_commands, at_name,
}

module _ (k val n : Text) (r : Reading) (name : Text) where
  abbrev now : Text × Text
  now = commands r.extensions name

  abbrev ext_now : Extension
  ext_now = extension_named r.extensions n

  set_to :
      (allowed : Bool) (ext : Extension) (f : Text × Text → Text × Text)
      → ext.name ≡ n
      → (ext.clean, ext.smudge) ≡ f (ext_now.clean, ext_now.smudge)
      → commands (store allowed k val (keep_extension ext r)).extensions name
        ≡ (if n == name then f now else now)
  set_to allowed ext f same e =
      kept_commands allowed k val n name ext r same
      ∙ ap (λ c. if n == name then c else now) (e ∙ ap f (named_commands r.extensions n))
      ∙ at_name n name r.extensions f

  commands-read_extension :
      (prop : Text)
      → commands (read_extension false k val n prop r).extensions name
        ≡ set_commands val (extension_prop n prop) name now
  unfolding read_extension
  commands-read_extension prop =
      chosen (prop == codes "clean") (prop == codes "smudge") (prop == codes "priority")
    where
      chosen :
          (c s p : Bool)
          → commands
              (if c
                then store true k val (keep_extension (record ext_now { clean = val }) r)
                else if s
                then store true k val (keep_extension (record ext_now { smudge = val }) r)
                else if p
                then store true k val (
                    keep_extension
                      (record ext_now { priority = priority_of ext_now.priority (parse_int val) })
                      r)
                else store true k val (keep_extension ext_now r)).extensions
              name
            ≡ (if n == name
                then if c then (val, now.1) else if s then (now.0, val) else now
                else now)
      chosen true s p =
          set_to true (record ext_now { clean = val }) (λ cs. (val, cs.1))
            (named_name r.extensions n) refl
      chosen false true p =
          set_to true (record ext_now { smudge = val }) (λ cs. (cs.0, val))
            (named_name r.extensions n) refl
      chosen false false true =
          set_to true (record ext_now { priority = _ }) (λ cs. cs) (named_name r.extensions n) refl
      chosen false false false = set_to true ext_now (λ cs. cs) (named_name r.extensions n) refl

  same_branches : (b : Bool) → (if b then now else now) ≡ now
  same_branches true = refl
  same_branches false = refl

  restricted_extension_commands :
      (prop : Text) → commands (read_extension true k val n prop r).extensions name ≡ now
  unfolding read_extension ignore
  restricted_extension_commands prop =
      chosen (prop == codes "clean") (prop == codes "smudge") (prop == codes "priority")
    where
      chosen :
          (c s p : Bool)
          → commands
              (if c
                then ignore k r
                else if s
                then ignore k r
                else if p
                then store true k val (
                    keep_extension
                      (record ext_now { priority = priority_of ext_now.priority (parse_int val) })
                      r)
                else store false k val (keep_extension ext_now r)).extensions
              name
            ≡ now
      chosen true s p = refl
      chosen false true p = refl
      chosen false false true =
          set_to true (record ext_now { priority = _ }) (λ cs. cs) (named_name r.extensions n) refl
          ∙ same_branches (n == name)
      chosen false false false =
          set_to false ext_now (λ cs. cs) (named_name r.extensions n) refl
          ∙ same_branches (n == name)

  abbrev with_remote : List Text → Reading
  with_remote parts = record r {
    uniq_remotes =
        Dict.insert (join (middle parts)) (join (middle parts) == codes "origin") r.uniq_remotes;
  }

  remote_commands :
      (o : Bool) (parts : List Text)
      → commands (read_setting o k val (remote_setting parts) r).extensions name ≡ now
  unfolding read_setting ignore
  remote_commands o parts = elim (Bool-cases (o && is_refused_remote parts)) [
    | inl y ↦ rw (y, if◌then◌else◌) refl
    | inr d ↦
        rw (d, if◌then◌else◌)
          (ap (λ m. commands m name) (store_extensions true k val (with_remote parts)))
  ]

pub commands-read_setting :
    (k val : Text) (setting : Setting) (r : Reading) (name : Text)
    → commands (read_setting false k val setting r).extensions name
      ≡ set_commands val setting name (commands r.extensions name)
unfolding read_setting
commands-read_setting k val (extension_prop n prop) r name =
    commands-read_extension k val n r name prop
commands-read_setting k val (remote_setting parts) r name =
    remote_commands k val [] r name false parts
commands-read_setting k val access_setting r name =
    ap (λ m. commands m name) (store_extensions true k val r)
commands-read_setting k val other_setting r name =
    ap (λ m. commands m name) (store_extensions true k val r)

restricted_setting_commands :
    (k val : Text) (setting : Setting) (r : Reading) (name : Text)
    → commands (read_setting true k val setting r).extensions name ≡ commands r.extensions name
unfolding read_setting
restricted_setting_commands k val (extension_prop n prop) r name =
    restricted_extension_commands k val n r name prop
restricted_setting_commands k val (remote_setting parts) r name =
    remote_commands k val [] r name true parts
restricted_setting_commands k val access_setting r name =
    ap (λ m. commands m name) (store_extensions true k val r)
restricted_setting_commands k val other_setting r name =
    ap (λ m. commands m name) (store_extensions false k val r)

restricted_line_commands :
    (r : Reading) (line name : Text)
    → commands (read_line true r line).extensions name ≡ commands r.extensions name
unfolding read_line
restricted_line_commands r line name = by_parts (key_value line)
  where
    by_parts :
        (kv : Option (Text × Text))
        → commands
            (elim kv as (λ _. Reading) [
              | none ↦ r
              | some (k, val) ↦ read_setting true k val (setting_of (split b'.' k)) r
            ]).extensions
            name
          ≡ commands r.extensions name
    by_parts none = refl
    by_parts (some (k, val)) = restricted_setting_commands k val (setting_of (split b'.' k)) r name

pub restricted_lines_commands :
    (r : Reading) (lines : List Text) (name : Text)
    → commands (read_lines true r lines).extensions name ≡ commands r.extensions name
unfolding read_lines
restricted_lines_commands r [] name = refl
restricted_lines_commands r (line ∷ lines) name =
    restricted_lines_commands (read_line true r line) lines name
    ∙ restricted_line_commands r line name
