-- ===== src/Config/Extensions.antt =====
-- The commands of the extensions that `readGitConfig` of config/git_fetcher.go reads.
use mathlib.Core.Path.{subst}
use git_lfs.Prelude.{
  ◌≡◌, refl, sym, ap, ◌∙◌, Bool, true, false, Option, none, some, List, [], ◌∷◌, Text,
  text_comparable, if◌then◌else◌,
}
use git_lfs.Strings.{split}
use git_lfs.Config.{
  ConfigurationSource, Reading, setting_of, read_setting, key_value, read_line, read_lines,
  read_sources, read_git_config, nothing_read,
}
use git_lfs.Config.Commands.{commands}
use git_lfs.Config.Commands.{unrestricted, AreSame, set_commands}
use git_lfs.Config.Restricting.{commands-read_setting, restricted_lines_commands}

line-AreSame :
    (r s : Reading) (line : Text)
    → AreSame r.extensions s.extensions
    → AreSame (read_line false r line).extensions (read_line false s line).extensions
unfolding read_line
line-AreSame r s line same name = by_parts (key_value line)
  where
    by_parts :
        (kv : Option (Text × Text))
        → commands
            (elim kv as (λ _. Reading) [
              | none ↦ r
              | some (k, val) ↦ read_setting false k val (setting_of (split b'.' k)) r
            ]).extensions
            name
          ≡ commands
              (elim kv as (λ _. Reading) [
                | none ↦ s
                | some (k, val) ↦ read_setting false k val (setting_of (split b'.' k)) s
              ]).extensions
              name
    by_parts none = same name
    by_parts (some (k, val)) =
        commands-read_setting k val (setting_of (split b'.' k)) r name
        ∙ ap (set_commands val (setting_of (split b'.' k)) name) (same name)
        ∙ sym (commands-read_setting k val (setting_of (split b'.' k)) s name)

lines-AreSame :
    (r s : Reading) (lines : List Text)
    → AreSame r.extensions s.extensions
    → AreSame (read_lines false r lines).extensions (read_lines false s lines).extensions
unfolding read_lines
lines-AreSame r s [] same = same
lines-AreSame r s (line ∷ lines) same =
    lines-AreSame (read_line false r line) (read_line false s line) lines
      (line-AreSame r s line same)

-- One source more, for sources that agree however the reading goes on.
source-AreSame :
    (r s : Reading) (gc : ConfigurationSource) (configs : List ConfigurationSource) (b : Bool)
    → gc.only_safe_keys ≡ b
    → ((t u : Reading)
        → AreSame t.extensions u.extensions
        → AreSame
            (read_sources t configs).extensions
            (read_sources u (unrestricted configs)).extensions)
    → AreSame r.extensions s.extensions
    → AreSame
        (read_sources (read_lines b r gc.lines) configs).extensions
        (read_sources s (if b then unrestricted configs else gc ∷ unrestricted configs)).extensions
unfolding read_sources
source-AreSame r s gc configs true e onwards same =
    onwards (read_lines true r gc.lines) s
      (λ name. restricted_lines_commands r gc.lines name ∙ same name)
source-AreSame r s gc configs false e onwards same =
    subst
      (λ b.
        AreSame (read_sources (read_lines false r gc.lines) configs).extensions
          (read_sources (read_lines b s gc.lines) (unrestricted configs)).extensions)
      (sym e)
      (onwards (read_lines false r gc.lines) (read_lines false s gc.lines)
        (lines-AreSame r s gc.lines same))

sources-AreSame :
    (r s : Reading) (configs : List ConfigurationSource)
    → AreSame r.extensions s.extensions
    → AreSame (read_sources r configs).extensions (read_sources s (unrestricted configs)).extensions
unfolding read_sources unrestricted
sources-AreSame r s [] same = same
sources-AreSame r s (gc ∷ configs) same =
    source-AreSame r s gc configs gc.only_safe_keys refl (λ t u h. sources-AreSame t u configs h)
      same

-- The clean and smudge commands of every extension are those that the sources without a restriction
-- to safe keys set: a source of safe keys alone sets no command and clears none.
pub read_git_config-commands :
    (configs : List ConfigurationSource) (name : Text)
    → commands (read_git_config configs).extensions name
      ≡ commands (read_git_config (unrestricted configs)).extensions name
unfolding read_git_config
read_git_config-commands configs = sources-AreSame nothing_read nothing_read configs (λ name. refl)
