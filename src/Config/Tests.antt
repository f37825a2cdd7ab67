-- ===== src/Config/Tests.antt =====
-- The configuration of config/ at concrete lines.
use mathlib.Core.List.{Permᴰ}
use git_lfs.Prelude.{◌≡◌, refl, true, false, none, List, [], ◌∷◌, Text, codes, text_comparable}
use git_lfs.Config.{ConfigurationSource, values_of, read_git_config}
use git_lfs.Config.Values.{current_remote}
use git_lfs.Config.Sources.{given_by, read_git_config-given_by}
use git_lfs.Config.Commands.{commands, unrestricted}
use git_lfs.Config.Extensions.{read_git_config-commands}
use git_lfs.Config.Urls.{Url, no_match, best_match}
use git_lfs.Config.Urls.Order.{scores, best_match-perm}

abbrev lfsconfig : ConfigurationSource
lfsconfig = record {
  lines =
      codes "lfs.url=https://a/b"
      ∷ codes "lfs.extension.x.clean=rm"
      ∷ codes "lfs.extension.x.priority=3"
      ∷ codes "remote.origin.url=c"
      ∷ codes "remote.my.fork.url=d"
      ∷ [];
  only_safe_keys = true;
}

abbrev gitconfig : ConfigurationSource
gitconfig = record {
  lines = codes "remote.up.url=e" ∷ codes "lfs.url=https://f" ∷ [];
  only_safe_keys = false;
}

read_git_config-given_by_example :
    values_of (read_git_config (lfsconfig ∷ gitconfig ∷ [])).vals (codes "lfs.url")
    ≡ given_by (codes "lfs.url") (lfsconfig ∷ gitconfig ∷ [])
read_git_config-given_by_example =
    read_git_config-given_by (lfsconfig ∷ gitconfig ∷ []) (codes "lfs.url")

read_git_config-commands_example :
    commands (read_git_config (lfsconfig ∷ gitconfig ∷ [])).extensions (codes "x")
    ≡ commands (read_git_config (unrestricted (lfsconfig ∷ gitconfig ∷ []))).extensions (codes "x")
read_git_config-commands_example = read_git_config-commands (lfsconfig ∷ gitconfig ∷ []) (codes "x")

abbrev searched : Url
searched = record {
  scheme = codes "https";
  hostname = codes "git.example.com";
  port = [];
  path = codes "/a/b.git/info/lfs";
  user = none;
}

abbrev wild : Text × Url
wild = (
  codes "http.https://*.example.com.proxy",
  record searched { hostname = codes "*.example.com"; path = [] },
)

abbrev exact : Text × Url
exact = (codes "http.https://git.example.com/a/b.proxy", record searched { path = codes "/a/b" })

best_match-perm_example :
    scores (best_match searched no_match (wild ∷ exact ∷ []))
    ≡ scores (best_match searched no_match (exact ∷ wild ∷ []))
best_match-perm_example =
    best_match-perm searched no_match (wild ∷ exact ∷ []) (exact ∷ wild ∷ []) (Permᴰ.swap refl refl)

abbrev chosen : Text
chosen = (best_match searched no_match (wild ∷ exact ∷ [])).key

abbrev ignored : List Text
ignored = (read_git_config (lfsconfig ∷ [])).ignored

abbrev remote_with : List Text → Text
remote_with lines =
    current_remote (read_git_config (record { lines = lines; only_safe_keys = false } ∷ [])) []

abbrev one_remote : Text
one_remote = remote_with (codes "remote.up.url=e" ∷ [])

-- A default for pushes counts as a remote.
abbrev two_remotes : Text
two_remotes = remote_with (codes "remote.up.url=e" ∷ codes "remote.pushdefault=up" ∷ [])
