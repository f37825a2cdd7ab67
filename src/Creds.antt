-- ===== src/Creds.antt =====
-- The credential helpers of creds/creds.go and creds/netrc.go. What a .netrc file, an askpass program
-- and `git credential` answer are arguments of the helpers; the mutexes are not modelled. A nil map of
-- credentials is told from an empty one. `cred_no_op` is the error that stands for "ask the next".
pub mod Buffer
pub mod Chain
pub mod Approval
pub mod Filling
mod Tests
use git_lfs.Prelude.{
  ℕ, zero, suc, ◌+◌, Bool, true, false, not, ◌&&◌, Option, none, some, List, [], ◌∷◌, ◌++◌, Text,
  codes, text_comparable, number_comparable, ◌==◌, eqb, ltb, elem, length, if◌then◌else◌,
}
use git_lfs.Prelude.Dict
use git_lfs.Prelude.Dict.{Dict}
use git_lfs.Strings.{split_first, split, contains_text}

abbrev pub Creds : Type 0
Creds = Dict Text Text

-- `creds[key]`, empty for a key that is missing.
unfoldable pub field_of : Creds → Text → Text
field_of creds key = elim (Dict.lookup key creds) [ none ↦ [] | some v ↦ v ]

-- `bufferCreds`, in the order in which the map is visited.
unfoldable pub buffer_creds : Creds → Text
buffer_creds [] = []
buffer_creds ((k, v) ∷ c) = k ++ b'=' ∷ v ++ 10 ∷ buffer_creds c

-- The key and the value of a line, if it has both and the value is not empty.
unfoldable pub cred_of_line : Text → Option (Text × Text)
cred_of_line line = elim (split_first b'=' line) [ none ↦ none | some (k, v) ↦ filled k v ]
  where
    filled : Text → Text → Option (Text × Text)
    filled k [] = none
    filled k (c ∷ v) = some (k, c ∷ v)

unfoldable pub add_lines : Creds → List Text → Creds
unfolding cred_of_line
add_lines creds [] = creds
add_lines creds (line ∷ lines) = elim (cred_of_line line) [
  | none ↦ add_lines creds lines
  | some (k, v) ↦ add_lines (Dict.insert k v creds) lines
]

-- What `exec` reads of the output of `git credential`.
unfoldable pub parse_output : Text → Creds
unfolding add_lines
parse_output output = add_lines [] (split 10 output)

pub data CredError : Type 0 where
  cred_no_op : CredError
  failed : Text → CredError

-- How a run of `git credential` ends.
pub data GitRun : Type 0 where
  ran : (output : Text) → GitRun
  exit_error : (status : ℕ) → GitRun
  other_error : (message : Text) → GitRun

-- The helpers, with what they ask: a .netrc file for the login and the password of a host and a
-- user, a program for a user name or, knowing that name, for a password, and git.
pub data Helper : Type 0 where
  netrc_helper : (find_machine : (host user : Text) → Option (Text × Text)) → Helper
  credential_cacher : Helper
  ask_pass_helper :
      (username : Creds → Option Text) → (password : Creds → Text → Option Text) → Helper
  command_helper : (skip_prompt : Bool) → (git : (subcommand input : Text) → GitRun) → Helper

-- What the helpers remember: the cached credentials and the hosts that are skipped.
pub record Memory : Type 0 where
  pub cached : Dict Text Creds
  pub skipped_hosts : Dict Text Bool

-- `credCacheKey`
unfoldable pub cred_cache_key : Creds → Text
unfolding field_of
cred_cache_key creds =
    field_of creds (codes "protocol")
    ++ codes "//"
    ++ field_of creds (codes "host")
    ++ codes "//"
    ++ field_of creds (codes "path")

-- The host of one with a port, by `net.SplitHostPort` for a host that is not in brackets.
unfoldable pub netrc_hostname : Text → Option Text
netrc_hostname host =
    if contains_text (codes ":") host
    then elim (split_first b':' host) [
      | none ↦ none
      | some (name, port) ↦ if contains_text (codes ":") port then none else some name
    ]
    else some host

abbrev pub Filled : Type 0
Filled = Option Creds × Option CredError

unfoldable pub fill_netrc : ((host user : Text) → Option (Text × Text)) → Memory → Creds → Filled
unfolding netrc_hostname field_of
fill_netrc find_machine memory what = elim (netrc_hostname (field_of what (codes "host"))) [
  | none ↦ (none, some cred_no_op)
  | some host ↦ elim (Dict.lookup host memory.skipped_hosts) [
    | some true ↦ (none, some cred_no_op)
    | some false ↦ machine host
    | none ↦ machine host
  ]
]
  where
    creds_for : Option (Text × Text) → Filled
    creds_for none = (none, some cred_no_op)
    creds_for (some (login, password)) = (
      some (
          (codes "username", login)
          ∷ (codes "password", password)
          ∷ (codes "protocol", field_of what (codes "protocol"))
          ∷ (codes "host", field_of what (codes "host"))
          ∷ (codes "scheme", field_of what (codes "scheme"))
          ∷ (codes "path", field_of what (codes "path"))
          ∷ (codes "source", codes "netrc")
          ∷ []),
      none,
    )

    machine : Text → Filled
    machine host = creds_for (find_machine host (field_of what (codes "username")))

-- `Approve` and `Reject` of the .netrc helper: whether the host is to be skipped from now on.
unfoldable pub mark_netrc : (skip : Bool) → Memory → Creds → Memory × Option CredError
unfolding netrc_hostname field_of
mark_netrc skip memory what =
    if field_of what (codes "source") == codes "netrc"
    then elim (netrc_hostname (field_of what (codes "host"))) [
      | none ↦ (memory, some cred_no_op)
      | some host ↦
          (record memory { skipped_hosts = Dict.insert host skip memory.skipped_hosts }, none)
    ]
    else (memory, some cred_no_op)

unfoldable pub fill_cached : Memory → Creds → Filled
unfolding cred_cache_key
fill_cached memory what = elim (Dict.lookup (cred_cache_key what) memory.cached) [
  | none ↦ (none, some cred_no_op)
  | some creds ↦ (some creds, none)
]

unfoldable pub approve_cached : Memory → Creds → Memory × Option CredError
unfolding cred_cache_key
approve_cached memory what = elim (Dict.lookup (cred_cache_key what) memory.cached) [
  | some creds ↦ (memory, none)
  | none ↦ (
    record memory { cached = Dict.insert (cred_cache_key what) what memory.cached },
    some cred_no_op,
  )
]

unfoldable pub reject_cached : Memory → Creds → Memory × Option CredError
unfolding cred_cache_key
reject_cached memory what =
    (record memory { cached = Dict.delete (cred_cache_key what) memory.cached }, some cred_no_op)

-- A value that is given, or else asked for.
unfoldable pub given_or : Option Text → Option Text → Option Text
given_or (some given) asked = some given
given_or none asked = asked

unfoldable pub fill_ask_pass : (Creds → Option Text) → (Creds → Text → Option Text) → Creds → Filled
unfolding given_or
fill_ask_pass username password what =
    elim (given_or (Dict.lookup (codes "username") what) (username what)) [
      | none ↦ (none, some (failed (codes "askpass")))
      | some user ↦ elim (given_or (Dict.lookup (codes "password") what) (password what user)) [
        | none ↦ (none, some (failed (codes "askpass")))
        | some pass ↦ (some ((codes "username", user) ∷ (codes "password", pass) ∷ []), none)
      ]
    ]

-- `exec` of the command helper; the messages of the errors are shortened.
unfoldable pub exec : (skip_prompt : Bool) → (subcommand : Text) → GitRun → Filled
unfolding parse_output
exec skip_prompt subcommand (ran output) = (some (parse_output output), none)
exec skip_prompt subcommand (other_error message) = (none, some (failed message))
exec skip_prompt subcommand (exit_error status) =
    if skip_prompt
    then (none, some (failed (codes "GIT_TERMINAL_PROMPT")))
    else if subcommand == codes "fill" && eqb status 128
    then (none, none)
    else (none, some (failed (codes "exit status")))

unfoldable pub helper_fill : Helper → Memory → Creds → Filled
unfolding fill_netrc fill_cached fill_ask_pass exec buffer_creds
helper_fill (netrc_helper find) memory what = fill_netrc find memory what
helper_fill credential_cacher memory what = fill_cached memory what
helper_fill (ask_pass_helper username password) memory what = fill_ask_pass username password what
helper_fill (command_helper skip_prompt git) memory what =
    exec skip_prompt (codes "fill") (git (codes "fill") (buffer_creds what))

unfoldable pub helper_approve : Helper → Memory → Creds → Memory × Option CredError
unfolding mark_netrc approve_cached exec buffer_creds
helper_approve (netrc_helper find) memory what = mark_netrc false memory what
helper_approve credential_cacher memory what = approve_cached memory what
helper_approve (ask_pass_helper username password) memory what = (memory, none)
helper_approve (command_helper skip_prompt git) memory what =
    (memory, (exec skip_prompt (codes "approve") (git (codes "approve") (buffer_creds what))).1)

unfoldable pub helper_reject : Helper → Memory → Creds → Memory × Option CredError
unfolding mark_netrc reject_cached exec buffer_creds
helper_reject (netrc_helper find) memory what = mark_netrc true memory what
helper_reject credential_cacher memory what = reject_cached memory what
helper_reject (ask_pass_helper username password) memory what = (memory, none)
helper_reject (command_helper skip_prompt git) memory what =
    (memory, (exec skip_prompt (codes "reject") (git (codes "reject") (buffer_creds what))).1)
