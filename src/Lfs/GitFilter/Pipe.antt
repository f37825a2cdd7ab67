-- ===== src/Lfs/GitFilter/Pipe.antt =====
-- lfs/extension.go: the programs of the extensions, of which each reads what the one before writes. A
-- program writes nothing before all are started and its input is there.
use git_lfs.Prelude.{
  Bool, true, false, ◌&&◌, Option, none, some, List, [], ◌∷◌, ◌++◌, Text, map, eqb, text_comparable,
  if◌then◌else◌,
}
use git_lfs.Strings.{split}
use git_lfs.Config.{Extension}
use git_lfs.Lfs.GitFilter.{Filtered, failed, done, extension_failed, crashed}

pub record PipeExtResult : Type 0 where
  pub name : Text
  pub oid_in : Text
  pub oid_out : Text

-- `strings.Replace(value, "%f", file_name, -1)`
unfoldable pub replace_file : Text → Text → Text
replace_file file_name [] = []
replace_file file_name (c ∷ []) = c ∷ []
replace_file file_name (c ∷ d ∷ s) =
    let behind = replace_file file_name s in
    let next = replace_file file_name (d ∷ s) in
    if eqb c b'%' && eqb d b'f' then file_name ++ behind else c ∷ next

-- The program and its arguments. The first piece has no space that `Trim` could remove.
unfoldable pub command_line : Text → Text → List Text
unfolding split replace_file
command_line command file_name = elim (split b' ' command) [
  | [] ↦ []
  | name ∷ args ↦ name ∷ map (replace_file file_name) args
]

pub data Action : Type 0 where
  clean_action smudge_action : Action

abbrev pub action_command : Action → Extension → Text
action_command clean_action e = e.clean
action_command smudge_action e = e.smudge

-- The name of an extension that fails is in its error, but for the last.
abbrev pub failure_name : Text → List Extension → Option Text
failure_name name [] = none
failure_name name (e ∷ es) = some name

-- Whether the next program is not the last. Its input is then replaced by the pipe `stdout` of this
-- one, into which nothing is written, and its own pipe is closed.
abbrev pub next_is_cut_off : List Extension → Bool
next_is_cut_off (next ∷ after ∷ es) = true
next_is_cut_off _ = false

abbrev pub is_written : Text → Bool
is_written [] = false
is_written (c ∷ s) = true

module _ (sha256_hex : Text → Text) (run : List Text → Text → Option Text) where
  abbrev pub with_result :
      Text
      → Text
      → Text
      → Filtered (Text × List PipeExtResult)
      → Filtered (Text × List PipeExtResult)
  with_result name input output (failed e) = failed e
  with_result name input output (done (file, results)) = done (
    file,
    record { name = name; oid_in = sha256_hex input; oid_out = sha256_hex output } ∷ results,
  )

  -- The programs from one on, with what is read.
  unfoldable pub pipe_from :
      Action → Text → List Extension → Text → Filtered (Text × List PipeExtResult)
  unfolding command_line
  pipe_from action file_name [] input = done (input, [])
  pipe_from action file_name (e ∷ es) input =
      elim (run (command_line (action_command action e) file_name) input) [
        | none ↦ failed (extension_failed (failure_name e.name es))
        | some output ↦
            let rest = pipe_from action file_name es output in
            if next_is_cut_off es && is_written output
            then failed (extension_failed (some e.name))
            else with_result e.name input output rest
      ]

  -- `pipeExtensions`: without extensions, the first one is looked for past the end of the list.
  unfoldable pub pipe_extensions :
      Action → Text → List Extension → Text → Filtered (Text × List PipeExtResult)
  unfolding pipe_from
  pipe_extensions action file_name [] input = failed crashed
  pipe_extensions action file_name (e ∷ es) input = pipe_from action file_name (e ∷ es) input
