-- ===== src/Creds/Tests.antt =====
-- The credential helpers of creds/ at concrete credentials.
use git_lfs.Prelude.{
  ℕ, ◌≡◌, refl, false, List, [], ◌∷◌, All, Uniq, codes, text_comparable, number_comparable, elem,
  arith,
}
use git_lfs.Prelude.Dict.Laws.{keys}
use git_lfs.Creds.{
  Creds, Helper, credential_cacher, command_helper, Memory, ran, exit_error, buffer_creds,
  parse_output,
}
use git_lfs.Creds.Chain.{fill, approve}
use git_lfs.Creds.Buffer.{IsLine, parse_output-buffer_creds}
use git_lfs.Creds.Approval.{LeavesUncached, approve-LeavesUncached}
use git_lfs.Creds.Filling.{first_found, answers_from, fill-first_found}

abbrev login : Creds
login = (codes "u", codes "p") ∷ (codes "w", codes "q") ∷ []

login-IsLine : All IsLine login
login-IsLine = (
  ((ground arith, tt), (ground arith, tt), (ground arith, tt), λ e. cc),
  (((ground arith, tt), (ground arith, tt), (ground arith, tt), λ e. cc), tt),
)

login-Uniq : Uniq (keys login)
unfolding elem
login-Uniq = (refl, (refl, tt))

parse_output-buffer_creds_example : parse_output (buffer_creds login) ≡ login
parse_output-buffer_creds_example = parse_output-buffer_creds login login-IsLine login-Uniq

abbrev git_fails : Helper
git_fails = command_helper false (λ subcommand input. exit_error 1)

abbrev git_answers : Helper
git_answers = command_helper false (λ subcommand input. ran (codes "username=u"))

abbrev memory : Memory
memory = record { cached = []; skipped_hosts = [] }

nothing_skipped : elem {A = ℕ} 0 [] ≡ false
unfolding elem
nothing_skipped = refl

approve-LeavesUncached_example :
    LeavesUncached login (approve (credential_cacher ∷ git_fails ∷ []) memory [] login)
approve-LeavesUncached_example =
    approve-LeavesUncached (git_fails ∷ []) memory [] login nothing_skipped

fill-first_found_example :
    fill (credential_cacher ∷ git_fails ∷ git_answers ∷ []) memory [] login
    ≡ first_found [] []
        (answers_from 0 (credential_cacher ∷ git_fails ∷ git_answers ∷ []) memory [] login)
fill-first_found_example =
    fill-first_found (credential_cacher ∷ git_fails ∷ git_answers ∷ []) memory [] login

abbrev filled_by : List ℕ
filled_by = (fill (credential_cacher ∷ git_fails ∷ git_answers ∷ []) memory [] login).0
