-- ===== src/Shell/Builtin.antt =====
-- shell/builtin.c, shell/runcmd.c, shell/printstatus.c: one line of input, from the shell's side.
use sis_ops.Common.{
  ℕ, zero, suc, List, [], ◌∷◌, ◌++◌, Option, some, none, Bool, false, if◌then◌else◌, ◌==◌, ℤ, pos,
  negsuc, length, take, str_eq,
}
use sis_ops.Shell.{space, Cmd, null, execcmd, backcmd, pipecmd}
use sis_ops.Shell.Text.{split_line}
use sis_ops.Shell.Parsing.{Vars, parse_line}

abbrev prmtlen : ℕ
prmtlen = 1024

-- `exit_shell`, `cd` and `pwd` by the names of the built-in commands.
abbrev pub exit_name : List ℕ
exit_name = b'e' ∷ b'x' ∷ b'i' ∷ b't' ∷ []

abbrev cd_name : List ℕ
cd_name = b'c' ∷ b'd' ∷ []

abbrev pwd_name : List ℕ
pwd_name = b'p' ∷ b'w' ∷ b'd' ∷ []

-- How a child has ended, as the macros of `sys/wait.h` tell it.
pub data WaitStatus : Type 0 where
  exited signaled stopped : ℕ → WaitStatus

-- The system's part: the directories, with what `chdir` and `getcwd` answer in one, and the number
-- that `waitpid` stores.
pub record Host : Type 0 where
  pub home : Option (List ℕ)
  pub chdir : List ℕ → List ℕ → Option (List ℕ)
  pub getcwd : List ℕ → Option (List ℕ)
  pub raw : WaitStatus → ℤ

-- `dir` is the directory of the process.
pub record Session : Type 0 where
  pub prompt : List ℕ
  pub dir : List ℕ
  pub status : ℤ

unfoldable pub exit_shell : List ℕ → Bool
exit_shell cmd = str_eq cmd exit_name

-- `snprintf(prompt, PRMTLEN, "(%s)", arg)`; a null `arg` is printed as `(null)`.
set_prompt : Option (List ℕ) → List ℕ
set_prompt cwd =
    let shown : List ℕ = elim cwd [
      | some d ↦ d
      | none ↦ b'(' ∷ b'n' ∷ b'u' ∷ b'l' ∷ b'l' ∷ b')' ∷ []
    ] in
    take 1023 (b'(' ∷ (shown ++ (b')' ∷ [])))

-- The directory that `cd` is asked for: `$HOME` without an argument.
abbrev cd_target : Host → List ℕ → Option (List ℕ)
cd_target host [] = host.home
cd_target host (c ∷ r) = some (c ∷ r)

-- `none` if the line is no `cd`.
unfoldable pub cd : Host → Session → List ℕ → Option Session
unfolding set_prompt
cd host s cmd =
    let parts = split_line cmd space in
    if str_eq parts.0 cd_name
    then some (elim (cd_target host parts.1) [
      | none ↦ s
      | some name ↦ elim (host.chdir s.dir name) [
        | none ↦ s
        | some dir ↦ record s { dir = dir; prompt = set_prompt (host.getcwd dir) }
      ]
    ])
    else none

-- What `pwd` prints; `none` if the line is no `pwd`, or there is no directory to print.
pwd : Host → Session → List ℕ → Option (List ℕ)
pwd host s cmd = if str_eq cmd pwd_name then host.getcwd s.dir else none

unfoldable pub history : List ℕ → Bool
history cmd = false

-- The status that is left when a command has been waited for.
unfoldable pub print_status_info : Host → Cmd → WaitStatus → ℤ
print_status_info host null w = host.raw w
print_status_info host (pipecmd l r) w = host.raw w
print_status_info host (backcmd scmd c) w = host.raw w
print_status_info host (execcmd e) w = if length e.scmd == 0 then host.raw w else elim w [
  | exited n ↦ pos n
  | signaled n ↦ elim n [ zero ↦ pos 0 | suc k ↦ negsuc k ]
  | stopped n ↦ elim n [ zero ↦ pos 0 | suc k ↦ negsuc k ]
]

-- What a line makes the shell do. A command that is null is read through.
pub data Outcome : Type 0 where
  nothing : Outcome
  leaves : Outcome
  prints : List ℕ → Outcome
  runs : Cmd → Outcome
  overflows : Outcome
  crashes : Outcome

-- The status when the command has been started: a command in the background is not waited for, and
-- another child may be ready to be reaped.
unfoldable pub after_run : Host → Cmd → WaitStatus → Option WaitStatus → ℤ → ℤ
unfolding print_status_info
after_run host cmd ended reaped status = elim reaped [
  | some w ↦ host.raw w
  | none ↦ elim cmd [
    | null ↦ status
    | backcmd scmd c ↦ status
    | execcmd e ↦ print_status_info host (execcmd e) ended
    | pipecmd l r ↦ print_status_info host (pipecmd l r) ended
  ]
]

unfoldable pub run_parsed :
    Host → Session → WaitStatus → Option WaitStatus → Option Cmd → Outcome × Session
unfolding after_run
run_parsed host s ended reaped none = (overflows, s)
run_parsed host s ended reaped (some null) = (crashes, s)
run_parsed host s ended reaped (some c) =
    (runs c, record s { status = after_run host c ended reaped s.status })

abbrev pub vars_of : (List ℕ → Option (List ℕ)) → Session → Vars
vars_of getenv s = record { status = s.status; getenv = getenv }

-- `run_cmd`; `ended` is how the command ends and `reaped` what the last `waitpid` finds.
unfoldable pub run_cmd :
    Host
    → (List ℕ → Option (List ℕ))
    → WaitStatus
    → Option WaitStatus
    → Session
    → List ℕ
    → Outcome × Session
unfolding exit_shell cd pwd history run_parsed
run_cmd host getenv ended reaped s [] = (nothing, s)
run_cmd host getenv ended reaped s (c ∷ r) =
    if history (c ∷ r) then (nothing, s) else elim (cd host s (c ∷ r)) [
      | some s' ↦ (nothing, s')
      | none ↦ if exit_shell (c ∷ r) then (leaves, s) else elim (pwd host s (c ∷ r)) [
        | some d ↦ (prints d, s)
        | none ↦ run_parsed host s ended reaped (parse_line (vars_of getenv s) (c ∷ r))
      ]
    ]
