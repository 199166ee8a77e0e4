-- ===== src/Shell/Session.antt =====
-- Which lines leave the shell, and what `$?` is afterwards.
use sis_ops.Common.{
  ℕ, ◌+◌, ◌<◌, ◌%◌, ◌≡◌, ◌≢◌, ◌↔◌, refl, ◌∙◌, List, [], ◌∷◌, Option, some, none, true, arith, ℤ,
  pos, length, str_eq, str_eq→eq,
}
use sis_ops.Shell.{ExecCmd, Cmd, null, execcmd, backcmd, pipecmd}
use sis_ops.Shell.Text.{split_line}
use sis_ops.Shell.Parsing.{Vars, parse_line, expand_environ_var, status_char}
use sis_ops.Shell.Builtin.{
  exit_name, WaitStatus, exited, Host, Session, exit_shell, cd, history, print_status_info, leaves,
  runs, after_run, run_parsed, vars_of, run_cmd,
}

run_parsed-leaves :
    (host : Host) (s : Session) (ended : WaitStatus) (reaped : Option WaitStatus) (c : Option Cmd)
    → (run_parsed host s ended reaped c).0 ≢ leaves
unfolding run_parsed
run_parsed-leaves host s ended reaped none = λ e. cc
run_parsed-leaves host s ended reaped (some null) = λ e. cc
run_parsed-leaves host s ended reaped (some (execcmd x)) = λ e. cc
run_parsed-leaves host s ended reaped (some (backcmd x y)) = λ e. cc
run_parsed-leaves host s ended reaped (some (pipecmd x y)) = λ e. cc

cd-exit : (host : Host) (s : Session) → cd host s exit_name ≡ none
unfolding cd split_line str_eq
cd-exit host s = refl

exit_shell-eq : (cmd : List ℕ) → exit_shell cmd ≡ true → cmd ≡ exit_name
unfolding exit_shell
exit_shell-eq cmd h = str_eq→eq cmd exit_name h

leaves-only :
    (host : Host) (getenv : List ℕ → Option (List ℕ)) (ended : WaitStatus)
    (reaped : Option WaitStatus) (s : Session) (cmd : List ℕ)
    → (run_cmd host getenv ended reaped s cmd).0 ≡ leaves
    → exit_shell cmd ≡ true
unfolding run_cmd
leaves-only host getenv ended reaped s [] h = cc
leaves-only host getenv ended reaped s (c ∷ r) h =
    let no = run_parsed-leaves host s ended reaped (parse_line (vars_of getenv s) (c ∷ r)) in
    ground arith

leaves-exit :
    (host : Host) (getenv : List ℕ → Option (List ℕ)) (ended : WaitStatus)
    (reaped : Option WaitStatus) (s : Session)
    → (run_cmd host getenv ended reaped s exit_name).0 ≡ leaves
unfolding run_cmd history exit_shell str_eq
leaves-exit host getenv ended reaped s = rw (cd-exit host s) refl

-- The shell is left by the line `exit` and by no other.
pub run_cmd-leaves_iff :
    (host : Host) (getenv : List ℕ → Option (List ℕ)) (ended : WaitStatus)
    (reaped : Option WaitStatus) (s : Session) (cmd : List ℕ)
    → ((run_cmd host getenv ended reaped s cmd).0 ≡ leaves) ↔ (cmd ≡ exit_name)
run_cmd-leaves_iff host getenv ended reaped s cmd = (
  (λ h. exit_shell-eq cmd (leaves-only host getenv ended reaped s cmd h)),
  (λ e. rw e (leaves-exit host getenv ended reaped s)),
)

run_parsed-runs :
    (host : Host) (s : Session) (ended : WaitStatus) (reaped : Option WaitStatus) (p : Option Cmd)
    (c : Cmd)
    → (run_parsed host s ended reaped p).0 ≡ runs c
    → (run_parsed host s ended reaped p).1.status ≡ after_run host c ended reaped s.status
unfolding run_parsed
run_parsed-runs host s ended reaped none c h = cc
run_parsed-runs host s ended reaped (some null) c h = cc
run_parsed-runs host s ended reaped (some (execcmd x)) c h = cc
run_parsed-runs host s ended reaped (some (backcmd x y)) c h = cc
run_parsed-runs host s ended reaped (some (pipecmd x y)) c h = cc

run_cmd-runs :
    (host : Host) (getenv : List ℕ → Option (List ℕ)) (ended : WaitStatus)
    (reaped : Option WaitStatus) (s : Session) (cmd : List ℕ) (c : Cmd)
    → (run_cmd host getenv ended reaped s cmd).0 ≡ runs c
    → (run_cmd host getenv ended reaped s cmd).1.status ≡ after_run host c ended reaped s.status
unfolding run_cmd
run_cmd-runs host getenv ended reaped s [] c h = cc
run_cmd-runs host getenv ended reaped s (x ∷ r) c h =
    let parsed = run_parsed-runs host s ended reaped (parse_line (vars_of getenv s) (x ∷ r)) c in
    ground arith

after_run-exec :
    (host : Host) (e : ExecCmd) (n : ℕ) (status : ℤ)
    → length e.scmd ≢ 0
    → after_run host (execcmd e) (exited n) none status ≡ pos n
unfolding after_run print_status_info
after_run-exec host e n status ne = ground arith

expand-status :
    (v : Vars) (n : ℕ)
    → n < 208
    → v.status ≡ pos n
    → expand_environ_var v (b'$' ∷ b'?' ∷ []) ≡ (n + 48) ∷ []
unfolding expand_environ_var status_char
expand-status v n h e =
    let small : (n + 48) % 256 ≡ n + 48 = omega arith in rw e (rw small (ground arith))

-- After a line that runs a plain command, which exits with a status below 208, while no command in the
-- background is reaped, `$?` stands for one byte, the status counted from '0': a digit for a status below
-- ten only.
pub run_cmd-expand_environ_var :
    (host : Host) (getenv : List ℕ → Option (List ℕ)) (n : ℕ) (s : Session) (cmd : List ℕ)
    (e : ExecCmd)
    → n < 208
    → (run_cmd host getenv (exited n) none s cmd).0 ≡ runs (execcmd e)
    → length e.scmd ≢ 0
    → expand_environ_var
        (vars_of getenv (run_cmd host getenv (exited n) none s cmd).1)
        (b'$' ∷ b'?' ∷ [])
      ≡ (n + 48) ∷ []
run_cmd-expand_environ_var host getenv n s cmd e h r ne =
    expand-status (vars_of getenv (run_cmd host getenv (exited n) none s cmd).1) n h (
      run_cmd-runs host getenv (exited n) none s cmd (execcmd e) r
      ∙ after_run-exec host e n s.status ne)
