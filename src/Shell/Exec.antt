-- ===== src/Shell/Exec.antt =====
-- shell/exec.c: what `exec_cmd` asks of the system.
use sis_ops.Common.{
  ℕ, ◌+◌, List, [], ◌∷◌, some, none, Bool, true, false, if◌then◌else◌, ◌==◌, length, drop, str_eq,
}
use sis_ops.Shell.{exec, redir, ExecCmd, Cmd, null, execcmd, backcmd, pipecmd}
use sis_ops.Shell.Text.{block_contains}

-- The flags that `open` is called with; each has O_CLOEXEC.
pub record Flags : Type 0 where
  pub creates : Bool
  pub truncates : Bool
  pub reads : Bool
  pub writes : Bool

pub data End : Type 0 where
  read_end write_end : End

-- A file descriptor: one of the three streams, a file that this process has opened (the stream it is
-- opened for tells them apart), or an end of the pipe that it has made.
pub data Fd : Type 0 where
  stdin stdout stderr : Fd
  file : List ℕ → Flags → Fd
  pipe_fd : End → Fd

-- `waitpid second` waits for the first child or the second.
pub data Call : Type 0 where
  setenv : List ℕ → List ℕ → Call
  dup2 : Fd → Fd → Call
  close : Fd → Call
  setpgid : Call
  waitpid : Bool → Call

-- The system's part: whether a call works; `forks second` is the first `fork` or the second.
pub record System : Type 0 where
  pub opens : List ℕ → Flags → Bool
  pub finds : List (List ℕ) → Bool
  pub pipes : Bool
  pub forks : Bool → Bool

-- What a process does: a call and what follows, a fork with the child and the parent, or its end:
-- `exits true` is exit(0), `exits false` is exit(-1), and `becomes` an `execvp` that works.
pub data Process : Type 0 where
  call : Call → Process → Process
  opening : List ℕ → Flags → Process → Process
  piping : Process → Process
  fork : Process → Process → Process
  becomes : List (List ℕ) → Process
  exits : Bool → Process
  crashes : Process

get_environ_key : List ℕ → List ℕ
get_environ_key [] = []
get_environ_key (c ∷ arg) = let more = get_environ_key arg in if c == b'=' then [] else c ∷ more

get_environ_value : List ℕ → ℕ → List ℕ
get_environ_value arg idx = drop (idx + 1) arg

unfoldable pub set_environ_vars : List (List ℕ) → Process → Process
unfolding get_environ_key get_environ_value
set_environ_vars [] next = next
set_environ_vars (arg ∷ eargv) next =
    let later = set_environ_vars eargv next in
    elim (block_contains arg b'=') [
      | some index ↦ call (setenv (get_environ_key arg) (get_environ_value arg index)) later
      | none ↦ exits false
    ]

-- `open_redir_fd` and the `dup2` behind it.
unfoldable pub open_redir_fd : System → List ℕ → Flags → Fd → Process → Process
open_redir_fd os name flags target next =
    if os.opens name flags
    then opening name flags (call (dup2 (file name flags) target) next)
    else opening name flags (exits false)

abbrev pub out_flags : Flags
out_flags = record { creates = true; truncates = true; reads = false; writes = true }

abbrev pub in_flags : Flags
in_flags = record { creates = false; truncates = false; reads = true; writes = false }

abbrev pub err_flags : Flags
err_flags = record { creates = true; truncates = true; reads = true; writes = true }

unfoldable pub redirect_out : System → ExecCmd → Process → Process
unfolding open_redir_fd
redirect_out os r next =
    if length r.out_file == 0 then next else open_redir_fd os r.out_file out_flags stdout next

unfoldable pub redirect_in : System → ExecCmd → Process → Process
unfolding open_redir_fd
redirect_in os r next =
    if length r.in_file == 0 then next else open_redir_fd os r.in_file in_flags stdin next

unfoldable pub redirect_err : System → ExecCmd → Process → Process
unfolding open_redir_fd
redirect_err os r next =
    if length r.err_file == 0
    then next
    else if str_eq r.err_file (b'&' ∷ b'1' ∷ [])
    then call (dup2 stdout stderr) next
    else open_redir_fd os r.err_file err_flags stderr next

-- The case EXEC. Without an argument `argv[0]` is null, which no `execvp` finds.
unfoldable pub exec_program : System → ExecCmd → Process
unfolding set_environ_vars
exec_program os e = set_environ_vars e.eargv (elim e.argv [
  | [] ↦ exits false
  | program ∷ args ↦ if os.finds e.argv then becomes e.argv else exits false
])

-- The case PIPE, from what the children do once their streams are set.
unfoldable pub exec_pipe : System → Process → Process → Process
exec_pipe os left right =
    let closing =
      λ (next : Process). call (close (pipe_fd read_end)) (call (close (pipe_fd write_end)) next) in
    if os.pipes
    then piping (
        if os.forks false
        then fork
            (call setpgid (
              call (close (pipe_fd read_end))
                (call (dup2 (pipe_fd write_end) stdout) (call (close (pipe_fd write_end)) left))))
            (if os.forks true
              then fork
                  (call setpgid (
                    call (close (pipe_fd write_end)) (
                      call (dup2 (pipe_fd read_end) stdin)
                        (call (close (pipe_fd read_end)) right))))
                  (call setpgid (closing (call (waitpid false) (call (waitpid true) (exits true)))))
              else closing (exits false))
        else closing (exits false))
    else exits false

unfoldable pub exec_cmd : System → Cmd → Process
unfolding exec_program exec_pipe redirect_out redirect_in redirect_err
exec_cmd os null = crashes
exec_cmd os (execcmd e) = elim e.type [
  | exec ↦ exec_program os e
  | redir ↦ redirect_out os e (redirect_in os e (redirect_err os e (exec_program os e)))
]
exec_cmd os (backcmd scmd c) = exec_cmd os c
exec_cmd os (pipecmd l r) = exec_pipe os (exec_cmd os l) (exec_cmd os r)
