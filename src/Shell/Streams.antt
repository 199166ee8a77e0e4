-- ===== src/Shell/Streams.antt =====
-- What the programs that a command starts read from and write to.
use sis_ops.Common.{
  map, All, inl, inr, ◌⊎◌, ℕ, ◌≡◌, ◌≢◌, refl, ap, ap₂, ◌∙◌, List, [], ◌∷◌, ◌++◌, Bool, true, false,
  if◌then◌else◌, arith,
}
use mathlib.Core.List.{append-nil}
use sis_ops.Shell.{exec, ExecCmd, Cmd, execcmd, pipecmd}
use sis_ops.Shell.Pipes.{nest}
use sis_ops.Shell.Exec.{
  Flags, End, read_end, write_end, Fd, stdin, stdout, stderr, file, pipe_fd, setenv, dup2, close,
  setpgid, waitpid, System, Process, call, opening, piping, fork, becomes, exits, crashes, exec_cmd,
  exec_pipe, exec_program, set_environ_vars,
}

-- Where a stream leads: as the shell's own, to a file, or to the pipe that the process at the end of
-- a path of forks has made.
pub data Source : Type 0 where
  own_in own_out own_err : Source
  opened : List ℕ → Flags → Source
  pipe_of : List Bool → End → Source
  nowhere : Source

pub record Streams : Type 0 where
  pub inp : Source
  pub out : Source
  pub err : Source

pub record Program : Type 0 where
  pub args : List (List ℕ)
  pub streams : Streams

-- What a process holds besides its streams: the pipe that the process at `maker` has made, with the ends
-- that are still open here, and the file that it has opened last.
pub record Held : Type 0 where
  pub maker : List Bool
  pub read_open : Bool
  pub write_open : Bool
  pub file : Source

-- A process that holds nothing.
abbrev pub no_fds : Held
no_fds = record { maker = []; read_open = false; write_open = false; file = nowhere }

-- Where a descriptor leads: nowhere once it is closed.
abbrev source : Held → Streams → Fd → Source
source h t stdin = t.inp
source h t stdout = t.out
source h t stderr = t.err
source h t (file name flags) = h.file
source h t (pipe_fd read_end) = if h.read_open then pipe_of h.maker read_end else nowhere
source h t (pipe_fd write_end) = if h.write_open then pipe_of h.maker write_end else nowhere

abbrev redirect : Streams → Fd → Source → Streams
redirect t stdin s = record t { inp = s }
redirect t stdout s = record t { out = s }
redirect t stderr s = record t { err = s }
redirect t _ s = t

abbrev closed : Held → Fd → Held
closed h (pipe_fd read_end) = record h { read_open = false }
closed h (pipe_fd write_end) = record h { write_open = false }
closed h (file name flags) = record h { file = nowhere }
closed h _ = h

-- The programs that a process and its children become, those of a child first. `path` is the path of
-- the process and `h` what it holds, which a child holds too; a second child is at `true`.
unfoldable pub programs : Streams → Bool → Held → List Bool → Process → List Program
programs t forked h path (call (dup2 from to) p) =
    programs (redirect t to (source h t from)) forked h path p
programs t forked h path (call (setenv k v) p) = programs t forked h path p
programs t forked h path (call (close fd) p) =
    programs (redirect t fd nowhere) forked (closed h fd) path p
programs t forked h path (call setpgid p) = programs t forked h path p
programs t forked h path (call (waitpid second) p) = programs t forked h path p
programs t forked h path (opening name flags p) =
    programs t forked (record h { file = opened name flags }) path p
programs t forked h path (piping p) =
    programs t false (record h { maker = path; read_open = true; write_open = true }) path p
programs t forked h path (fork child parent) =
    programs t false h (forked ∷ path) child ++ programs t true h path parent
programs t forked h path (becomes argv) = record { args = argv; streams = t } ∷ []
programs t forked h path (exits ok) = []
programs t forked h path crashes = []

-- Every call works.
pub record Works (os : System) : Type 0 where
  pub pipe_works : os.pipes ≡ true
  pub fork_works : (second : Bool) → os.forks second ≡ true
  pub open_works : (name : List ℕ) (flags : Flags) → os.opens name flags ≡ true

-- A command with no redirection and no variable, whose program is found.
pub record Simple (os : System) (e : ExecCmd) : Type 0 where
  pub is_exec : e.type ≡ exec
  pub no_vars : e.eargv ≡ []
  pub some_args : e.argv ≢ []
  pub found : os.finds e.argv ≡ true

pub List-cases {ℓ} :
    {A : Type ℓ} (xs : List A) → (xs ≡ []) ⊎ ((y : A) × (ys : List A) × (xs ≡ y ∷ ys))
List-cases [] = inl refl
List-cases (y ∷ ys) = inr (y, ys, refl)

pub exec_program-found :
    (os : System) (e : ExecCmd) (x : List ℕ) (xs : List (List ℕ))
    → e.eargv ≡ []
    → e.argv ≡ x ∷ xs
    → os.finds e.argv ≡ true
    → exec_program os e ≡ becomes e.argv
unfolding exec_program set_environ_vars
exec_program-found os e x xs no_vars args found = ground arith

exec_cmd-Simple :
    (os : System) (e : ExecCmd) → Simple os e → exec_cmd os (execcmd e) ≡ becomes e.argv
unfolding exec_cmd
exec_cmd-Simple os e s = elim (List-cases e.argv) [
  | inl nil ↦ absurd (s.some_args nil)
  | inr c ↦
      let found = exec_program-found os e c.0 c.1 s.no_vars c.2 s.found in
      let k = s.is_exec in ground arith
]

-- What a child of a pipeline holds once both ends of its pipe are closed.
abbrev no_pipe : List Bool → Held → Held
no_pipe path h = record h { maker = path; read_open = false; write_open = false }

programs-exec_pipe :
    (os : System) (l r : Process) (t : Streams) (forked : Bool) (h : Held) (path : List Bool)
    → Works os
    → programs t forked h path (exec_pipe os l r) ≡ (
        programs (record t { out = pipe_of path write_end }) false (no_pipe path h) (false ∷ path) l
        ++ (programs
              (record t { inp = pipe_of path read_end })
              false
              (no_pipe path h)
              (true ∷ path)
              r
            ++ []))
unfolding programs exec_pipe
programs-exec_pipe os l r t forked h path w =
    let made = w.pipe_works in
    let first = w.fork_works false in let second = w.fork_works true in ground arith

exec_cmd-pipe :
    (os : System) (l r : Cmd)
    → exec_cmd os (pipecmd l r) ≡ exec_pipe os (exec_cmd os l) (exec_cmd os r)
unfolding exec_cmd
exec_cmd-pipe os l r = refl

-- A pipe joins what the left command writes to what the right command reads.
programs-pipe :
    (os : System) (l r : Cmd) (t : Streams) (forked : Bool) (h : Held) (path : List Bool)
    → Works os
    → programs t forked h path (exec_cmd os (pipecmd l r)) ≡ (
        programs
          (record t { out = pipe_of path write_end })
          false
          (no_pipe path h)
          (false ∷ path)
          (exec_cmd os l)
        ++ programs
            (record t { inp = pipe_of path read_end })
            false
            (no_pipe path h)
            (true ∷ path)
            (exec_cmd os r))
programs-pipe os l r t forked h path w =
    let right =
      programs (record t { inp = pipe_of path read_end }) false (no_pipe path h) (true ∷ path)
        (exec_cmd os r) in
    rw (exec_cmd-pipe os l r) (
      programs-exec_pipe os (exec_cmd os l) (exec_cmd os r) t forked h path w
      ∙ ap
          (λ ps.
            programs (record t { out = pipe_of path write_end }) false (no_pipe path h)
              (false ∷ path) (exec_cmd os l)
            ++ ps)
          (append-nil right))

programs-Simple :
    (os : System) (e : ExecCmd) (t : Streams) (forked : Bool) (h : Held) (path : List Bool)
    → Simple os e
    → programs t forked h path (exec_cmd os (execcmd e))
      ≡ record { args = e.argv; streams = t } ∷ []
unfolding programs
programs-Simple os e t forked h path s = rw (exec_cmd-Simple os e s) refl

-- The programs of a pipeline: each reads from the pipe that the one before writes to, the first reads
-- and the last writes as the shell does.
pub chain : Streams → List Bool → ExecCmd → List ExecCmd → List Program
chain t path e [] = record { args = e.argv; streams = t } ∷ []
chain t path e (d ∷ ds) =
    record { args = e.argv; streams = record t { out = pipe_of path write_end } }
    ∷ chain (record t { inp = pipe_of path read_end }) (true ∷ path) d ds

-- If all calls work and all programs are found, a pipeline of commands without redirections or
-- variables runs just these programs, each reading from the pipe that the one before writes to; the
-- first reads and the last writes as the shell does.
pub exec_cmd-chain :
    (os : System) (es : List ExecCmd) (e : ExecCmd) (t : Streams) (forked : Bool) (h : Held)
    (path : List Bool)
    → Works os
    → Simple os e
    → All (Simple os) es
    → programs t forked h path (exec_cmd os (nest (execcmd e) (map execcmd es))) ≡ chain t path e es
unfolding chain
exec_cmd-chain os [] e t forked h path w s ss = programs-Simple os e t forked h path s
exec_cmd-chain os (d ∷ ds) e t forked h path w s ss =
    programs-pipe os (execcmd e) (nest (execcmd d) (map execcmd ds)) t forked h path w
    ∙ ap₂ (λ (a b : List Program). a ++ b)
        (programs-Simple os e (record t { out = pipe_of path write_end }) false (no_pipe path h)
          (false ∷ path) s)
        (exec_cmd-chain os ds d (record t { inp = pipe_of path read_end }) false (no_pipe path h)
          (true ∷ path) w ss.0 ss.1)
