-- ===== src/Shell.antt =====
-- shell/defs.h and shell/types.h: the commands of the shell.
pub mod Text
pub mod Parsing
pub mod Words
pub mod Pipes
pub mod Exec
pub mod Streams
pub mod Redirection
pub mod Pipeline
pub mod Builtin
pub mod Session
mod Tests
use sis_ops.Common.{ℕ, List}

abbrev pub space : ℕ
space = b' '

abbrev buflen : ℕ
buflen = 1024

abbrev pub maxargs : ℕ
maxargs = 20

abbrev pub argsize : ℕ
argsize = 1024

-- `type` of an `execcmd`: EXEC or REDIR.
pub data ExecType : Type 0 where
  exec redir : ExecType

-- `struct execcmd`; `argc` and `eargc` are the lengths of `argv` and `eargv`, and the null behind the
-- last argument is left out. `pid` is set when the command runs.
pub record ExecCmd : Type 0 where
  pub type : ExecType
  pub scmd : List ℕ
  pub argv : List (List ℕ)
  pub eargv : List (List ℕ)
  pub out_file : List ℕ
  pub in_file : List ℕ
  pub err_file : List ℕ

-- `struct cmd` behind a pointer: null, an `execcmd`, a `backcmd` (with its `scmd`) or a `pipecmd`.
pub data Cmd : Type 0 where
  null : Cmd
  execcmd : ExecCmd → Cmd
  backcmd : List ℕ → Cmd → Cmd
  pipecmd : Cmd → Cmd → Cmd
