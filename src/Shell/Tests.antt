-- ===== src/Shell/Tests.antt =====
-- Examples for the shell.
use sis_ops.Common.{
  ◌+◌, str_eq, ℕ, ◌≡◌, ◌≢◌, refl, ap, List, [], ◌∷◌, some, none, true, false, arith, ℤ, length,
}
use sis_ops.Shell.{ExecCmd, redir, exec, Cmd, null, execcmd, backcmd}
use sis_ops.Shell.Text.{block_contains, split_line, skip_spaces}
use sis_ops.Shell.Parsing.{Vars, of_text, expand_environ_var, parse_exec, parse_cmd, parse_line}
use sis_ops.Shell.Words.{PlainByte, Plain, join}
use sis_ops.Shell.Exec.{System, exec_cmd}
use sis_ops.Shell.Streams.{
  own_in, own_out, own_err, Streams, Works, Simple, no_fds, programs, chain,
}
use sis_ops.Shell.Redirection.{redirected, exec_cmd-redirected}
use sis_ops.Shell.Pipeline.{Word, Words, cmd_of, parse_line-exec_cmd}
use sis_ops.Shell.Builtin.{exited, Host, Session, runs, crashes, vars_of, run_cmd}
use sis_ops.Shell.Session.{run_cmd-expand_environ_var}
use sis_ops.Shell.Pipes.{IsStage, line_of}

abbrev vars : Vars
vars = record { status = ℤ.pos 0; getenv = λ name. none }

abbrev ls : List ℕ
ls = b'l' ∷ b's' ∷ []

abbrev wc : List ℕ
wc = b'w' ∷ b'c' ∷ []

byte_l : PlainByte b'l'
byte_l = record {
  not_space = omega arith;
  not_out = omega arith;
  not_in = omega arith;
  not_equals = omega arith;
  not_dollar = omega arith;
}

byte_s : PlainByte b's'
byte_s = record {
  not_space = omega arith;
  not_out = omega arith;
  not_in = omega arith;
  not_equals = omega arith;
  not_dollar = omega arith;
}

ls-Plain : Plain ls
ls-Plain = record {
  nonempty = λ e. omega (arith, ap length e);
  bytes = (byte_l, (byte_s, tt));
  fits = omega arith;
}

abbrev program : List ℕ → Cmd
program w = execcmd (record (of_text w) { argv = w ∷ [] })

ls-parsed : parse_cmd true vars ls ≡ some (program ls)
unfolding parse_cmd parse_exec block_contains
ls-parsed = refl

wc-parsed : parse_cmd false vars wc ≡ some (program wc)
unfolding parse_cmd parse_exec block_contains
wc-parsed = refl

ls-IsStage : IsStage ls
ls-IsStage = (omega arith, (omega arith, (omega arith, tt)))

wc-IsStage : IsStage wc
wc-IsStage = (omega arith, (omega arith, (omega arith, tt)))

program-ne : program wc ≢ null
program-ne = λ e. cc

-- A command in the background.
back : parse_line vars (b'l' ∷ b's' ∷ b'&' ∷ []) ≡ some (backcmd ls (program ls))
unfolding parse_line block_contains split_line parse_exec
back = refl

-- An '&' at the start of the line: the byte before the line is read.
back-front : parse_line vars (b'&' ∷ []) ≡ none
unfolding parse_line block_contains split_line
back-front = refl

-- A system on which every call works.
abbrev system : System
system = record {
  opens = λ name flags. true;
  finds = λ argv. true;
  pipes = true;
  forks = λ second. true;
}

system-Works : Works system
system-Works = record {
  pipe_works = refl;
  fork_works = λ second. refl;
  open_works = λ name flags. refl;
}

abbrev streams : Streams
streams = record { inp = own_in; out = own_out; err = own_err }

abbrev ls_cmd : ExecCmd
ls_cmd = record {
  type = exec;
  scmd = ls;
  argv = ls ∷ [];
  eargv = [];
  out_file = [];
  in_file = [];
  err_file = [];
}

ls_cmd-Simple : Simple system ls_cmd
ls_cmd-Simple = record { is_exec = refl; no_vars = refl; some_args = λ e. cc; found = refl }

ls-Word : Word ls
ls-Word = record {
  plain = ls-Plain;
  no_bar = (omega arith, (omega arith, tt));
  no_back = (omega arith, (omega arith, tt));
}

ls-Words : Words system (ls ∷ ls ∷ [])
unfolding join
ls-Words = record {
  words = (ls-Word, (ls-Word, tt));
  some_words = λ e. cc;
  fit = omega arith;
  short = omega arith;
  found = refl;
}

-- `ls ls|ls ls`
parse_line-exec_cmd_example :
    (c : Cmd) × (parse_line vars (line_of (join (ls ∷ ls ∷ [])) (join (ls ∷ ls ∷ []) ∷ []))
      ≡ some c)
    × (programs streams false no_fds [] (exec_cmd system c)
        ≡ chain streams [] (cmd_of (ls ∷ ls ∷ [])) (cmd_of (ls ∷ ls ∷ []) ∷ []))
parse_line-exec_cmd_example =
    parse_line-exec_cmd vars system (ls ∷ ls ∷ []) ((ls ∷ ls ∷ []) ∷ []) streams system-Works
      ls-Words (ls-Words, tt)

-- `ls 2>&1 >wc`
abbrev both : ExecCmd
both = record {
  type = redir;
  scmd = ls;
  argv = ls ∷ [];
  eargv = [];
  out_file = wc;
  in_file = [];
  err_file = b'&' ∷ b'1' ∷ [];
}

exec_cmd-redirected_example :
    programs streams false no_fds [] (exec_cmd system (execcmd both))
    ≡ record { args = ls ∷ []; streams = redirected both streams } ∷ []
exec_cmd-redirected_example =
    exec_cmd-redirected system both streams false no_fds [] system-Works refl refl (λ e. cc) refl

abbrev host : Host
host = record {
  home = some (b'/' ∷ []);
  chdir = λ dir name. some name;
  getcwd = λ dir. some dir;
  raw = λ w. ℤ.pos 0;
}

abbrev session : Session
session = record { prompt = []; dir = b'/' ∷ []; status = ℤ.pos 0 }

ls-runs : (run_cmd host (λ name. none) (exited 10) none session ls).0 ≡ runs (program ls)
unfolding run_cmd parse_line parse_exec block_contains split_line str_eq
ls-runs = refl

ls-scmd : length (of_text ls).scmd ≢ 0
ls-scmd = omega arith

-- After a status of ten, `$?` is ':'.
run_cmd-expand_environ_var_example :
    expand_environ_var
      (vars_of (λ name. none) (run_cmd host (λ name. none) (exited 10) none session ls).1)
      (b'$' ∷ b'?' ∷ [])
    ≡ (10 + 48) ∷ []
run_cmd-expand_environ_var_example =
    run_cmd-expand_environ_var host (λ name. none) 10 session ls
      (record (of_text ls) { argv = ls ∷ [] }) (omega arith) ls-runs ls-scmd

cd_cmd :
    (run_cmd host (λ name. none) (exited 0) none session (b'c' ∷ b'd' ∷ b' ' ∷ b'a' ∷ [])).1.prompt
    ≡ b'(' ∷ b'a' ∷ b')' ∷ []
unfolding run_cmd split_line str_eq skip_spaces
cd_cmd = refl

-- A bar alone is parsed to null, which is read.
bar_alone : (run_cmd host (λ name. none) (exited 0) none session (b'|' ∷ [])).0 ≡ crashes
unfolding run_cmd parse_line split_line block_contains str_eq skip_spaces
bar_alone = refl
