-- ===== src/Shell/Redirection.antt =====
-- Where the streams of a redirected command lead, and pipelines from the line to the programs.
use sis_ops.Common.{
  inl, inr, ℕ, ◌≡◌, ◌≢◌, refl, ap, ◌∙◌, List, [], ◌∷◌, Bool, true, if◌then◌else◌, ◌==◌, arith,
  length, str_eq,
}
use sis_ops.Shell.{redir, ExecCmd, execcmd}
use sis_ops.Shell.Exec.{
  Flags, System, Process, becomes, exec_cmd, exec_program, redirect_out, redirect_in, redirect_err,
  open_redir_fd, out_flags, in_flags, err_flags,
}
use sis_ops.Shell.Streams.{
  Source, opened, Streams, Held, Works, programs, List-cases, exec_program-found,
}

-- The standard output of a redirected command.
abbrev out_of : ExecCmd → Streams → Source
out_of e t = if length e.out_file == 0 then t.out else opened e.out_file out_flags

abbrev in_of : ExecCmd → Streams → Source
in_of e t = if length e.in_file == 0 then t.inp else opened e.in_file in_flags

-- The standard error: `2>&1` is the standard output as it is redirected, wherever `2>&1` stands.
abbrev err_of : ExecCmd → Streams → Source
err_of e t =
    if length e.err_file == 0
    then t.err
    else if str_eq e.err_file (b'&' ∷ b'1' ∷ [])
    then out_of e t
    else opened e.err_file err_flags

abbrev pub redirected : ExecCmd → Streams → Streams
redirected e t = record { inp = in_of e t; out = out_of e t; err = err_of e t }

-- What the process holds once a redirection has opened its file.
abbrev holding : Held → List ℕ → Flags → Held
holding h name flags = if length name == 0 then h else record h { file = opened name flags }

abbrev holding_err : Held → List ℕ → Held
holding_err h name = if str_eq name (b'&' ∷ b'1' ∷ []) then h else holding h name err_flags

module _ (os : System) (e : ExecCmd) (forked : Bool) (path : List Bool) (w : Works os) where
  programs-out :
      (t : Streams) (h : Held) (next : Process)
      → programs t forked h path (redirect_out os e next)
        ≡ programs (record t { out = out_of e t }) forked (holding h e.out_file out_flags) path next
  unfolding programs redirect_out open_redir_fd
  programs-out t h next = let opened = w.open_works e.out_file out_flags in ground arith

  programs-in :
      (t : Streams) (h : Held) (next : Process)
      → programs t forked h path (redirect_in os e next)
        ≡ programs (record t { inp = in_of e t }) forked (holding h e.in_file in_flags) path next
  unfolding programs redirect_in open_redir_fd
  programs-in t h next = let opened = w.open_works e.in_file in_flags in ground arith

  abbrev err_from : Streams → Source
  err_from t =
      if length e.err_file == 0
      then t.err
      else if str_eq e.err_file (b'&' ∷ b'1' ∷ [])
      then t.out
      else opened e.err_file err_flags

  programs-err :
      (t : Streams) (h : Held) (next : Process)
      → programs t forked h path (redirect_err os e next)
        ≡ programs (record t { err = err_from t }) forked (holding_err h e.err_file) path next
  unfolding programs redirect_err open_redir_fd
  programs-err t h next = let opened = w.open_works e.err_file err_flags in ground arith

exec_cmd-redir :
    (os : System) (e : ExecCmd)
    → e.type ≡ redir
    → exec_cmd os (execcmd e)
      ≡ redirect_out os e (redirect_in os e (redirect_err os e (exec_program os e)))
unfolding exec_cmd
exec_cmd-redir os e k = ground arith

programs-becomes :
    (t : Streams) (forked : Bool) (h : Held) (path : List Bool) (argv : List (List ℕ))
    → programs t forked h path (becomes argv) ≡ record { args = argv; streams = t } ∷ []
unfolding programs
programs-becomes t forked h path argv = refl

-- If all calls work, a redirected command without KEY=value words whose program is found runs just that program: standard
-- input and output lead to the files named for them, or where they led before, and so does standard
-- error, but that `2>&1` makes it the standard output as redirected, wherever `2>&1` stands.
pub exec_cmd-redirected :
    (os : System) (e : ExecCmd) (t : Streams) (forked : Bool) (h : Held) (path : List Bool)
    → Works os
    → e.type ≡ redir
    → e.eargv ≡ []
    → e.argv ≢ []
    → os.finds e.argv ≡ true
    → programs t forked h path (exec_cmd os (execcmd e))
      ≡ record { args = e.argv; streams = redirected e t } ∷ []
exec_cmd-redirected os e t forked h path w k no_vars some_args found = elim (List-cases e.argv) [
  | inl nil ↦ absurd (some_args nil)
  | inr c ↦
      let p = exec_program os e in
      let t1 : Streams = record t { out = out_of e t } in
      let t2 : Streams = record t1 { inp = in_of e t } in
      let h1 = holding h e.out_file out_flags in
      let h2 = holding h1 e.in_file in_flags in
      rw (exec_cmd-redir os e k) (
        programs-out os e forked path w t h (redirect_in os e (redirect_err os e p))
        ∙ programs-in os e forked path w t1 h1 (redirect_err os e p)
        ∙ programs-err os e forked path w t2 h2 p
        ∙ ap (programs (redirected e t) forked (holding_err h2 e.err_file) path)
            (exec_program-found os e c.0 c.1 no_vars c.2 found)
        ∙ programs-becomes (redirected e t) forked (holding_err h2 e.err_file) path e.argv)
]
