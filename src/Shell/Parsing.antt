-- ===== src/Shell/Parsing.antt =====
-- shell/parsing.c and shell/createcmd.c.
use sis_ops.Common.{
  ℕ, zero, suc, ◌+◌, ◌-◌, ◌%◌, List, [], ◌∷◌, ◌++◌, Option, some, none, Bool, true, false,
  if◌then◌else◌, ◌==◌, ltb, ℤ, pos, negsuc, length, drop, get_elem?,
}
use sis_ops.Shell.{
  space, buflen, argsize, maxargs, exec, redir, ExecCmd, Cmd, null, execcmd, backcmd, pipecmd,
}
use sis_ops.Shell.Text.{split_line, block_contains}

infixl 5 ◌>>=◌
abbrev pub ◌>>=◌ : {A B : Type 0} → Option A → (A → Option B) → Option B
none >>= f = none
some a >>= f = f a

-- What expansion reads: the last status, and the environment of the process.
pub record Vars : Type 0 where
  pub status : ℤ
  pub getenv : List ℕ → Option (List ℕ)

-- The token up to a space or the end, and what follows it.
unfoldable pub get_token : List ℕ → List ℕ × List ℕ
get_token [] = ([], [])
get_token (c ∷ r) =
    let more = get_token r in if c == space then ([], c ∷ r) else (c ∷ more.0, more.1)

-- The result of `parse_redir_flow`: `none` if the token is no redirection.
unfoldable pub parse_redir_flow : ExecCmd → List ℕ → Option ExecCmd
parse_redir_flow c arg = elim (block_contains arg b'>') [
  | some i ↦ some (
      if i == 0
      then record c { type = redir; out_file = drop 1 arg }
      else if i == 1
      then record c { type = redir; err_file = drop 2 arg }
      else record c { type = redir })
  | none ↦ elim (block_contains arg b'<') [
    | some i ↦ some (record c { type = redir; in_file = drop 1 arg })
    | none ↦ none
  ]
]

abbrev is_none {ℓ} : {A : Type ℓ} → Option A → Bool
is_none none = true
is_none (some a) = false

-- `block_contains(arg, '=') > 0`, and no '-' in the token.
unfoldable pub is_environ_var : List ℕ → Bool
is_environ_var arg = elim (block_contains arg b'=') [
  | none ↦ false
  | some i ↦ if i == 0 then false else is_none (block_contains arg b'-')
]

-- `(char) (status + '0')`
unfoldable pub status_char : ℤ → ℕ
status_char (pos n) = (n + 48) % 256
status_char (negsuc n) = (48 + 255 - n % 256) % 256

-- A string of one byte, which is empty if the byte is NUL.
abbrev one_char : ℕ → List ℕ
one_char c = if c == 0 then [] else c ∷ []

-- `getenv(arg + 1)`, or the empty string.
abbrev value_of : Vars → List ℕ → List ℕ
value_of v name = elim (v.getenv name) [ none ↦ [] | some value ↦ value ]

unfoldable pub expand_environ_var : Vars → List ℕ → List ℕ
unfolding status_char
expand_environ_var v [] = []
expand_environ_var v (c ∷ name) =
    if c == b'$'
    then elim name [
      | [] ↦ value_of v []
      | d ∷ more ↦ if d == b'?' then one_char (status_char v.status) else value_of v (d ∷ more)
    ]
    else c ∷ name

-- `argv[argc++] = tok`, in an array of `maxargs`.
abbrev pub push_arg : ExecCmd → List ℕ → Option ExecCmd
push_arg c tok =
    if ltb (length c.argv) maxargs then some (record c { argv = c.argv ++ (tok ∷ []) }) else none

-- `eargv[eargc++] = tok`
abbrev push_env : ExecCmd → List ℕ → Option ExecCmd
push_env c tok =
    if ltb (length c.eargv) maxargs then some (record c { eargv = c.eargv ++ (tok ∷ []) }) else none

abbrev pub push_nonempty : ExecCmd → List ℕ → Option ExecCmd
push_nonempty c [] = some c
push_nonempty c (x ∷ tok) = push_arg c (x ∷ tok)

-- One round of the loop of `parse_exec`, behind `get_token`.
unfoldable pub add_token : Vars → List ℕ → ExecCmd → Option ExecCmd
unfolding parse_redir_flow is_environ_var expand_environ_var
add_token v tok c = elim (parse_redir_flow c tok) [
  | some c' ↦ some c'
  | none ↦ if is_environ_var tok then push_env c tok else push_nonempty c (expand_environ_var v tok)
]

-- What `calloc` and the copy of the text leave.
abbrev pub of_text : List ℕ → ExecCmd
of_text buf = record {
  type = exec;
  scmd = buf;
  argv = [];
  eargv = [];
  out_file = [];
  in_file = [];
  err_file = [];
}

-- `exec_cmd_create`: `strcpy` into an array of `buflen`.
unfoldable pub exec_cmd_create : List ℕ → Option ExecCmd
exec_cmd_create buf = if ltb (length buf) buflen then some (of_text buf) else none

-- The loop of `parse_exec`, with fuel; a token has to fit in `argsize` bytes with its NUL. At the
-- end the null behind the arguments has to fit in `argv`.
unfoldable pub exec_loop : ℕ → Vars → List ℕ → ExecCmd → Option ExecCmd
unfolding get_token add_token
exec_loop zero v buf c = none
exec_loop (suc fuel) v [] c = if ltb (length c.argv) maxargs then some c else none
exec_loop (suc fuel) v (b ∷ r) c =
    let t = get_token (b ∷ r) in
    if ltb (length t.0) argsize
    then (add_token v t.0 c >>= λ c'. exec_loop fuel v (drop 1 t.1) c')
    else none

unfoldable pub parse_exec : Vars → List ℕ → Option ExecCmd
unfolding exec_loop exec_cmd_create
parse_exec v buf = exec_cmd_create buf >>= λ c. exec_loop (suc (length buf)) v buf c

before : ℕ → List ℕ → List ℕ
before d [] = []
before d (c ∷ r) = let more = before d r in if c == d then [] else c ∷ more

-- `back_cmd_create` of the command before the '&'.
parse_back : Vars → List ℕ → Option Cmd
unfolding before
parse_back v buf = parse_exec v (before b'&' buf) >>= λ e. some (backcmd e.scmd (execcmd e))

-- Whether the byte in front of index `i` is '>'. In front of index 0 stands a space or a NUL, unless
-- the command is the first of the line (`front`): then the read is out of bounds.
abbrev after_redir : Bool → List ℕ → ℕ → Option Bool
after_redir true buf zero = none
after_redir false buf zero = some false
after_redir front buf (suc i) = elim (get_elem? buf i) [ none ↦ none | some c ↦ some (c == b'>') ]

unfoldable pub parse_cmd : Bool → Vars → List ℕ → Option Cmd
unfolding parse_back
parse_cmd front v [] = some null
parse_cmd front v (c ∷ r) = elim (block_contains (c ∷ r) b'&') [
  | none ↦ parse_exec v (c ∷ r) >>= λ e. some (execcmd e)
  | some i ↦ after_redir front (c ∷ r) i >>= λ redirected.
      if redirected then (parse_exec v (c ∷ r) >>= λ e. some (execcmd e)) else parse_back v (c ∷ r)
]

unfoldable pub pipe_cmd_create : Cmd → Cmd → Cmd
pipe_cmd_create left null = left
pipe_cmd_create left right = pipecmd left right

-- `parse_line`, with fuel: each call is on what follows a '|'.
unfoldable pub line_loop : ℕ → Bool → Vars → List ℕ → Option Cmd
unfolding parse_cmd pipe_cmd_create
line_loop zero front v buf = none
line_loop (suc fuel) front v buf =
    let parts = split_line buf b'|' in
    let rest : Option Cmd = elim (block_contains parts.1 b'|') [
      | some i ↦ line_loop fuel false v parts.1
      | none ↦ parse_cmd false v parts.1
    ] in
    rest >>= λ r. parse_cmd front v parts.0 >>= λ l. some (pipe_cmd_create l r)

unfoldable pub parse_line : Vars → List ℕ → Option Cmd
unfolding line_loop
parse_line v buf = line_loop (suc (length buf)) true v buf
