-- ===== src/Shell/Pipes.antt =====
-- Pipelines, commands in the background, and assignments.
use sis_ops.Common.{
  ℕ, zero, suc, ◌<◌, ◌≤◌, ◌≡◌, ◌≢◌, ◌↔◌, refl, List, [], ◌∷◌, ◌++◌, some, none, Bool, true, false,
  arith, length, length-append, All,
}
use mathlib.Core.List.{append-nil}
use sis_ops.Shell.{space, Cmd, null, pipecmd, backcmd, execcmd}
use sis_ops.Shell.Text.{split_line, skip_spaces, block_contains}
use sis_ops.Shell.Parsing.{Vars, parse_cmd, pipe_cmd_create, line_loop, parse_line, is_environ_var}
use sis_ops.Shell.Words.{block_contains-none, block_contains-append}

abbrev pub bar : ℕ
bar = b'|'

-- The command between two bars: no bar in it, and no space or end at its start.
abbrev pub IsStage : List ℕ → Type 0
IsStage [] = ⊥
IsStage (c ∷ r) = (c ≢ space) × All (λ x. x ≢ bar) (c ∷ r)

skip-stage : (s rest : List ℕ) → IsStage s → skip_spaces (s ++ rest) ≡ s ++ rest
unfolding skip_spaces
skip-stage [] rest h = absurd h
skip-stage (c ∷ r) rest h = ground (arith, h.0)

-- A line without the splitter is the first part, whole.
split_line-none : (s : List ℕ) (d : ℕ) → All (λ x. x ≢ d) s → split_line s d ≡ (s, [])
unfolding split_line
split_line-none [] d h = refl
split_line-none (c ∷ r) d h = ground (arith, split_line-none r d h.1, h.0)

-- The parts are what stands before the first splitter and, less the spaces at its start, behind.
split_line-append :
    (s r : List ℕ) (d : ℕ) → All (λ x. x ≢ d) s → split_line (s ++ (d ∷ r)) d ≡ (s, skip_spaces r)
unfolding split_line
split_line-append [] r d h = ground arith
split_line-append (c ∷ s) r d h = ground (arith, split_line-append s r d h.1, h.0)

stage-no-bar : (s : List ℕ) → IsStage s → All (λ x. x ≢ bar) s
stage-no-bar [] h = absurd h
stage-no-bar (c ∷ r) h = h.1

-- The stages of a pipeline after the first, each with its bar.
piped : List (List ℕ) → List ℕ
piped [] = []
piped (s ∷ ss) = bar ∷ (s ++ piped ss)

-- The tree that a pipeline stands for.
abbrev pub nest : Cmd → List Cmd → Cmd
nest c [] = c
nest c (d ∷ ds) = pipecmd c (nest d ds)

-- The stages are parsed, one by one, to these commands.
abbrev pub Parses : Vars → List (List ℕ) → List Cmd → Type 0
Parses v [] [] = Unit {0}
Parses v (s ∷ ss) (c ∷ cs) =
    IsStage s × (parse_cmd false v s ≡ some c) × (c ≢ null) × Parses v ss cs
Parses v _ _ = ⊥

nest-ne-null : (c : Cmd) (cs : List Cmd) → c ≢ null → nest c cs ≢ null
nest-ne-null c [] ne = ne
nest-ne-null c (d ∷ ds) ne = λ e. cc

pipe_cmd_create_lem : (l r : Cmd) → r ≢ null → pipe_cmd_create l r ≡ pipecmd l r
unfolding pipe_cmd_create
pipe_cmd_create_lem l null ne = absurd (ne refl)
pipe_cmd_create_lem l (execcmd e) ne = refl
pipe_cmd_create_lem l (backcmd s c) ne = refl
pipe_cmd_create_lem l (pipecmd a b) ne = refl

parse_cmd-empty : (v : Vars) → parse_cmd false v [] ≡ some null
unfolding parse_cmd
parse_cmd-empty v = refl

pipe_cmd_create-null : (c : Cmd) → pipe_cmd_create c null ≡ c
unfolding pipe_cmd_create
pipe_cmd_create-null c = refl

block_contains-empty : (d : ℕ) → block_contains [] d ≡ none
unfolding block_contains
block_contains-empty d = refl

line_loop-one :
    (fuel : ℕ) (front : Bool) (v : Vars) (s : List ℕ) (c : Cmd)
    → IsStage s
    → parse_cmd front v s ≡ some c
    → line_loop (suc fuel) front v (s ++ piped []) ≡ some c
unfolding line_loop piped
line_loop-one fuel front v s c st e =
    let whole = split_line-none s bar (stage-no-bar s st) in
    let nil = append-nil s in
    let last = parse_cmd-empty v in
    ground (arith, whole, nil, last, pipe_cmd_create-null c, block_contains-empty bar)

line_loop-more :
    (fuel : ℕ) (front : Bool) (v : Vars) (s t : List ℕ) (ss : List (List ℕ)) (c d : Cmd)
    → IsStage s
    → IsStage t
    → parse_cmd front v s ≡ some c
    → d ≢ null
    → ((u : List ℕ) (us : List (List ℕ))
        → ss ≡ u ∷ us
        → line_loop fuel false v (t ++ piped ss) ≡ some d)
    → (ss ≡ [] → parse_cmd false v t ≡ some d)
    → line_loop (suc fuel) front v (s ++ piped (t ∷ ss)) ≡ some (pipecmd c d)
unfolding line_loop piped
line_loop-more fuel front v s t [] c d st tt_stage e ne many last =
    let cut = split_line-append s (t ++ []) bar (stage-no-bar s st) in
    let skip = skip-stage t [] tt_stage in
    let nil = append-nil t in
    let none_left = block_contains-none t bar (stage-no-bar t tt_stage) in
    ground (arith, cut, skip, nil, none_left, last refl, pipe_cmd_create_lem c d ne)
line_loop-more fuel front v s t (u ∷ us) c d st tt_stage e ne many last =
    let cut = split_line-append s (t ++ (bar ∷ (u ++ piped us))) bar (stage-no-bar s st) in
    let skip = skip-stage t (bar ∷ (u ++ piped us)) tt_stage in
    let more_left = block_contains-append t (u ++ piped us) bar (stage-no-bar t tt_stage) in
    ground (arith, cut, skip, more_left, many u us refl, pipe_cmd_create_lem c d ne)

line_loop-nest :
    (ss : List (List ℕ)) (fuel : ℕ) (front : Bool) (v : Vars) (s : List ℕ) (c : Cmd) (cs : List Cmd)
    → length ss < fuel
    → IsStage s
    → parse_cmd front v s ≡ some c
    → Parses v ss cs
    → line_loop fuel front v (s ++ piped ss) ≡ some (nest c cs)
line_loop-nest ss zero front v s c cs h st e p = absurd (omega arith)
line_loop-nest [] (suc fuel) front v s c [] h st e p = line_loop-one fuel front v s c st e
line_loop-nest [] (suc fuel) front v s c (d ∷ ds) h st e p = absurd p
line_loop-nest (t ∷ ss) (suc fuel) front v s c [] h st e p = absurd p
line_loop-nest (t ∷ ss) (suc fuel) front v s c (d ∷ ds) h st e p =
    let rest = line_loop-nest ss fuel false v t d ds (omega arith) p.0 p.1 p.3 in
    line_loop-more fuel front v s t ss c (nest d ds) st p.0 e (nest-ne-null d ds p.2)
      (λ u us q. rest) (λ q. last ss ds q p.3)
  where
    last :
        (us : List (List ℕ)) (es : List Cmd)
        → us ≡ []
        → Parses v us es
        → parse_cmd false v t ≡ some (nest d es)
    last [] [] q r = p.1
    last [] (x ∷ xs) q r = absurd r
    last (u ∷ us) es q r = cc

length-piped : (ss : List (List ℕ)) → length ss ≤ length (piped ss)
unfolding piped
length-piped [] = omega arith
length-piped (s ∷ ss) = omega (arith, length-append s (piped ss), length-piped ss)

-- The line of a pipeline.
pub line_of : List ℕ → List (List ℕ) → List ℕ
unfolding piped
line_of s ss = s ++ piped ss

-- A line of commands with bars between is parsed, whatever their number, to the chain of pipes of
-- the commands that its parts are parsed to, nested to the right.
pub parse_line-nest :
    (v : Vars) (s : List ℕ) (ss : List (List ℕ)) (c : Cmd) (cs : List Cmd)
    → IsStage s
    → parse_cmd true v s ≡ some c
    → Parses v ss cs
    → parse_line v (line_of s ss) ≡ some (nest c cs)
unfolding parse_line line_of
parse_line-nest v s ss c cs st e p =
    line_loop-nest ss (suc (length (s ++ piped ss))) true v s c cs
      (omega (arith, length-append s (piped ss), length-piped ss)) st e p

-- A token `key=value` sets a variable exactly if neither part has a '-': the value counts too.
is_environ_var_iff :
    (key value : List ℕ)
    → key ≢ []
    → All (λ c. c ≢ b'=') key
    → (is_environ_var (key ++ (b'=' ∷ value)) ≡ true)
      ↔ (block_contains (key ++ (b'=' ∷ value)) b'-' ≡ none)
unfolding is_environ_var
is_environ_var_iff [] value ne h = absurd (ne refl)
is_environ_var_iff (c ∷ key) value ne h =
    ground (arith, block_contains-append (c ∷ key) value b'=' h)
