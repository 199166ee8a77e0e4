-- ===== src/Shell/Pipeline.antt =====
-- Pipelines of plain words, from the line to the programs that run.
use sis_ops.Common.{
  ℕ, ◌<◌, ◌≡◌, ◌≢◌, refl, ap, ◌∙◌, List, [], ◌∷◌, ◌++◌, map, some, none, Bool, true, false,
  if◌then◌else◌, lt→ltb, arith, length, All,
}
use sis_ops.Shell.{space, buflen, maxargs, ExecCmd, Cmd, null, execcmd}
use sis_ops.Shell.Text.{block_contains}
use sis_ops.Shell.Parsing.{Vars, of_text, parse_exec, parse_cmd, parse_line}
use sis_ops.Shell.Words.{PlainByte, Plain, join, spaced, block_contains-none, parse_exec-join}
use sis_ops.Shell.Pipes.{bar, IsStage, Parses, line_of, nest, parse_line-nest}
use sis_ops.Shell.Exec.{System, exec_cmd}
use sis_ops.Shell.Streams.{Streams, Works, Simple, no_fds, programs, chain, exec_cmd-chain}

-- A plain word without '|' and '&'.
pub record Word (w : List ℕ) : Type 0 where
  pub plain : Plain w
  pub no_bar : All (λ c. c ≢ bar) w
  pub no_back : All (λ c. c ≢ b'&') w

-- The words of one command: some, that fit in `argv` and whose text fits in `scmd`, of a program that is found.
pub record Words (os : System) (ws : List (List ℕ)) : Type 0 where
  pub words : All Word ws
  pub some_words : ws ≢ []
  pub fit : length ws < maxargs
  pub short : length (join ws) < buflen
  pub found : os.finds ws ≡ true

abbrev pub cmd_of : List (List ℕ) → ExecCmd
cmd_of ws = record (of_text (join ws)) { argv = ws }

All-append {ℓ} : (P : ℕ → Type ℓ) (s t : List ℕ) → All P s → All P t → All P (s ++ t)
All-append P [] t h k = k
All-append P (c ∷ s) t h k = (h.0, All-append P s t h.1 k)

module _ {ℓ} (P : ℕ → Type ℓ) (sp : P space) where
  All-spaced : (ws : List (List ℕ)) → All (λ w. All P w) ws → All P (spaced ws)
  unfolding spaced
  All-spaced [] h = tt
  All-spaced (w ∷ ws) h = (sp, All-append P w (spaced ws) h.0 (All-spaced ws h.1))

  All-join : (ws : List (List ℕ)) → All (λ w. All P w) ws → All P (join ws)
  unfolding join
  All-join [] h = tt
  All-join (w ∷ ws) h = All-append P w (spaced ws) h.0 (All-spaced ws h.1)

map-Words {ℓ κ} :
    {P : List ℕ → Type ℓ} {Q : List ℕ → Type κ} (ws : List (List ℕ))
    → ((w : List ℕ) → P w → Q w)
    → All P ws
    → All Q ws
map-Words [] f h = tt
map-Words (w ∷ ws) f h = (f w h.0, map-Words ws f h.1)

starts :
    (s : List ℕ)
    → s ≢ []
    → All PlainByte s
    → (r : List ℕ) → All (λ c. c ≢ bar) (s ++ r)
    → IsStage (s ++ r)
starts [] ne p r h = absurd (ne refl)
starts (c ∷ s) ne p r h = (p.0.not_space, h)

join-IsStage : (ws : List (List ℕ)) → ws ≢ [] → All Word ws → IsStage (join ws)
unfolding join
join-IsStage [] ne h = absurd (ne refl)
join-IsStage (w ∷ ws) ne h =
    starts w h.0.plain.nonempty h.0.plain.bytes (spaced ws)
      (All-join (λ c. c ≢ bar) (omega arith) (w ∷ ws) (map-Words (w ∷ ws) (λ u x. x.no_bar) h))

parse_cmd-front :
    (front : Bool) (v : Vars) (s : List ℕ) (e : ExecCmd)
    → IsStage s
    → block_contains s b'&' ≡ none
    → parse_exec v s ≡ some e
    → parse_cmd front v s ≡ some (execcmd e)
unfolding parse_cmd
parse_cmd-front front v [] e st n p = absurd st
parse_cmd-front front v (c ∷ s) e st n p = ground arith

parse_cmd-join :
    (front : Bool) (v : Vars) (os : System) (ws : List (List ℕ))
    → Words os ws
    → parse_cmd front v (join ws) ≡ some (execcmd (cmd_of ws))
parse_cmd-join front v os ws h =
    parse_cmd-front front v (join ws) (cmd_of ws) (join-IsStage ws h.some_words h.words)
      (block_contains-none (join ws) b'&'
        (All-join (λ c. c ≢ b'&') (omega arith) ws (map-Words ws (λ u x. x.no_back) h.words)))
      (parse_exec-join v ws (map-Words ws (λ u x. x.plain) h.words) h.short
        ∙ ap (λ (b : Bool). if b then some (cmd_of ws) else none)
            (lt→ltb (length ws) maxargs h.fit))

cmd_of-ne-null : (ws : List (List ℕ)) → execcmd (cmd_of ws) ≢ null
cmd_of-ne-null ws = λ e. cc

cmds-Parses :
    (v : Vars) (os : System) (wss : List (List (List ℕ)))
    → All (Words os) wss
    → Parses v (map join wss) (map execcmd (map cmd_of wss))
cmds-Parses v os [] h = tt
cmds-Parses v os (ws ∷ wss) h = (
  join-IsStage ws h.0.some_words h.0.words,
  parse_cmd-join false v os ws h.0,
  cmd_of-ne-null ws,
  cmds-Parses v os wss h.1,
)

cmd_of-Simple : (os : System) (ws : List (List ℕ)) → Words os ws → Simple os (cmd_of ws)
cmd_of-Simple os ws h = record {
  is_exec = refl;
  no_vars = refl;
  some_args = h.some_words;
  found = h.found;
}

cmds-Simple :
    (os : System) (wss : List (List (List ℕ)))
    → All (Words os) wss
    → All (Simple os) (map cmd_of wss)
cmds-Simple os [] h = tt
cmds-Simple os (ws ∷ wss) h = (cmd_of-Simple os ws h.0, cmds-Simple os wss h.1)

-- A line of commands of at most 19 plain words and 1023 bytes each, with bars between, is parsed, and
-- where every call works and every program is found, what it is parsed to runs these programs with these words as their
-- arguments, each reading from the pipe that the one before writes to; the ends are open when they are
-- passed on.
pub parse_line-exec_cmd :
    (v : Vars) (os : System) (ws : List (List ℕ)) (wss : List (List (List ℕ))) (t : Streams)
    → Works os
    → Words os ws
    → All (Words os) wss
    → (c : Cmd) × (parse_line v (line_of (join ws) (map join wss)) ≡ some c)
      × (programs t false no_fds [] (exec_cmd os c) ≡ chain t [] (cmd_of ws) (map cmd_of wss))
parse_line-exec_cmd v os ws wss t w h hs = (
  nest (execcmd (cmd_of ws)) (map execcmd (map cmd_of wss)),
  parse_line-nest v (join ws) (map join wss) (execcmd (cmd_of ws)) (map execcmd (map cmd_of wss))
      (join-IsStage ws h.some_words h.words) (parse_cmd-join true v os ws h)
      (cmds-Parses v os wss hs),
  exec_cmd-chain os (map cmd_of wss) (cmd_of ws) t false no_fds [] w (cmd_of-Simple os ws h)
      (cmds-Simple os wss hs),
)
