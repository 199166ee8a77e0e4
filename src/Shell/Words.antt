-- ===== src/Shell/Words.antt =====
-- A command of plain words is parsed into just these words.
use sis_ops.Common.{
  ℕ, zero, suc, ◌+◌, ◌<◌, ◌≤◌, ◌≡◌, ◌≢◌, refl, ap, ◌∙◌, List, [], ◌∷◌, ◌++◌, Option, some, none,
  false, if◌then◌else◌, ltb, lt→ltb, arith, length, length-append, drop, All,
}
use mathlib.Core.List.{append_assoc, append-nil}
use sis_ops.Shell.{space, buflen, argsize, maxargs, ExecCmd}
use sis_ops.Shell.Text.{block_contains}
use sis_ops.Shell.Parsing.{
  Vars, get_token, parse_redir_flow, is_environ_var, expand_environ_var, push_arg, push_nonempty,
  add_token, ◌>>=◌, exec_loop, of_text, exec_cmd_create, parse_exec,
}

pub block_contains-none : (s : List ℕ) (d : ℕ) → All (λ c. c ≢ d) s → block_contains s d ≡ none
unfolding block_contains
block_contains-none [] d h = refl
block_contains-none (c ∷ r) d h = ground (arith, block_contains-none r d h.1, h.0)

pub block_contains-append :
    (s r : List ℕ) (d : ℕ) → All (λ c. c ≢ d) s → block_contains (s ++ (d ∷ r)) d ≡ some (length s)
unfolding block_contains
block_contains-append [] r d h = ground arith
block_contains-append (c ∷ s) r d h = ground (arith, block_contains-append s r d h.1, h.0)

pub record PlainByte (c : ℕ) : Type 0 where
  pub not_space : c ≢ space
  pub not_out : c ≢ b'>'
  pub not_in : c ≢ b'<'
  pub not_equals : c ≢ b'='
  pub not_dollar : c ≢ b'$'

-- A word with none of the bytes that the parser treats in a special way, which fits in a token.
pub record Plain (w : List ℕ) : Type 0 where
  pub nonempty : w ≢ []
  pub bytes : All PlainByte w
  pub fits : length w < argsize

map-All {ℓ κ} :
    {P : ℕ → Type ℓ} {Q : ℕ → Type κ} (w : List ℕ) → ((c : ℕ) → P c → Q c) → All P w → All Q w
map-All [] f h = tt
map-All (c ∷ w) f h = (f c h.0, map-All w f h.1)

-- What may follow a token.
abbrev IsBreak : List ℕ → Type 0
IsBreak [] = Unit {0}
IsBreak (c ∷ r) = c ≡ space

get_token-append : (w r : List ℕ) → All (λ c. c ≢ space) w → IsBreak r → get_token (w ++ r) ≡ (w, r)
unfolding get_token
get_token-append [] [] h b = refl
get_token-append [] (c ∷ r) h b = ground arith
get_token-append (c ∷ w) r h b = ground (arith, get_token-append w r h.1 b, h.0)

expand-plain : (v : Vars) (w : List ℕ) → All PlainByte w → expand_environ_var v w ≡ w
unfolding expand_environ_var
expand-plain v [] h = refl
expand-plain v (c ∷ w) h = let p = h.0.not_dollar in ground arith

push_nonempty_lem : (c : ExecCmd) (w : List ℕ) → w ≢ [] → push_nonempty c w ≡ push_arg c w
push_nonempty_lem c [] ne = absurd (ne refl)
push_nonempty_lem c (x ∷ w) ne = refl

redir-plain : (w : List ℕ) (c : ExecCmd) → All PlainByte w → parse_redir_flow c w ≡ none
unfolding parse_redir_flow
redir-plain w c p = ground (
  arith,
  block_contains-none w b'>' (map-All w (λ x q. q.not_out) p),
  block_contains-none w b'<' (map-All w (λ x q. q.not_in) p),
)

environ-plain : (w : List ℕ) → All PlainByte w → is_environ_var w ≡ false
unfolding is_environ_var
environ-plain w p = ground (arith, block_contains-none w b'=' (map-All w (λ x q. q.not_equals) p))

add_token-Plain : (v : Vars) (w : List ℕ) (c : ExecCmd) → Plain w → add_token v w c ≡ push_arg c w
unfolding add_token
add_token-Plain v w c p = ground (
  arith,
  redir-plain w c p.bytes,
  environ-plain w p.bytes,
  expand-plain v w p.bytes,
  push_nonempty_lem c w p.nonempty,
)

-- The words with a space between.
unfoldable pub spaced : List (List ℕ) → List ℕ
spaced [] = []
spaced (w ∷ ws) = space ∷ (w ++ spaced ws)

unfoldable pub join : List (List ℕ) → List ℕ
unfolding spaced
join [] = []
join (w ∷ ws) = w ++ spaced ws

spaced-IsBreak : (ws : List (List ℕ)) → IsBreak (spaced ws)
unfolding spaced
spaced-IsBreak [] = tt
spaced-IsBreak (w ∷ ws) = refl

drop-spaced : (ws : List (List ℕ)) → drop 1 (spaced ws) ≡ join ws
unfolding spaced join
drop-spaced [] = refl
drop-spaced (w ∷ ws) = refl

-- The arguments so far with the words, if they leave room for the null.
abbrev with_words : ExecCmd → List (List ℕ) → Option ExecCmd
with_words c ws =
    if ltb (length c.argv + length ws) maxargs
    then some (record c { argv = c.argv ++ ws })
    else none

exec_loop-round :
    (fuel : ℕ) (v : Vars) (w : List ℕ) (ws : List (List ℕ)) (c : ExecCmd)
    → Plain w
    → exec_loop (suc fuel) v (w ++ spaced ws) c
      ≡ (push_arg c w >>= λ c'. exec_loop fuel v (join ws) c')
unfolding exec_loop
exec_loop-round fuel v [] ws c p = absurd (p.nonempty refl)
exec_loop-round fuel v (x ∷ w) ws c p =
    let t =
      get_token-append (x ∷ w) (spaced ws) (map-All (x ∷ w) (λ y q. q.not_space) p.bytes)
        (spaced-IsBreak ws) in
    let small = p.fits in ground (arith, t, add_token-Plain v (x ∷ w) c p, drop-spaced ws)

exec_loop-words :
    (ws : List (List ℕ)) (fuel : ℕ) (v : Vars) (c : ExecCmd)
    → All Plain ws
    → length ws < fuel
    → exec_loop fuel v (join ws) c ≡ with_words c ws
unfolding join exec_loop
exec_loop-words [] zero v c p h = absurd (omega arith)
exec_loop-words [] (suc fuel) v c p h = ground (arith, append-nil c.argv)
exec_loop-words (w ∷ ws) zero v c p h = absurd (omega arith)
exec_loop-words (w ∷ ws) (suc fuel) v c p h =
    let c' : ExecCmd = record c { argv = c.argv ++ (w ∷ []) } in
    ground (
      arith,
      exec_loop-round fuel v w ws c p.0,
      exec_loop-words ws fuel v c' p.1 (omega arith),
      length-append c.argv (w ∷ []),
      append_assoc c.argv (w ∷ []) ws,
    )

length-spaced : (ws : List (List ℕ)) → length ws ≤ length (spaced ws)
unfolding spaced
length-spaced [] = omega arith
length-spaced (w ∷ ws) = omega (arith, length-append w (spaced ws), length-spaced ws)

length-join : (ws : List (List ℕ)) → All Plain ws → length ws ≤ length (join ws)
unfolding join
length-join [] p = omega arith
length-join ([] ∷ ws) p = absurd (p.0.nonempty refl)
length-join ((x ∷ w) ∷ ws) p = omega (arith, length-append w (spaced ws), length-spaced ws)

-- A command of plain words with single spaces between, whose text fits in `scmd`, is parsed into exactly
-- these words, with no redirection and no variable, if there are at most 19; with 20 or more the parser
-- writes past the end of `argv`.
pub parse_exec-join :
    (v : Vars) (ws : List (List ℕ))
    → All Plain ws
    → length (join ws) < buflen
    → parse_exec v (join ws)
      ≡ (if ltb (length ws) maxargs then some (record (of_text (join ws)) { argv = ws }) else none)
unfolding parse_exec exec_cmd_create
parse_exec-join v ws p short =
    let text = of_text (join ws) in
    let z : 0 + length ws ≡ length ws = omega arith in
    rw (lt→ltb (length (join ws)) buflen short) (
      exec_loop-words ws (suc (length (join ws))) v text p (omega (arith, length-join ws p))
      ∙ ap (λ (n : ℕ). if ltb n maxargs then some (record text { argv = ws }) else none) z)
