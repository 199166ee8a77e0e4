-- ===== src/Strings/Format.antt =====
-- `vprintfmt` of sched/lib/printfmt.c. The text that it puts out is a list of bytes; what it reads with
-- `va_arg` is a list of arguments, and to read one of another kind is an outcome of its own, `none`.
use sis_ops.Common.{
  ℕ, ◌+◌, ◌-◌, ◌*◌, ◌%◌, ◌^◌, List, [], ◌∷◌, ◌++◌, Option, some, none, Bool, true, false, ◌&&◌,
  ◌||◌, if◌then◌else◌, ◌==◌, leb, ltb, replicate, ℤ, pos, negsuc, pos_part, int_of, take, length,
}
use sis_ops.Strings.{printnum}

-- An `int`, a `long` or a pointer that is printed; a `long long`; a string, which may be null.
pub data Arg : Type 0 where
  word : ℕ → Arg
  quad : ℕ → Arg
  string : Option (List ℕ) → Arg

-- The variables of the loop. A width or precision that is negative is not given.
pub record Spec : Type 0 where
  pub padc : ℕ
  pub width : ℤ
  pub precision : ℤ
  pub lflag : ℕ
  pub altflag : Bool

abbrev pub no_spec : Spec
no_spec = record { padc = 32; width = negsuc 0; precision = negsuc 0; lflag = 0; altflag = false }

-- Where the loop is: in plain text, behind a `%`, or in the digits of a number. `seen` are the
-- characters behind the `%`.
pub data Mode : Type 0 where
  plain : Mode
  escape : Spec → List ℕ → Mode
  digits : Spec → ℕ → List ℕ → Mode

-- What one character puts out, and how it goes on.
abbrev Step : Type 0
Step = Option (List ℕ × (Mode × List Arg))

-- The end of an escape sequence.
abbrev puts : List ℕ → List Arg → Step
puts out args = some (out, (plain, args))

abbrev is_negative : ℤ → Bool
is_negative (pos n) = false
is_negative (negsuc n) = true

-- `process_precision`
abbrev process_precision : Spec → ℤ → Spec
process_precision s p =
    if is_negative s.width
    then record s { width = p; precision = negsuc 0 }
    else record s { precision = p }

-- `getuint` and `getint`, as words of 64 bits.
abbrev getuint : List Arg → ℕ → Option (ℕ × List Arg)
getuint [] lflag = none
getuint (word a ∷ args) lflag = if leb 2 lflag then none else some (a, args)
getuint (quad a ∷ args) lflag = if leb 2 lflag then some (a, args) else none
getuint (string s ∷ args) lflag = none

abbrev getint : List Arg → ℕ → Option (ℕ × List Arg)
getint args lflag = elim (getuint args lflag) [
  | none ↦ none
  | some (a, rest) ↦ some (if ltb lflag 2 && leb (2 ^ 31) a then a + (2 ^ 64 - 2 ^ 32) else a, rest)
]

-- `number`
abbrev number : Spec → ℕ → ℕ → List ℕ
number s num base = printnum num base (pos_part s.width) s.padc

-- The sign, and the number without it.
abbrev pub signed : Spec → ℕ → List ℕ
signed s num = if leb (2 ^ 63) num then 45 ∷ number s (2 ^ 64 - num) 10 else number s num 10

abbrev shown : Bool → ℕ → ℕ
shown altflag c = if altflag && (ltb c 32 || ltb 126 c) then 63 else c

abbrev show_all : Bool → List ℕ → List ℕ
show_all altflag [] = []
show_all altflag (c ∷ s) = shown altflag c ∷ show_all altflag s

-- A string: its beginning, if there is a precision, padded to the width on the left or on the right.
abbrev text : Spec → List ℕ → List ℕ
text s str =
    let cut = if is_negative s.precision then str else take (pos_part s.precision) str in
    let room = pos_part s.width - length cut in
    if s.padc == 45
    then show_all s.altflag cut ++ replicate room 32
    else replicate room s.padc ++ show_all s.altflag cut

-- `error_string`
abbrev error_string : ℕ → Option (List ℕ)
error_string err =
    if err == 1
    then some (
        b'u' ∷ b'n' ∷ b's' ∷ b'p' ∷ b'e' ∷ b'c' ∷ b'i' ∷ b'f' ∷ b'i' ∷ b'e' ∷ b'd' ∷ b' ' ∷ b'e'
        ∷ b'r' ∷ b'r' ∷ b'o' ∷ b'r' ∷ [])
    else if err == 2
    then some (
        b'b' ∷ b'a' ∷ b'd' ∷ b' ' ∷ b'e' ∷ b'n' ∷ b'v' ∷ b'i' ∷ b'r' ∷ b'o' ∷ b'n' ∷ b'm' ∷ b'e'
        ∷ b'n' ∷ b't' ∷ [])
    else if err == 3
    then some (
        b'i' ∷ b'n' ∷ b'v' ∷ b'a' ∷ b'l' ∷ b'i' ∷ b'd' ∷ b' ' ∷ b'p' ∷ b'a' ∷ b'r' ∷ b'a' ∷ b'm'
        ∷ b'e' ∷ b't' ∷ b'e' ∷ b'r' ∷ [])
    else if err == 4
    then some (
        b'o' ∷ b'u' ∷ b't' ∷ b' ' ∷ b'o' ∷ b'f' ∷ b' ' ∷ b'm' ∷ b'e' ∷ b'm' ∷ b'o' ∷ b'r' ∷ b'y'
        ∷ [])
    else if err == 5
    then some (
        b'o' ∷ b'u' ∷ b't' ∷ b' ' ∷ b'o' ∷ b'f' ∷ b' ' ∷ b'e' ∷ b'n' ∷ b'v' ∷ b'i' ∷ b'r' ∷ b'o'
        ∷ b'n' ∷ b'm' ∷ b'e' ∷ b'n' ∷ b't' ∷ b's' ∷ [])
    else if err == 6
    then some (
        b's' ∷ b'e' ∷ b'g' ∷ b'm' ∷ b'e' ∷ b'n' ∷ b't' ∷ b'a' ∷ b't' ∷ b'i' ∷ b'o' ∷ b'n' ∷ b' '
        ∷ b'f' ∷ b'a' ∷ b'u' ∷ b'l' ∷ b't' ∷ [])
    else if err == 7
    then some (
        b'e' ∷ b'n' ∷ b'v' ∷ b' ' ∷ b'i' ∷ b's' ∷ b' ' ∷ b'n' ∷ b'o' ∷ b't' ∷ b' ' ∷ b'r' ∷ b'e'
        ∷ b'c' ∷ b'v' ∷ b'i' ∷ b'n' ∷ b'g' ∷ [])
    else if err == 8
    then some (
        b'u' ∷ b'n' ∷ b'e' ∷ b'x' ∷ b'p' ∷ b'e' ∷ b'c' ∷ b't' ∷ b'e' ∷ b'd' ∷ b' ' ∷ b'e' ∷ b'n'
        ∷ b'd' ∷ b' ' ∷ b'o' ∷ b'f' ∷ b' ' ∷ b'f' ∷ b'i' ∷ b'l' ∷ b'e' ∷ [])
    else none

-- The message for an error code. The least `int` has no absolute value.
abbrev message : ℕ → Option (List ℕ)
message err =
    if err == 2 ^ 31
    then none
    else let e = if ltb (2 ^ 31) err then 2 ^ 32 - err else err in
      elim (error_string e) [
        | none ↦ some ((b'e' ∷ b'r' ∷ b'r' ∷ b'o' ∷ b'r' ∷ b' ' ∷ []) ++ printnum e 10 0 32)
        | some m ↦ some m
      ]

-- The flags: what one leaves of the variables, if the character is one.
abbrev flag : Spec → ℕ → Option Spec
flag s c =
    if c == b'-'
    then some (record s { padc = b'-' })
    else if c == b'0'
    then some (record s { padc = b'0' })
    else if c == b'.'
    then some (if is_negative s.width then record s { width = pos 0 } else s)
    else if c == b'#'
    then some (record s { altflag = true })
    else if c == b'l'
    then some (record s { lflag = s.lflag + 1 })
    else none

-- `va_arg(ap, int)` and the like, and what is done with it.
abbrev with_word : List Arg → (ℕ → List Arg → Step) → Step
with_word (word a ∷ args) f = f a args
with_word _ f = none

abbrev with_number : Option (ℕ × List Arg) → (ℕ → List ℕ) → Step
with_number none f = none
with_number (some (num, args)) f = puts (f num) args

abbrev null_text : List ℕ
null_text = b'(' ∷ b'n' ∷ b'u' ∷ b'l' ∷ b'l' ∷ b')' ∷ []

abbrev with_string : List Arg → (List ℕ → List ℕ) → Step
with_string (string none ∷ args) f = puts (f null_text) args
with_string (string (some s) ∷ args) f = puts (f s) args
with_string _ f = none

-- The characters that end an escape sequence. Of an unknown one, all from the `%` on is put out: the text
-- from there is plain, since no `%` is in it.
unfoldable pub conversion : Spec → List ℕ → ℕ → List Arg → Step
conversion s seen c args =
    if c == b'c'
    then (with_word args λ a rest. puts (a % 256 ∷ []) rest)
    else if c == b'e'
    then (with_word args λ a rest. elim (message a) [ none ↦ none | some m ↦ puts m rest ])
    else if c == b's'
    then with_string args (text s)
    else if c == b'd'
    then with_number (getint args s.lflag) (signed s)
    else if c == b'u'
    then with_number (getuint args s.lflag) (λ num. number s num 10)
    else if c == b'o'
    then with_number (getuint args s.lflag) (λ num. number s num 8)
    else if c == b'p'
    then (with_word args λ a rest. puts (b'0' ∷ b'x' ∷ number s a 16) rest)
    else if c == b'x'
    then with_number (getuint args s.lflag) (λ num. number s num 16)
    else if c == b'%'
    then puts (b'%' ∷ []) args
    else puts (b'%' ∷ (seen ++ (c ∷ []))) args

-- One round of the `switch`.
unfoldable pub escaped : Spec → List ℕ → ℕ → List Arg → Step
unfolding conversion
escaped s seen c args = elim (flag s c) [
  | some s' ↦ some ([], (escape s' (seen ++ (c ∷ [])), args))
  | none ↦
      if leb b'1' c && leb c b'9'
      then some ([], (digits s (c - b'0') (seen ++ (c ∷ [])), args))
      else if c == b'*'
      then (with_word args
          λ a rest. some ([], (escape (process_precision s (int_of a)) (seen ++ (c ∷ [])), rest)))
      else conversion s seen c args
]

-- A character where the loop is.
unfoldable pub step_char : Mode → ℕ → List Arg → Step
unfolding escaped
step_char plain c args =
    if c == b'%' then some ([], (escape no_spec [], args)) else puts (c ∷ []) args
step_char (escape s seen) c args = escaped s seen c args
step_char (digits s n seen) c args =
    if leb b'0' c && leb c b'9'
    then some ([], (digits s (n * 10 + (c - b'0')) (seen ++ (c ∷ [])), args))
    else escaped (process_precision s (pos n)) seen c args

-- The NUL behind the format ends plain text; behind a `%` it is an unknown character.
abbrev finish : Mode → List ℕ
finish plain = []
finish (escape s seen) = b'%' ∷ seen
finish (digits s n seen) = b'%' ∷ seen

unfoldable pub format_from : Mode → List ℕ → List Arg → Option (List ℕ)
unfolding step_char
format_from mode [] args = some (finish mode)
format_from mode (c ∷ fmt) args = elim (step_char mode c args) [
  | none ↦ none
  | some (out, (next, rest)) ↦ elim (format_from next fmt rest) [
    | none ↦ none
    | some more ↦ some (out ++ more)
  ]
]

unfoldable pub vprintfmt : List ℕ → List Arg → Option (List ℕ)
unfolding format_from
vprintfmt fmt args = format_from plain fmt args
