-- ===== src/Strings.antt =====
-- Strings and numbers of sched/lib: string.c and printnum of printfmt.c. A C string is the list of the
-- bytes before its NUL; reading it past the NUL is not modelled, since no function here does so.
pub mod Numbers
pub mod Memory
pub mod Compare
pub mod Format
pub mod Buffer
pub mod Decimal
mod Tests
use sis_ops.Common.{
  ℕ, zero, suc, ◌+◌, ◌-◌, ◌*◌, ◌/◌, ◌%◌, ◌^◌, List, [], ◌∷◌, ◌++◌, Option, some, none, Bool, true,
  false, ◌&&◌, ◌||◌, if◌then◌else◌, ◌==◌, leb, ltb, replicate,
}

-- "0123456789abcdef"[d]
abbrev pub digit_char : ℕ → ℕ
digit_char d = if ltb d 10 then d + 48 else d + 87

-- What `printnum` puts out. The recursion takes a round for each digit; `num` has 64 bits.
pub put_digits : ℕ → ℕ → ℕ → ℕ → ℕ → List ℕ
put_digits zero num base width padc = []
put_digits (suc n) num base width padc =
    let before = put_digits n (num / base) base (width - 1) padc in
    (if leb base num then before else replicate (width - 1) padc) ++ (digit_char (num % base) ∷ [])

pub printnum : ℕ → ℕ → ℕ → ℕ → List ℕ
unfolding put_digits
printnum num base width padc = put_digits 64 num base width padc

-- The value of a digit in `strtol`.
abbrev pub digit_of : ℕ → Option ℕ
digit_of c =
    if leb 48 c && leb c 57
    then some (c - 48)
    else if leb 97 c && leb c 122
    then some (c - 87)
    else if leb 65 c && leb c 90
    then some (c - 55)
    else none

-- The loop over the digits: the rest of the string, and the value, a `long` of 32 bits.
pub take_digits : ℕ → List ℕ → ℕ → List ℕ × ℕ
take_digits base [] val = ([], val)
take_digits base (c ∷ s) val = elim (digit_of c) [
  | none ↦ (c ∷ s, val)
  | some dig ↦
      if leb base dig then (c ∷ s, val) else take_digits base s ((val * base + dig) % 2 ^ 32)
]

-- Initial blanks and tabs.
pub skip_blanks : List ℕ → List ℕ
skip_blanks [] = []
skip_blanks (c ∷ s) = let rest = skip_blanks s in if c == 32 || c == 9 then rest else c ∷ s

-- The sign, and what follows it.
abbrev pub take_sign : List ℕ → Bool × List ℕ
take_sign [] = (false, [])
take_sign (c ∷ s) = if c == 43 then (false, s) else if c == 45 then (true, s) else (false, c ∷ s)

-- Whether a string starts with "0x".
abbrev pub hex_prefix : List ℕ → Bool
hex_prefix (c ∷ d ∷ s) = c == 48 && d == 120
hex_prefix _ = false

abbrev tail : List ℕ → List ℕ
tail [] = []
tail (c ∷ s) = s

abbrev starts_zero : List ℕ → Bool
starts_zero [] = false
starts_zero (c ∷ s) = c == 48

-- The base, and what follows its prefix.
abbrev pub take_base : ℕ → List ℕ → ℕ × List ℕ
take_base base s =
    if (base == 0 || base == 16) && hex_prefix s
    then (16, tail (tail s))
    else if base == 0 && starts_zero s
    then (8, tail s)
    else if base == 0
    then (10, s)
    else (base, s)

-- `strtol`: what `*endptr` points to, and the result as a word of 32 bits.
pub strtol : List ℕ → ℕ → List ℕ × ℕ
unfolding take_digits skip_blanks
strtol s base =
    let signed = take_sign (skip_blanks s) in
    let based = take_base base signed.1 in
    let r = take_digits based.0 based.1 0 in
    (r.0, if signed.0 then (2 ^ 32 - r.1) % 2 ^ 32 else r.1)
