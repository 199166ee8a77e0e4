-- ===== src/Strings/Decimal.antt =====
-- What `vprintfmt` of sched/lib/printfmt.c prints for `%d`.
use mathlib.Core.List.{append-nil}
use sis_ops.Common.{
  ℕ, ◌+◌, ◌-◌, ◌%◌, ◌^◌, ◌<◌, ◌≤◌, ◌≡◌, refl, ap, ◌∙◌, inl, inr, List, [], ◌∷◌, ◌++◌, some, true,
  false, if◌then◌else◌, leb, arith, Bool-cases,
}
use sis_ops.Strings.{printnum, strtol}
use sis_ops.Strings.Numbers.{strtol-printnum, strtol-minus}
use sis_ops.Strings.Format.{
  word, no_spec, signed, conversion, escaped, step_char, format_from, vprintfmt,
}

-- A word of 32 bits with its sign in 64.
abbrev extended : ℕ → ℕ
extended w = if leb (2 ^ 31) w then w + (2 ^ 64 - 2 ^ 32) else w

vprintfmt-signed :
    (w : ℕ) → vprintfmt (b'%' ∷ b'd' ∷ []) (word w ∷ []) ≡ some (signed no_spec (extended w) ++ [])
unfolding vprintfmt format_from step_char escaped conversion
vprintfmt-signed w = refl

-- The sign, and the number, of a word.
signed_lem :
    (w : ℕ)
    → w < 2 ^ 32
    → signed no_spec (extended w)
      ≡ (if leb (2 ^ 31) w then 45 ∷ printnum (2 ^ 32 - w) 10 0 32 else printnum w 10 0 32)
signed_lem w h = elim (Bool-cases (leb (2 ^ 31) w)) [
  | inl t ↦
      let e : leb (2 ^ 63) (w + (2 ^ 64 - 2 ^ 32)) ≡ true = ground arith in
      let n : 2 ^ 64 - (w + (2 ^ 64 - 2 ^ 32)) ≡ 2 ^ 32 - w = omega arith in
      rw t (rw e (ap (λ (x : ℕ). 45 ∷ printnum x 10 0 32) n))
  | inr t ↦ let e : leb (2 ^ 63) w ≡ false = ground arith in rw t (rw e refl)
]

strtol-signed : (w : ℕ) → w < 2 ^ 32 → strtol (signed no_spec (extended w)) 10 ≡ ([], w)
strtol-signed w h = ap (λ (s : List ℕ). strtol s 10) (signed_lem w h) ∙ read w h
  where
    read :
        (w : ℕ)
        → w < 2 ^ 32
        → strtol
            (if leb (2 ^ 31) w then 45 ∷ printnum (2 ^ 32 - w) 10 0 32 else printnum w 10 0 32)
            10
          ≡ ([], w)
    read w h = elim (Bool-cases (leb (2 ^ 31) w)) [
      | inl t ↦
          let low : 2 ^ 31 ≤ w = ground arith in
          let back : (2 ^ 32 - (2 ^ 32 - w)) % 2 ^ 32 ≡ w = omega arith in
          rw t (strtol-minus (2 ^ 32 - w) (omega arith) ∙ ap (λ (x : ℕ). ([], x)) back)
      | inr t ↦ rw t (strtol-printnum w 10 0 (omega arith) (omega arith) h)
    ]

-- What `%d` prints of an `int`, with its sign, `strtol` reads, and nothing is left of the text.
pub strtol-vprintfmt :
    (w : ℕ)
    → w < 2 ^ 32
    → (s : List ℕ) × (vprintfmt (b'%' ∷ b'd' ∷ []) (word w ∷ []) ≡ some s) × (strtol s 10 ≡ ([], w))
strtol-vprintfmt w h = (
  signed no_spec (extended w),
  vprintfmt-signed w ∙ ap some (append-nil (signed no_spec (extended w))),
  strtol-signed w h,
)
