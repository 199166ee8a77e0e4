-- ===== src/Strings/Tests.antt =====
-- Examples for strings, memory and numbers.
use sis_ops.Common.{ℕ, ◌≡◌, refl, List, [], ◌∷◌, ◌++◌, some, arith, replicate, take, paste, pos}
use sis_ops.Strings.Format.{
  Arg, word, string, conversion, escaped, step_char, format_from, vprintfmt,
}
use sis_ops.Strings.Buffer.{vsnprintf, vsnprintf-paste, Printed, vcprintf-Printed}
use sis_ops.Strings.Decimal.{strtol-vprintfmt}
use sis_ops.Strings.{strtol}
use sis_ops.Strings.Memory.{memmove, Moved, memmove-Moved}

-- Eight bytes move up by four, over themselves.
memmove-Moved_example : Moved 104 100 8 (λ a. a) (memmove 104 100 8 (λ a. a))
memmove-Moved_example = memmove-Moved 104 100 8 (λ a. a)

strtol-vprintfmt_example :
    (s : List ℕ) × (vprintfmt (b'%' ∷ b'd' ∷ []) (word 4294967254 ∷ []) ≡ some s)
    × (strtol s 10 ≡ ([], 4294967254))
strtol-vprintfmt_example = strtol-vprintfmt 4294967254 (omega arith)

-- "%4s!" with "hi".
abbrev greeting : List ℕ
greeting = b'%' ∷ b'4' ∷ b's' ∷ b'!' ∷ []

abbrev hi : List Arg
hi = string (some (b'h' ∷ b'i' ∷ [])) ∷ []

abbrev padded : List ℕ
padded = 32 ∷ 32 ∷ b'h' ∷ b'i' ∷ b'!' ∷ []

greeting-padded : vprintfmt greeting hi ≡ some padded
unfolding vprintfmt format_from step_char escaped conversion
greeting-padded = refl

vsnprintf-paste_example :
    vsnprintf (some (replicate 6 7)) 4 greeting hi
    ≡ some (pos 5, paste (take 3 padded ++ (0 ∷ [])) (replicate 6 7))
vsnprintf-paste_example = vsnprintf-paste (replicate 6 7) greeting padded hi 3 greeting-padded

vcprintf-Printed_example : Printed (replicate 256 7) greeting hi padded
vcprintf-Printed_example =
    vcprintf-Printed (replicate 256 7) greeting padded hi refl greeting-padded
