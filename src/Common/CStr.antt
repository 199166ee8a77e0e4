-- ===== src/Common/CStr.antt =====
-- C strings: the bytes before the terminating NUL, as a list of numbers.
use Prim.Native.Nat.{ℕ, zero, suc}
use mathlib.Core.Path.{◌≡◌, refl}
use mathlib.Core.Bool.{Bool, true, false, ◌&&◌}
use mathlib.Core.List.{List, [], ◌∷◌}
use mathlib.Core.Option.{Option, none, some}
use native.Mathlib.Omega.{arith}
use sis_ops.Common.Tests.{◌==◌, if◌then◌else◌}

-- `strcmp(a, b) == 0`
unfoldable pub str_eq : List ℕ → List ℕ → Bool
str_eq [] [] = true
str_eq (a ∷ s) (b ∷ t) = a == b && str_eq s t
str_eq _ _ = false

pub str_eq→eq : (s t : List ℕ) → str_eq s t ≡ true → s ≡ t
unfolding str_eq
str_eq→eq [] [] h = refl
str_eq→eq (a ∷ s) (b ∷ t) h = ground (arith, str_eq→eq s t)
str_eq→eq [] (b ∷ t) h = cc
str_eq→eq (a ∷ s) [] h = cc

pub str_eq_refl : (s : List ℕ) → str_eq s s ≡ true
unfolding str_eq
str_eq_refl [] = refl
str_eq_refl (a ∷ s) = ground (arith, str_eq_refl s)

-- `strlen` of an array: the index of the first NUL, or the whole array.
unfoldable pub strlen : List ℕ → ℕ
strlen [] = 0
strlen (c ∷ r) = if c == 0 then 0 else suc (strlen r)

-- The bytes that `strncpy(_, src, n)` stores: those of `src` up to its NUL, then NULs.
-- The end of the list stands for a NUL.
unfoldable pub strncpy_bytes : ℕ → List ℕ → List ℕ
strncpy_bytes zero src = []
strncpy_bytes (suc n) [] = 0 ∷ strncpy_bytes n []
strncpy_bytes (suc n) (c ∷ src) = c ∷ strncpy_bytes n (if c == 0 then [] else src)

-- What follows the last byte `d`, as `strrchr(s, d) + 1` points to.
unfoldable pub after_last : ℕ → List ℕ → Option (List ℕ)
after_last d [] = none
after_last d (c ∷ r) = elim (after_last d r) [
  | some t ↦ some t
  | none ↦ if c == d then some r else none
]

-- What stands before the last byte `d`, as `*strrchr(s, d) = '\0'` leaves it.
unfoldable pub before_last : ℕ → List ℕ → Option (List ℕ)
before_last d [] = none
before_last d (c ∷ r) = elim (before_last d r) [
  | some t ↦ some (c ∷ t)
  | none ↦ if c == d then some [] else none
]
