-- ===== src/Common/Bits.antt =====
-- `|` and `&` on the digits of a number, as arithmetic: what packs and reads a page table entry.
use Prim.Native.Nat.{
  ℕ, zero, suc, ◌+◌, ◌*◌, ◌/◌, ◌%◌, ◌^◌, ◌<◌, ◌≤◌, min, max, bit_and, bit_or, digits,
  bit_and-bitwise, bit_or-bitwise,
}
use mathlib.Core.Path.{◌≡◌, refl, ap, ap₂}
use native.Mathlib.Omega.{arith}

-- The digits of `a | b` and `a & b`, from a count that is at least `a`.
abbrev or_of : ℕ → ℕ → ℕ → ℕ
or_of n a b = digits (λ b. b) max n a b

abbrev and_of : ℕ → ℕ → ℕ → ℕ
and_of n a b = digits (λ b. zero) min n a b

or_of-count : (n a b : ℕ) → a ≤ n → or_of n a b ≡ or_of a a b
or_of-count n a b h = or_of-counts n a a b h (omega arith)
  where
    or_of-counts : (n k a b : ℕ) → a ≤ n → a ≤ k → or_of n a b ≡ or_of k a b
    or_of-counts zero zero a b p q = refl
    or_of-counts zero (suc k) zero b p q = refl
    or_of-counts zero (suc k) (suc a) b p q = absurd (omega arith)
    or_of-counts (suc n) zero zero b p q = refl
    or_of-counts (suc n) zero (suc a) b p q = absurd (omega arith)
    or_of-counts (suc n) (suc k) zero b p q = refl
    or_of-counts (suc n) (suc k) (suc a) b p q =
        let low = or_of-counts n k (suc a / 2) (b / 2) (omega arith) (omega arith) in omega arith

and_of-count : (n a b : ℕ) → a ≤ n → and_of n a b ≡ and_of a a b
and_of-count n a b h = and_of-counts n a a b h (omega arith)
  where
    and_of-counts : (n k a b : ℕ) → a ≤ n → a ≤ k → and_of n a b ≡ and_of k a b
    and_of-counts zero zero a b p q = refl
    and_of-counts zero (suc k) zero b p q = refl
    and_of-counts zero (suc k) (suc a) b p q = absurd (omega arith)
    and_of-counts (suc n) zero zero b p q = refl
    and_of-counts (suc n) zero (suc a) b p q = absurd (omega arith)
    and_of-counts (suc n) (suc k) zero b p q = refl
    and_of-counts (suc n) (suc k) (suc a) b p q =
        let low = and_of-counts n k (suc a / 2) (b / 2) (omega arith) (omega arith) in omega arith

pub zero-bit_or : (b : ℕ) → bit_or 0 b ≡ b
zero-bit_or b = bit_or-bitwise 0 b

zero-bit_and : (b : ℕ) → bit_and 0 b ≡ 0
zero-bit_and b = bit_and-bitwise 0 b

-- The last digit and the others.
pub bit_or-halves : (a b : ℕ) → bit_or a b ≡ bit_or (a / 2) (b / 2) * 2 + max (a % 2) (b % 2)
bit_or-halves zero b = omega (arith, zero-bit_or b, zero-bit_or (b / 2))
bit_or-halves (suc a) b =
    let whole = bit_or-bitwise (suc a) b in
    let half = bit_or-bitwise (suc a / 2) (b / 2) in
    let count = or_of-count a (suc a / 2) (b / 2) (omega arith) in omega arith

pub bit_and-halves : (a b : ℕ) → bit_and a b ≡ bit_and (a / 2) (b / 2) * 2 + min (a % 2) (b % 2)
bit_and-halves zero b = omega (arith, zero-bit_and b, zero-bit_and (b / 2))
bit_and-halves (suc a) b =
    let whole = bit_and-bitwise (suc a) b in
    let half = bit_and-bitwise (suc a / 2) (b / 2) in
    let count = and_of-count a (suc a / 2) (b / 2) (omega arith) in omega arith

bit_or-zero_below : (n a : ℕ) → a ≤ n → bit_or a 0 ≡ a
bit_or-zero_below n zero h = refl
bit_or-zero_below zero (suc a) h = absurd (omega arith)
bit_or-zero_below (suc n) (suc a) h =
    let half = bit_or-zero_below n (suc a / 2) (omega arith) in
    omega (arith, bit_or-halves (suc a) 0)

pub bit_or-zero : (a : ℕ) → bit_or a 0 ≡ a
bit_or-zero a = bit_or-zero_below a a (omega arith)

bit_and-zero_below : (n a : ℕ) → a ≤ n → bit_and a 0 ≡ 0
bit_and-zero_below n zero h = refl
bit_and-zero_below zero (suc a) h = absurd (omega arith)
bit_and-zero_below (suc n) (suc a) h =
    let half = bit_and-zero_below n (suc a / 2) (omega arith) in
    omega (arith, bit_and-halves (suc a) 0)

pub bit_and-zero : (a : ℕ) → bit_and a 0 ≡ 0
bit_and-zero a = bit_and-zero_below a a (omega arith)

-- Four digits at a time.
bit_or-nibble : (a b : ℕ) → bit_or (16 * a) b ≡ bit_or a (b / 16) * 16 + b % 16
bit_or-nibble a b =
    let e : 16 * a / 2 / 2 / 2 / 2 ≡ a = omega arith in
    let f : b / 2 / 2 / 2 / 2 ≡ b / 16 = omega arith in
    let last = ap₂ bit_or e f in
    omega (
      arith,
      bit_or-halves (16 * a) b,
      bit_or-halves (16 * a / 2) (b / 2),
      bit_or-halves (16 * a / 2 / 2) (b / 2 / 2),
      bit_or-halves (16 * a / 2 / 2 / 2) (b / 2 / 2 / 2),
    )

-- A page's address or'ed with flags.
pub bit_or-page : (a b : ℕ) → bit_or (a * 4096) b ≡ bit_or a (b / 4096) * 4096 + b % 4096
bit_or-page a b =
    let e : a * 4096 ≡ 16 * (16 * (16 * a)) = omega arith in
    let f : b / 16 / 16 / 16 ≡ b / 4096 = omega arith in
    let last = ap (bit_or a) f in
    let whole = ap (λ (t : ℕ). bit_or t b) e in
    omega (
      arith,
      bit_or-nibble (16 * (16 * a)) b,
      bit_or-nibble (16 * a) (b / 16),
      bit_or-nibble a (b / 16 / 16),
    )

-- The lowest flag set.
pub bit_or-one : (a : ℕ) → bit_or a 1 ≡ a / 2 * 2 + 1
bit_or-one a = omega (arith, bit_or-halves a 1, bit_or-zero (a / 2))

bit_or-div_nibble : (a b : ℕ) → bit_or a b / 16 ≡ bit_or (a / 16) (b / 16)
bit_or-div_nibble a b =
    let e : a / 2 / 2 / 2 / 2 ≡ a / 16 = omega arith in
    let f : b / 2 / 2 / 2 / 2 ≡ b / 16 = omega arith in
    let last = ap₂ bit_or e f in
    omega (
      arith,
      bit_or-halves a b,
      bit_or-halves (a / 2) (b / 2),
      bit_or-halves (a / 2 / 2) (b / 2 / 2),
      bit_or-halves (a / 2 / 2 / 2) (b / 2 / 2 / 2),
    )

-- The page of one entry or'ed with another.
pub bit_or-div_page : (a b : ℕ) → bit_or a b / 4096 ≡ bit_or (a / 4096) (b / 4096)
bit_or-div_page a b =
    let e : a / 16 / 16 / 16 ≡ a / 4096 = omega arith in
    let f : b / 16 / 16 / 16 ≡ b / 4096 = omega arith in
    let last = ap₂ bit_or e f in
    omega (
      arith,
      bit_or-div_nibble a b,
      bit_or-div_nibble (a / 16) (b / 16),
      bit_or-div_nibble (a / 16 / 16) (b / 16 / 16),
    )

bit_and-nibble : (a b : ℕ) → bit_and a b ≡ bit_and (a / 16) (b / 16) * 16 + bit_and a b % 16
bit_and-nibble a b =
    let e : a / 2 / 2 / 2 / 2 ≡ a / 16 = omega arith in
    let f : b / 2 / 2 / 2 / 2 ≡ b / 16 = omega arith in
    let last = ap₂ bit_and e f in
    omega (
      arith,
      bit_and-halves a b,
      bit_and-halves (a / 2) (b / 2),
      bit_and-halves (a / 2 / 2) (b / 2 / 2),
      bit_and-halves (a / 2 / 2 / 2) (b / 2 / 2 / 2),
    )

bit_and-div_page : (a b : ℕ) → bit_and a b / 4096 ≡ bit_and (a / 4096) (b / 4096)
bit_and-div_page a b =
    let e : a / 16 / 16 / 16 ≡ a / 4096 = omega arith in
    let f : b / 16 / 16 / 16 ≡ b / 4096 = omega arith in
    let last = ap₂ bit_and e f in
    omega (
      arith,
      bit_and-nibble a b,
      bit_and-nibble (a / 16) (b / 16),
      bit_and-nibble (a / 16 / 16) (b / 16 / 16),
    )

-- Four digits that are all set.
bit_and-ones : (a b : ℕ) → bit_and a (16 * b + 15) ≡ bit_and (a / 16) b * 16 + a % 16
bit_and-ones a b =
    let e : a / 2 / 2 / 2 / 2 ≡ a / 16 = omega arith in
    let f1 : (16 * b + 15) / 2 ≡ 8 * b + 7 = omega arith in
    let f2 : (8 * b + 7) / 2 ≡ 4 * b + 3 = omega arith in
    let f3 : (4 * b + 3) / 2 ≡ 2 * b + 1 = omega arith in
    let f4 : (2 * b + 1) / 2 ≡ b = omega arith in
    let h1 = bit_and-halves a (16 * b + 15) in
    let h2 = bit_and-halves (a / 2) (8 * b + 7) in
    let h3 = bit_and-halves (a / 2 / 2) (4 * b + 3) in
    let h4 = bit_and-halves (a / 2 / 2 / 2) (2 * b + 1) in
    omega (
      arith,
      h1,
      h2,
      h3,
      h4,
      ap (bit_and (a / 2)) f1,
      ap (bit_and (a / 2 / 2)) f2,
      ap (bit_and (a / 2 / 2 / 2)) f3,
      ap₂ bit_and e f4,
    )

bit_and-low_twenty : (a : ℕ) → bit_and a 1048575 ≡ bit_and (a / 1048576) 0 * 1048576 + a % 1048576
bit_and-low_twenty a =
    let e : a / 16 / 16 / 16 / 16 / 16 ≡ a / 1048576 = omega arith in
    let last = ap (λ (x : ℕ). bit_and x 0) e in
    omega (
      arith,
      bit_and-ones a 65535,
      bit_and-ones (a / 16) 4095,
      bit_and-ones (a / 16 / 16) 255,
      bit_and-ones (a / 16 / 16 / 16) 15,
      bit_and-ones (a / 16 / 16 / 16 / 16) 0,
      last,
    )

-- Bits that a mask of 32 bits leaves out of a page's number.
pub bit_and-high_mask : (a b : ℕ) → b / 4096 ≡ 1048575 → a < 2 ^ 32 → bit_and a b / 4096 ≡ a / 4096
bit_and-high_mask a b e h =
    let whole = bit_and-div_page a b in
    let low = bit_and-low_twenty (a / 4096) in
    let mask = ap (bit_and (a / 4096)) e in
    let none_above = zero-bit_and 0 in
    let small : a / 4096 / 1048576 ≡ 0 = omega arith in
    let zero_above = ap (λ (x : ℕ). bit_and x 0) small in omega arith
