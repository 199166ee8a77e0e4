-- ===== src/Strings/Numbers.antt =====
-- What `printnum` prints, `strtol` reads.
use mathlib.Core.List.{append-nil, append_assoc}
use native.Mathlib.Nat.{div-add-mod', mod-lt, mod-eq_of_lt, mul-le-mul_left}
use sis_ops.Common.{
  ℕ, zero, suc, ◌+◌, ◌-◌, ◌*◌, ◌/◌, ◌%◌, ◌^◌, ◌<◌, ◌≤◌, ◌≡◌, ◌≢◌, refl, sym, ap, ◌∙◌, inl, inr,
  List, [], ◌∷◌, ◌++◌, some, true, false, if◌then◌else◌, ◌==◌, leb, arith, Bool-cases, replicate,
  All,
}
use sis_ops.Strings.{
  digit_char, put_digits, printnum, digit_of, take_digits, skip_blanks, take_sign, take_base,
  hex_prefix, strtol,
}

-- The digits without what comes before them.
digits : ℕ → ℕ → ℕ → List ℕ
digits zero num base = []
digits (suc n) num base =
    let before = digits n (num / base) base in
    (if leb base num then before else []) ++ (digit_char (num % base) ∷ [])

digits-more :
    (n num base : ℕ)
    → base ≤ num
    → digits (suc n) num base ≡ digits n (num / base) base ++ (digit_char (num % base) ∷ [])
unfolding digits
digits-more n num base h = let t : leb base num ≡ true = ground arith in rw t refl

digits-one : (n num base : ℕ) → num < base → digits (suc n) num base ≡ digit_char num ∷ []
unfolding digits
digits-one n num base h =
    let t : leb base num ≡ false = ground arith in
    let m : num % base ≡ num = mod-eq_of_lt h in rw (t, m) refl

-- The value of a number is that of its digits before the last, and the last.
halves :
    (num base : ℕ)
    → 2 ≤ base
    → (num / base * base + num % base ≡ num) × (num % base < base) × (num / base * 2 ≤ num)
halves num base h =
    let whole = div-add-mod' num base in
    let twice = mul-le-mul_left (num / base) h in (whole, mod-lt num (omega arith), omega arith)

digit_of-digit_char : (d : ℕ) → d < 16 → digit_of (digit_char d) ≡ some d
digit_of-digit_char d h = ground arith

take_digits-some :
    (base c d val : ℕ) (s : List ℕ)
    → digit_of c ≡ some d
    → d < base
    → take_digits base (c ∷ s) val ≡ take_digits base s ((val * base + d) % 2 ^ 32)
unfolding take_digits
take_digits-some base c d val s e h =
    let t : leb base d ≡ false = ground arith in rw (e, take_digits) (rw t refl)

take_digits-digit :
    (base d val : ℕ) (s : List ℕ)
    → d < base
    → base ≤ 16
    → take_digits base (digit_char d ∷ s) val ≡ take_digits base s ((val * base + d) % 2 ^ 32)
take_digits-digit base d val s h k =
    take_digits-some base (digit_char d) d val s (digit_of-digit_char d (omega arith)) h

take_digits-digits :
    (n num base : ℕ) (s : List ℕ)
    → 2 ≤ base
    → base ≤ 16
    → num < 2 ^ n
    → num < 2 ^ 32
    → take_digits base (digits n num base ++ s) 0 ≡ take_digits base s num
take_digits-digits zero num base s two top h small =
    let z : 0 ≡ num = omega arith in unfold digits in ap (take_digits base s) z
take_digits-digits (suc n) num base s two top h small =
    let parts = halves num base two in
    let q = num / base in
    let double : 2 ^ suc n ≡ 2 ^ n * 2 = omega arith in
    let half : q < 2 ^ n = omega arith in
    let whole : (q * base + num % base) % 2 ^ 32 ≡ num =
      ap (λ (x : ℕ). x % 2 ^ 32) parts.0 ∙ mod-eq_of_lt small in
    elim (Bool-cases (leb base num)) [
      | inl more ↦
          let d : ℕ = digit_char (num % base) in
          ap (λ (x : List ℕ). take_digits base (x ++ s) 0) (digits-more n num base (ground arith))
          ∙ ap (λ (x : List ℕ). take_digits base x 0) (append_assoc (digits n q base) (d ∷ []) s)
          ∙ take_digits-digits n q base (d ∷ s) two top half (omega arith)
          ∙ take_digits-digit base (num % base) q s parts.1 top
          ∙ ap (take_digits base s) whole
      | inr last ↦
          let low : num < base = ground arith in
          ap (λ (x : List ℕ). take_digits base (x ++ s) 0) (digits-one n num base low)
          ∙ take_digits-digit base num 0 s low top
          ∙ ap (take_digits base s) (omega arith)
    ]

-- A character of a printed number: a digit, or a letter up to f.
abbrev IsDigit : ℕ → Type 0
IsDigit c = (48 ≤ c) × (c ≤ 102) × (c ≢ 120)

All-snoc : (P : ℕ → Type 0) (s : List ℕ) (c : ℕ) → All P s → P c → All P (s ++ (c ∷ []))
All-snoc P [] c h p = (p, tt)
All-snoc P (d ∷ s) c h p = (h.0, All-snoc P s c h.1 p)

digits-IsDigit : (n num base : ℕ) → 2 ≤ base → base ≤ 16 → All IsDigit (digits n num base)
digits-IsDigit zero num base two top = unfold digits in tt
digits-IsDigit (suc n) num base two top =
    let parts = halves num base two in
    elim (Bool-cases (leb base num)) [
      | inl more ↦ rw (digits-more n num base (ground arith)) (
          All-snoc IsDigit (digits n (num / base) base) (digit_char (num % base))
            (digits-IsDigit n (num / base) base two top) (digit (num % base) (omega arith)))
      | inr last ↦ rw (digits-one n num base (ground arith)) (digit num (ground arith), tt)
    ]
  where
    digit : (d : ℕ) → d < 16 → IsDigit (digit_char d)
    digit d h = (ground arith, ground arith, λ e. ground arith)

hex_prefix-IsDigit : (s : List ℕ) → All IsDigit s → hex_prefix s ≡ false
hex_prefix-IsDigit [] d = refl
hex_prefix-IsDigit (c ∷ []) d = refl
hex_prefix-IsDigit (c ∷ x ∷ s) d = let n = d.1.0.2 in ground arith

take_base_lem :
    (base : ℕ) (s : List ℕ) → base ≢ 0 → hex_prefix s ≡ false → take_base base s ≡ (base, s)
take_base_lem base s h p = let z : (base == 0) ≡ false = ground arith in rw (p, z) (ground arith)

take_sign-IsDigit : (s : List ℕ) → All IsDigit s → take_sign (skip_blanks s) ≡ (false, s)
unfolding skip_blanks
take_sign-IsDigit [] d = refl
take_sign-IsDigit (c ∷ s) d = let low = d.0.0 in ground arith

-- Without pad characters in it, a number is read from its first character on.
strtol-digits :
    (s : List ℕ) (base : ℕ) → base ≢ 0 → All IsDigit s → strtol s base ≡ take_digits base s 0
unfolding strtol
strtol-digits s base h d =
    rw (take_sign-IsDigit s d) (rw (take_base_lem base s h (hex_prefix-IsDigit s d)) refl)

skip_blanks-replicate : (n : ℕ) (s : List ℕ) → skip_blanks (replicate n 32 ++ s) ≡ skip_blanks s
unfolding skip_blanks
skip_blanks-replicate zero s = refl
skip_blanks-replicate (suc n) s = skip_blanks-replicate n s

strtol-replicate : (n base : ℕ) (s : List ℕ) → strtol (replicate n 32 ++ s) base ≡ strtol s base
unfolding strtol
strtol-replicate n base s = rw (skip_blanks-replicate n s) refl

-- The pad characters come before the digits.
put_digits-digits :
    (n num base width padc : ℕ)
    → (k : ℕ) × (put_digits n num base width padc ≡ replicate k padc ++ digits n num base)
put_digits-digits zero num base width padc = (0, unfold digits in unfold put_digits in refl)
put_digits-digits (suc n) num base width padc =
    let d = digit_char (num % base) ∷ [] in
    let before = put_digits-digits n (num / base) base (width - 1) padc in
    elim (Bool-cases (leb base num)) [
      | inl more ↦ (
        before.0,
        put_digits-more n num base width padc more
            ∙ ap (λ (x : List ℕ). x ++ d) before.1
            ∙ append_assoc (replicate before.0 padc) (digits n (num / base) base) d
            ∙ ap (λ (x : List ℕ). replicate before.0 padc ++ x)
                (sym (digits-more n num base (ground arith))),
      )
      | inr last ↦ (
        width - 1,
        put_digits-last n num base width padc last
            ∙ ap (λ (x : List ℕ). replicate (width - 1) padc ++ x)
                (sym (digits-last n num base last)),
      )
    ]
  where
    put_digits-more :
        (n num base width padc : ℕ)
        → leb base num ≡ true
        → put_digits (suc n) num base width padc
          ≡ put_digits n (num / base) base (width - 1) padc ++ (digit_char (num % base) ∷ [])
    put_digits-more n num base width padc t = unfold put_digits in rw t refl

    put_digits-last :
        (n num base width padc : ℕ)
        → leb base num ≡ false
        → put_digits (suc n) num base width padc
          ≡ replicate (width - 1) padc ++ (digit_char (num % base) ∷ [])
    put_digits-last n num base width padc t = unfold put_digits in rw t refl

    digits-last :
        (n num base : ℕ)
        → leb base num ≡ false
        → digits (suc n) num base ≡ digit_char (num % base) ∷ []
    digits-last n num base t = unfold digits in rw t refl

-- A number of 32 bits that `printnum` prints in a base from 2 to 16, padded with blanks to whatever
-- width, is what `strtol` reads, and nothing is left of the string.
pub strtol-printnum :
    (num base width : ℕ)
    → 2 ≤ base
    → base ≤ 16
    → num < 2 ^ 32
    → strtol (printnum num base width 32) base ≡ ([], num)
unfolding printnum
strtol-printnum num base width two top small =
    let printed = put_digits-digits 64 num base width 32 in
    ap (λ (x : List ℕ). strtol x base) printed.1
    ∙ strtol-replicate printed.0 base (digits 64 num base)
    ∙ strtol-digits (digits 64 num base) base (λ e. omega arith)
        (digits-IsDigit 64 num base two top)
    ∙ ap (λ (x : List ℕ). take_digits base x 0) (sym (append-nil (digits 64 num base)))
    ∙ take_digits-digits 64 num base [] two top (omega arith) small
    ∙ unfold take_digits in refl

-- Without a width there are the digits alone.
put_digits-narrow : (n num base padc : ℕ) → put_digits n num base 0 padc ≡ digits n num base
unfolding digits put_digits
put_digits-narrow zero num base padc = refl
put_digits-narrow (suc n) num base padc =
    let before = put_digits-narrow n (num / base) base padc in
    ap (λ (x : List ℕ). (if leb base num then x else []) ++ (digit_char (num % base) ∷ [])) before

strtol-sign :
    (s : List ℕ) (r : List ℕ × ℕ)
    → All IsDigit s
    → take_digits 10 s 0 ≡ r
    → strtol (45 ∷ s) 10 ≡ (r.0, (2 ^ 32 - r.1) % 2 ^ 32)
unfolding strtol skip_blanks
strtol-sign s r d e =
    ap (λ (b : ℕ × List ℕ). let r = take_digits b.0 b.1 0 in (r.0, (2 ^ 32 - r.1) % 2 ^ 32))
      (take_base_lem 10 s (λ z. omega arith) (hex_prefix-IsDigit s d))
    ∙ ap (λ (x : List ℕ × ℕ). (x.0, (2 ^ 32 - x.1) % 2 ^ 32)) e

-- A number that is printed behind a minus sign.
pub strtol-minus :
    (num : ℕ) → num < 2 ^ 32 → strtol (45 ∷ printnum num 10 0 32) 10 ≡ ([], (2 ^ 32 - num) % 2 ^ 32)
unfolding printnum
strtol-minus num small =
    ap (λ (x : List ℕ). strtol (45 ∷ x) 10) (put_digits-narrow 64 num 10 32)
    ∙ strtol-sign (digits 64 num 10) ([], num)
        (digits-IsDigit 64 num 10 (omega arith) (omega arith))
        (ap (λ (x : List ℕ). take_digits 10 x 0) (sym (append-nil (digits 64 num 10)))
          ∙ take_digits-digits 64 num 10 [] (omega arith) (omega arith) (omega arith) small
          ∙ unfold take_digits in refl)
