-- ===== src/Kern/Counting.antt =====
-- How often a page is referred to: by the page directories there are, and by the words of directories
-- and page tables.
use sis_ops.Common.{
  ◌⊎◌, ℕ, zero, suc, ◌+◌, ◌<◌, ◌≤◌, ◌≡◌, ◌≢◌, refl, sym, ap, ap₂, ◌∙◌, inl, inr, List, [], ◌∷◌,
  false, if◌then◌else◌, ◌==◌, arith, Bool-cases, All,
}
use sis_ops.Kern.Links.{Distinct}
use sis_ops.Kern.Paging.{pgnum}
use sis_ops.Kern.AddressMap.{Words, put}

-- One of a list.
abbrev pub In : ℕ → List ℕ → Type 0
In x [] = ⊥
In x (y ∷ ys) = (x ≡ y) ⊎ In x ys

pub In-differs : (x y : ℕ) (ys : List ℕ) → All (λ z. z ≢ x) ys → In y ys → y ≢ x
In-differs x y [] n i = absurd i
In-differs x y (z ∷ ys) n (inl e) = λ h. n.0 (sym e ∙ h)
In-differs x y (z ∷ ys) n (inr i) = In-differs x y ys n.1 i

-- Whether a word refers to a page, as a number.
abbrev pub hit : ℕ → ℕ → ℕ
hit v p = if v == 0 then 0 else if pgnum v == p then 1 else 0

-- The words below `n` that refer to a page.
unfoldable pub row : (ℕ → ℕ) → ℕ → ℕ → ℕ
row f zero p = 0
row f (suc n) p = row f n p + hit (f n) p

unfoldable pub rows : Words → ℕ → List ℕ → ℕ → ℕ
unfolding row
rows w n [] p = 0
rows w n (q ∷ qs) p = row (w q) n p + rows w n qs p

-- How often a page is in a list.
unfoldable pub times : ℕ → List ℕ → ℕ
times p [] = 0
times p (q ∷ qs) = (if q == p then 1 else 0) + times p qs

row-eq : (f g : ℕ → ℕ) (n p : ℕ) → ((j : ℕ) → f j ≡ g j) → row f n p ≡ row g n p
unfolding row
row-eq f g zero p e = refl
row-eq f g (suc n) p e = ap₂ ◌+◌ (row-eq f g n p e) (ap (λ (v : ℕ). hit v p) (e n))

row-above : (f : ℕ → ℕ) (n k v p : ℕ) → n ≤ k → row (λ j. if j == k then v else f j) n p ≡ row f n p
unfolding row
row-above f zero k v p h = refl
row-above f (suc n) k v p h =
    let low : (n == k) ≡ false = ground arith in
    ap₂ ◌+◌ (row-above f n k v p (omega arith)) (rw low refl)

-- A word that changes gives up what it referred to, and refers to something else.
row-put :
    (f : ℕ → ℕ) (n k v p : ℕ)
    → k < n
    → row (λ j. if j == k then v else f j) n p + hit (f k) p ≡ row f n p + hit v p
unfolding row
row-put f zero k v p h = absurd (omega arith)
row-put f (suc n) k v p h = elim (Bool-cases (n == k)) [
  | inl at ↦
      let e : n ≡ k = ground arith in
      let before = row-above f n k v p (omega arith) in
      let old = ap (λ (x : ℕ). hit (f x) p) e in rw at (omega (arith, before, old))
  | inr off ↦ let before = row-put f n k v p (ground arith) in rw off (omega (arith, before))
]

row-pos : (f : ℕ → ℕ) (n k : ℕ) → k < n → f k ≢ 0 → 0 < row f n (pgnum (f k))
unfolding row
row-pos f zero k h e = absurd (omega arith)
row-pos f (suc n) k h e = elim (Bool-cases (n == k)) [
  | inl at ↦
      let same : n ≡ k = ground arith in
      let one : hit (f n) (pgnum (f k)) ≡ 1 = rw same (ground arith) in omega (arith, one)
  | inr off ↦ let before = row-pos f n k (ground arith) e in omega (arith, before)
]

pub row-zero : (f : ℕ → ℕ) (n p : ℕ) → ((j : ℕ) → f j ≡ 0) → row f n p ≡ 0
unfolding row
row-zero f zero p e = refl
row-zero f (suc n) p e =
    let before = row-zero f n p e in
    let none_here : hit (f n) p ≡ 0 = rw (e n) refl in omega (arith, before, none_here)

-- Words of a page that none of these is.
pub rows-off :
    (w x : Words) (n : ℕ) (qs : List ℕ) (q p : ℕ)
    → All (λ z. z ≢ q) qs
    → ((r j : ℕ) → r ≢ q → x r j ≡ w r j)
    → rows x n qs p ≡ rows w n qs p
unfolding rows
rows-off w x n [] q p a e = refl
rows-off w x n (r ∷ qs) q p a e =
    ap₂ ◌+◌ (row-eq (x r) (w r) n p (λ j. e r j a.0)) (rows-off w x n qs q p a.1 e)

put_off : (w : Words) (q k v s j : ℕ) → s ≢ q → put w q k v s j ≡ w s j
put_off w q k v s j ne = ground arith

row-put_here :
    (w : Words) (n q k v p : ℕ)
    → k < n
    → row (put w q k v q) n p + hit (w q k) p ≡ row (w q) n p + hit v p
row-put_here w n q k v p h =
    let same = row-eq (put w q k v q) (λ j. if j == k then v else w q j) n p (λ j. ground arith) in
    omega (arith, same, row-put (w q) n k v p h)

pub rows-put :
    (w : Words) (n : ℕ) (qs : List ℕ) (q k v p : ℕ)
    → In q qs
    → Distinct qs
    → k < n
    → rows (put w q k v) n qs p + hit (w q k) p ≡ rows w n qs p + hit v p
unfolding rows
rows-put w n [] q k v p i d h = absurd i
rows-put w n (r ∷ qs) q k v p (inl e) d h =
    let rest = rows-off w (put w q k v) n qs q p (rw e d.0) (λ s j ne. put_off w q k v s j ne) in
    let here = row-put_here w n q k v p h in rw (← e) (omega (arith, here, rest))
rows-put w n (r ∷ qs) q k v p (inr i) d h =
    let ne : r ≢ q = λ e. In-differs r q qs d.0 i (sym e) in
    let here = row-eq (put w q k v r) (w r) n p (λ j. put_off w q k v r j ne) in
    let rest = rows-put w n qs q k v p i d.1 h in omega (arith, here, rest)

pub rows-pos :
    (w : Words) (n : ℕ) (qs : List ℕ) (q k : ℕ)
    → In q qs
    → k < n
    → w q k ≢ 0
    → 0 < rows w n qs (pgnum (w q k))
unfolding rows
rows-pos w n [] q k i h e = absurd i
rows-pos w n (r ∷ qs) q k (inl same) h e =
    let here = row-pos (w q) n k h e in rw (← same) (omega (arith, here))
rows-pos w n (r ∷ qs) q k (inr i) h e = let rest = rows-pos w n qs q k i h e in omega (arith, rest)
