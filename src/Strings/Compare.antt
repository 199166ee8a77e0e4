-- ===== src/Strings/Compare.antt =====
-- The functions of sched/lib/string.c that measure, compare and search strings and memory.
use sis_ops.Common.{
  ℕ, zero, suc, ◌+◌, ◌-◌, ◌<◌, ◌≡◌, ◌≢◌, ◌↔◌, refl, sym, ap, ◌∙◌, inl, inr, List, [], ◌∷◌, ◌++◌,
  Option, some, none, true, false, if◌then◌else◌, ◌==◌, leb, arith, Bool-cases, ℤ, pos, negsuc, All,
  take, length,
}
use sis_ops.Strings.Memory.{Store}

-- The difference of two bytes, as an `int`.
abbrev diff : ℕ → ℕ → ℤ
diff a b = if leb b a then pos (a - b) else negsuc (b - a - 1)

unfoldable strnlen : List ℕ → ℕ → ℕ
strnlen [] n = 0
strnlen (c ∷ s) zero = 0
strnlen (c ∷ s) (suc n) = suc (strnlen s n)

strcmp : List ℕ → List ℕ → ℤ
strcmp [] [] = diff 0 0
strcmp [] (d ∷ q) = diff 0 d
strcmp (c ∷ p) [] = diff c 0
strcmp (c ∷ p) (d ∷ q) = let rest = strcmp p q in if c == d then rest else diff c d

strncmp : List ℕ → List ℕ → ℕ → ℤ
strncmp p q zero = pos 0
strncmp [] [] (suc n) = diff 0 0
strncmp [] (d ∷ q) (suc n) = diff 0 d
strncmp (c ∷ p) [] (suc n) = diff c 0
strncmp (c ∷ p) (d ∷ q) (suc n) = let rest = strncmp p q n in if c == d then rest else diff c d

-- A pointer into a string is an index; the null pointer is `none`.
unfoldable strchr : List ℕ → ℕ → Option ℕ
strchr [] c = none
strchr (d ∷ s) c =
    let later = strchr s c in
    if d == c then some 0 else elim later [ none ↦ none | some i ↦ some (suc i) ]

unfoldable strfind : List ℕ → ℕ → ℕ
strfind [] c = 0
strfind (d ∷ s) c = let later = strfind s c in if d == c then 0 else suc later

-- The bytes that are stored, the NUL included, and the number that is returned.
strlcpy : List ℕ → ℕ → List ℕ × ℕ
strlcpy src zero = ([], 0)
strlcpy [] (suc size) = (0 ∷ [], 0)
strlcpy (c ∷ src) (suc zero) = (0 ∷ [], 0)
strlcpy (c ∷ src) (suc (suc size)) = let rest = strlcpy src (suc size) in (c ∷ rest.0, suc rest.1)

memcmp : ℕ → ℕ → ℕ → Store → ℤ
memcmp v w zero m = pos 0
memcmp v w (suc n) m =
    let rest = memcmp (v + 1) (w + 1) n m in if m v == m w then rest else diff (m v) (m w)

unfoldable memfind : ℕ → ℕ → ℕ → Store → ℕ
memfind s c zero m = s
memfind s c (suc n) m = let later = memfind (s + 1) c n m in if m s == c then s else later

-- The comparison of two strings to a length is that of their beginnings.
strncmp-take : (n : ℕ) (p q : List ℕ) → strncmp p q n ≡ strcmp (take n p) (take n q)
unfolding strncmp strcmp
strncmp-take zero p q = refl
strncmp-take (suc n) [] [] = refl
strncmp-take (suc n) [] (d ∷ q) = refl
strncmp-take (suc n) (c ∷ p) [] = refl
strncmp-take (suc n) (c ∷ p) (d ∷ q) =
    ap (λ (x : ℤ). if c == d then x else diff c d) (strncmp-take n p q)

diff-zero : (a b : ℕ) → diff a b ≡ pos 0 → a ≡ b
diff-zero a b e = ground arith

strcmp_refl : (p : List ℕ) → strcmp p p ≡ pos 0
unfolding strcmp
strcmp_refl [] = refl
strcmp_refl (c ∷ p) = let rest = strcmp_refl p in ground arith

-- Strings without a zero byte compare equal only if they are.
strcmp-zero : (p q : List ℕ) → All (λ c. c ≢ 0) p → All (λ c. c ≢ 0) q → strcmp p q ≡ pos 0 → p ≡ q
unfolding strcmp
strcmp-zero [] [] a b e = refl
strcmp-zero [] (d ∷ q) a b e = absurd (b.0 (sym (diff-zero 0 d e)))
strcmp-zero (c ∷ p) [] a b e = absurd (a.0 (diff-zero c 0 e))
strcmp-zero (c ∷ p) (d ∷ q) a b e = elim (Bool-cases (c == d)) [
  | inl same ↦
      let h : c ≡ d = ground arith in
      rw h (ap (λ (x : List ℕ). d ∷ x) (strcmp-zero p q a.1 b.1 (rest same e)))
  | inr differ ↦ absurd (apart differ (diff-zero c d (first differ e)))
]
  where
    rest : (c == d) ≡ true → (if c == d then strcmp p q else diff c d) ≡ pos 0 → strcmp p q ≡ pos 0
    rest t x = ground arith

    first : (c == d) ≡ false → (if c == d then strcmp p q else diff c d) ≡ pos 0 → diff c d ≡ pos 0
    first t x = ground arith

    apart : (c == d) ≡ false → c ≢ d
    apart t x = ground arith

-- Two strings compare equal to a length exactly if they agree up to it.
strncmp_iff :
    (n : ℕ) (p q : List ℕ)
    → All (λ c. c ≢ 0) p
    → All (λ c. c ≢ 0) q
    → (strncmp p q n ≡ pos 0) ↔ (take n p ≡ take n q)
strncmp_iff n p q a b = (
  (λ e.
      strcmp-zero (take n p) (take n q) (All-take n p a) (All-take n q b)
        (sym (strncmp-take n p q) ∙ e)),
  (λ e. strncmp-take n p q ∙ ap (strcmp (take n p)) (sym e) ∙ strcmp_refl (take n p)),
)
  where
    All-take : (n : ℕ) (s : List ℕ) → All (λ c. c ≢ 0) s → All (λ c. c ≢ 0) (take n s)
    All-take zero s h = tt
    All-take (suc n) [] h = tt
    All-take (suc n) (c ∷ s) h = (h.0, All-take n s h.1)

-- What `strlcpy` stores is the beginning of the string, cut to the size, and a NUL.
strlcpy-take :
    (size : ℕ) (src : List ℕ)
    → strlcpy src (suc size) ≡ (take size src ++ (0 ∷ []), length (take size src))
unfolding strlcpy
strlcpy-take zero [] = refl
strlcpy-take zero (c ∷ src) = refl
strlcpy-take (suc size) [] = refl
strlcpy-take (suc size) (c ∷ src) =
    ap (λ (r : List ℕ × ℕ). (c ∷ r.0, suc r.1)) (strlcpy-take size src)

memcmp-suc :
    (n v w : ℕ) (m : Store)
    → (memcmp v w (suc n) m ≡ pos 0) ↔ ((m v ≡ m w) × (memcmp (v + 1) (w + 1) n m ≡ pos 0))
unfolding memcmp
memcmp-suc n v w m = (
  (λ e. elim (Bool-cases (m v == m w)) [
    | inl same ↦ (ground arith, ground arith)
    | inr differ ↦ let h : m v ≡ m w = diff-zero (m v) (m w) (ground arith) in absurd (ground arith)
  ]),
  (λ e. let h = e.0 in let rest = e.1 in ground arith),
)

-- `memcmp` gives 0 exactly if the two ranges hold the same.
memcmp_iff :
    (n v w : ℕ) (m : Store) → (memcmp v w n m ≡ pos 0) ↔ ((i : ℕ) → i < n → m (v + i) ≡ m (w + i))
memcmp_iff n v w m = (same n v w, equal n v w)
  where
    v_zero : (v : ℕ) → v + 0 ≡ v
    v_zero v = omega arith

    v_suc : (v i : ℕ) → v + suc i ≡ v + 1 + i
    v_suc v i = omega arith

    same : (n v w : ℕ) → memcmp v w n m ≡ pos 0 → (i : ℕ) → i < n → m (v + i) ≡ m (w + i)
    same zero v w e i h = absurd (omega arith)
    same (suc n) v w e zero h =
        ap m (v_zero v) ∙ ((memcmp-suc n v w m).0 e).0 ∙ ap m (sym (v_zero w))
    same (suc n) v w e (suc i) h =
        ap m (v_suc v i)
        ∙ same n (v + 1) (w + 1) ((memcmp-suc n v w m).0 e).1 i (omega arith)
        ∙ ap m (sym (v_suc w i))

    equal : (n v w : ℕ) → ((i : ℕ) → i < n → m (v + i) ≡ m (w + i)) → memcmp v w n m ≡ pos 0
    equal zero v w h = unfold memcmp in refl
    equal (suc n) v w h = (memcmp-suc n v w m).1 (
      ap m (sym (v_zero v)) ∙ h 0 (omega arith) ∙ ap m (v_zero w),
      equal n (v + 1) (w + 1)
          (λ i b. ap m (sym (v_suc v i)) ∙ h (suc i) (omega arith) ∙ ap m (v_suc w i)),
    )
