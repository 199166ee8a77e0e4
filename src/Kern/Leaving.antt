-- ===== src/Kern/Leaving.antt =====
-- A page table or a page directory that goes, and the references there are.
use sis_ops.Common.{
  ◌⊎◌, ℕ, zero, suc, ◌+◌, ◌%◌, ◌<◌, ◌≤◌, ◌≡◌, ◌≢◌, refl, sym, ap, ap₂, ◌∙◌, inl, inr, List, [], ◌∷◌,
  true, false, ◌&&◌, if◌then◌else◌, ◌==◌, ltb, arith, Bool-cases, All,
}
use mathlib.Core.Path.{subst}
use sis_ops.Kern.Links.{Distinct}
use sis_ops.Kern.Paging.{pdx, pgnum}
use sis_ops.Kern.AddressMap.{user_tables, Words, put}
use sis_ops.Kern.Counting.{In, In-differs, hit, row, rows, rows-off, rows-put, row-zero, times}
use sis_ops.Kern.Accounts.{refs, Shape}
use sis_ops.Kern.Entries.{All-differs, Isolated, entry_of-same}

-- A list less one number.
pub without : ℕ → List ℕ → List ℕ
without q [] = []
without q (r ∷ qs) = let rest = without q qs in if r == q then rest else r ∷ rest

abbrev one : ℕ
one = 1

without-here : (q r : ℕ) (qs : List ℕ) → (r == q) ≡ true → without q (r ∷ qs) ≡ without q qs
unfolding without
without-here q r qs e = rw e refl

without-there : (q r : ℕ) (qs : List ℕ) → (r == q) ≡ false → without q (r ∷ qs) ≡ r ∷ without q qs
unfolding without
without-there q r qs e = rw e refl

-- A fact on the others is one on the rest of the list, and back.
pub In-without : (x q : ℕ) (qs : List ℕ) → In x qs → x ≢ q → In x (without q qs)
In-without x q [] i n = absurd i
In-without x q (r ∷ qs) i n = elim (Bool-cases (r == q)) [
  | inl at ↦
      subst (λ (l : List ℕ). In x l) (sym (without-here q r qs at))
        (elim i [ inl e ↦ absurd (n (ground (arith, e))) | inr j ↦ In-without x q qs j n ])
  | inr off ↦
      subst (λ (l : List ℕ). In x l) (sym (without-there q r qs off))
        (elim i [ inl e ↦ inl e | inr j ↦ inr (In-without x q qs j n) ])
]

without-In : (x q : ℕ) (qs : List ℕ) → In x (without q qs) → In x qs × (x ≢ q)
unfolding without
without-In x q [] i = absurd i
without-In x q (r ∷ qs) i = elim (Bool-cases (r == q)) [
  | inl at ↦
      let s = without-In x q qs (subst (λ (l : List ℕ). In x l) (without-here q r qs at) i) in
      (inr s.0, s.1)
  | inr off ↦ elim (subst (λ (l : List ℕ). In x l) (without-there q r qs off) i) [
    | inl e ↦ (inl e, λ f. ground (arith, e, f))
    | inr j ↦ let s = without-In x q qs j in (inr s.0, s.1)
  ]
]

Distinct-without : (q : ℕ) (qs : List ℕ) → Distinct qs → Distinct (without q qs)
unfolding without
Distinct-without q [] d = tt
Distinct-without q (r ∷ qs) d = elim (Bool-cases (r == q)) [
  | inl at ↦
      subst (λ (l : List ℕ). Distinct l) (sym (without-here q r qs at)) (Distinct-without q qs d.1)
  | inr off ↦
      subst (λ (l : List ℕ). Distinct l) (sym (without-there q r qs off))
        (
          All-differs (without q qs) r (λ y i e. In-differs r y qs d.0 (without-In y q qs i).0 e),
          Distinct-without q qs d.1,
        )
]

without-absent : (q : ℕ) (qs : List ℕ) → All (λ r. r ≢ q) qs → without q qs ≡ qs
unfolding without
without-absent q [] a = refl
without-absent q (r ∷ qs) a =
    let off : (r == q) ≡ false = let n = a.0 in ground arith in
    without-there q r qs off ∙ ap (λ (l : List ℕ). r ∷ l) (without-absent q qs a.1)

rows-without :
    (w : Words) (n q : ℕ) (qs : List ℕ) (p : ℕ)
    → In q qs
    → Distinct qs
    → rows w n (without q qs) p + row (w q) n p ≡ rows w n qs p
unfolding rows
rows-without w n q [] p i d = absurd i
rows-without w n q (r ∷ qs) p i d = elim (Bool-cases (r == q)) [
  | inl at ↦
      let e : r ≡ q = ground arith in
      let less =
        without-here q r qs at
        ∙ without-absent q qs (subst (λ (x : ℕ). All (λ s. s ≢ x) qs) e d.0) in
      let here = ap (λ (l : List ℕ). rows w n l p) less in
      let own = ap (λ (x : ℕ). row (w x) n p) e in omega (arith, here, own)
  | inr off ↦
      let here = ap (λ (l : List ℕ). rows w n l p) (without-there q r qs off) in
      let rest =
        rows-without w n q qs p (elim i [ inl e ↦ absurd (ground arith) | inr j ↦ j ]) d.1 in
      omega (arith, here, rest)
]

times-without :
    (p q : ℕ) (qs : List ℕ)
    → In q qs
    → Distinct qs
    → times p (without q qs) + (if q == p then 1 else 0) ≡ times p qs
unfolding times
times-without p q [] i d = absurd i
times-without p q (r ∷ qs) i d = elim (Bool-cases (r == q)) [
  | inl at ↦
      let e : r ≡ q = ground arith in
      let less =
        without-here q r qs at
        ∙ without-absent q qs (subst (λ (x : ℕ). All (λ s. s ≢ x) qs) e d.0) in
      let here = ap (times p) less in
      let own = ap (λ (x : ℕ). if x == p then one else 0) e in omega (arith, here, own)
  | inr off ↦
      let here = ap (times p) (without-there q r qs off) in
      let rest = times-without p q qs (elim i [ inl e ↦ absurd (ground arith) | inr j ↦ j ]) d.1 in
      omega (arith, here, rest)
]

module _ (w : Words) (ds ts : List ℕ) (s : Shape w ds ts) where
  -- A table without entries goes, with the entry of its directory.
  module _ (d i : ℕ) (here : In d ds) (low : i < user_tables) (n : w d i ≢ 0)
      (empty : (j : ℕ) → j < 1024 → w (pgnum (w d i)) j ≡ 0) where
    abbrev pub t : ℕ
    t = pgnum (w d i)

    abbrev pub x : Words
    x = put w d i 0

    in_ts : In t ts
    in_ts = s.table d i here low n

    all_empty : (j : ℕ) → w t j ≡ 0
    all_empty j = elim (Bool-cases (ltb j 1024)) [
      | inl h ↦ empty j (ground arith)
      | inr h ↦ s.wide t j in_ts (ground arith)
    ]

    left_In : (r : ℕ) → In r (without t ts) → In r ts
    left_In r y = (without-In r t ts y).0

    ne_dir : (r : ℕ) → In r (without t ts) → r ≢ d
    ne_dir r y = s.apart r d (left_In r y) here

    pub refs-freed : (p : ℕ) → refs x ds (without t ts) p + hit (w d i) p ≡ refs w ds ts p
    refs-freed p =
        let dirs = rows-put w user_tables ds d i 0 p here s.dirs low in
        let tables =
          rows-off w x 1024 (without t ts) d p (All-differs (without t ts) d ne_dir)
            (λ r j ne. ground arith) in
        let less = rows-without w 1024 t ts p in_ts s.tables in
        let zero_ = row-zero (w t) 1024 p all_empty in omega (arith, dirs, tables, less, zero_)

    -- A word of a directory is zero now, or as it was and not this entry.
    still : (e j : ℕ) → (x e j ≡ 0) ⊎ ((x e j ≡ w e j) × ((e ≡ d) → (j ≡ i) → ⊥))
    still e j = elim (Bool-cases (e == d && j == i)) [
      | inl at ↦ inl (rw at refl)
      | inr off ↦ inr (rw off refl, λ a b. ground arith)
    ]

    old_table : (r j : ℕ) → In r (without t ts) → x r j ≡ w r j
    old_table r j y = let ne = ne_dir r y in ground arith

    pub Shape-freed : Shape x ds (without t ts)
    Shape-freed = record {
      dirs = s.dirs;
      tables = Distinct-without t ts s.tables;
      apart = λ r e y z. s.apart r e (left_In r y) z;
      table = λ e j y b m. elim (still e j) [
        | inl z ↦ absurd (m z)
        | inr z ↦
            subst (λ (u : ℕ). In (pgnum u) (without t ts)) (sym z.0)
              (In-without (pgnum (w e j)) t ts (s.table e j y b (λ a. m (z.0 ∙ a)))
                (λ a. let o = s.once e d j i y here b low (λ c. m (z.0 ∙ c)) n a in z.1 o.0 o.1))
      ];
      once = λ e f j k y z b c m o q. elim (still e j) [
        | inl u ↦ absurd (m u)
        | inr u ↦ elim (still f k) [
          | inl v ↦ absurd (o v)
          | inr v ↦
              s.once e f j k y z b c (λ a. m (u.0 ∙ a)) (λ a. o (v.0 ∙ a))
                (ap pgnum (sym u.0) ∙ q ∙ ap pgnum v.0)
        ]
      ];
      owned = λ r y.
          let o = s.owned r (left_In r y) in
          let ne = (without-In r t ts y).1 in
          let same : x o.0 o.1 ≡ w o.0 o.1 = elim (Bool-cases (o.0 == d && o.1 == i)) [
            | inl at ↦
                let a : o.0 ≡ d = ground arith in
                let b : o.1 ≡ i = ground arith in
                absurd (ne (sym o.5 ∙ ap₂ (λ (u v : ℕ). pgnum (w u v)) a b))
            | inr off ↦ rw off refl
          ] in
          (o.0, o.1, o.2, o.3, (λ a. o.4 (sym same ∙ a)), ap pgnum same ∙ o.5);
      wide = λ r j y b. old_table r j y ∙ s.wide r j (left_In r y) b;
      odd_dir = λ e j y b m. elim (still e j) [
        | inl z ↦ absurd (m z)
        | inr z ↦ ap (λ (u : ℕ). u % 2) z.0 ∙ s.odd_dir e j y b (λ a. m (z.0 ∙ a))
      ];
      odd_table = λ r j y m.
          let z = old_table r j y in
          ap (λ (u : ℕ). u % 2) z ∙ s.odd_table r j (left_In r y) (λ a. m (z ∙ a));
    }

    pub freed-Isolated : Isolated w x ds d
    freed-Isolated e vb y ne b = entry_of-same w x e vb (ground arith) (λ m.
        let apart = s.apart (pgnum (w e (pdx vb))) d (s.table e (pdx vb) y (omega arith) m) here in
        ground arith)

  -- A directory without entries goes.
  module _ (d : ℕ) (here : In d ds) (empty : (i : ℕ) → i < user_tables → w d i ≡ 0) where
    row-low_zero : (n p : ℕ) → n ≤ user_tables → row (w d) n p ≡ 0
    unfolding row
    row-low_zero zero p h = refl
    row-low_zero (suc n) p h =
        let before = row-low_zero n p (omega arith) in
        let none_here = ap (λ (v : ℕ). hit v p) (empty n (omega arith)) in
        omega (arith, before, none_here)

    pub refs-left :
        (p : ℕ) → refs w (without d ds) ts p + (if d == p then 1 else 0) ≡ refs w ds ts p
    refs-left p =
        let ones = times-without p d ds here s.dirs in
        let less = rows-without w user_tables d ds p here s.dirs in
        let zero_ = row-low_zero user_tables p (omega arith) in omega (arith, ones, less, zero_)

    pub Shape-left : Shape w (without d ds) ts
    Shape-left = record {
      dirs = Distinct-without d ds s.dirs;
      tables = s.tables;
      apart = λ t e y z. s.apart t e y (without-In e d ds z).0;
      table = λ e j y b m. s.table e j (without-In e d ds y).0 b m;
      once = λ e f j k y z b c m o q.
          s.once e f j k (without-In e d ds y).0 (without-In f d ds z).0 b c m o q;
      owned = λ r y.
          let o = s.owned r y in
          (
            o.0,
            o.1,
            In-without o.0 d ds o.2 (λ a. o.4 (ap (λ (u : ℕ). w u o.1) a ∙ empty o.1 o.3)),
            o.3,
            o.4,
            o.5,
          );
      wide = s.wide;
      odd_dir = λ e j y b m. s.odd_dir e j (without-In e d ds y).0 b m;
      odd_table = s.odd_table;
    }
