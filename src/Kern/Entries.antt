-- ===== src/Kern/Entries.antt =====
-- An entry that changes, and the references there are.
use mathlib.Core.Path.{subst}
use Prim.Native.Nat.{bit_or}
use sis_ops.Common.Bits.{bit_or-halves}
use sis_ops.Common.{
  Bool, true, false, ◌⊎◌, ℕ, ◌+◌, ◌*◌, ◌%◌, ◌<◌, ◌≡◌, ◌≢◌, refl, sym, ap, ap₂, ◌∙◌, inl, inr, List,
  [], ◌∷◌, arith, Bool-cases, All, ◌&&◌, if◌then◌else◌, ◌==◌,
}
use sis_ops.Kern.Paging.{pdx, ptx, pgnum, table_entry}
use sis_ops.Kern.AddressMap.{
  utop, entry_of, user_tables, Words, put, cleared, grown, pgnum-table_entry,
}
use sis_ops.Kern.Counting.{In, hit, row, row-zero, times, rows, rows-off, rows-put}
use sis_ops.Kern.Accounts.{refs, Shape}

pub All-differs : (ys : List ℕ) (q : ℕ) → ((y : ℕ) → In y ys → y ≢ q) → All (λ y. y ≢ q) ys
All-differs [] q f = tt
All-differs (y ∷ ys) q f = (f y (inl refl), All-differs ys q (λ z i. f z (inr i)))

odd_table_entry : (p : ℕ) → table_entry p % 2 ≡ 1
odd_table_entry p = omega (
  arith,
  bit_or-halves (bit_or (bit_or (p * 4096) 1) 2) 4,
  bit_or-halves (bit_or (p * 4096) 1) 2,
  bit_or-halves (p * 4096) 1,
)

add_up :
    (n dirs0 dirs1 dirs2 tables0 tables1 tables2 new old word one : ℕ)
    → dirs1 ≡ dirs0
    → tables1 ≡ tables0
    → dirs2 + old ≡ dirs1 + word
    → tables2 ≡ tables1
    → new ≡ 0
    → old ≡ 0
    → word ≡ one
    → n + dirs2 + (new + tables2) ≡ n + dirs0 + tables0 + one
add_up n dirs0 dirs1 dirs2 tables0 tables1 tables2 new old word one a b c d e f g = omega arith

pub entry_of-same :
    (w x : Words) (e vb : ℕ)
    → x e (pdx vb) ≡ w e (pdx vb)
    → (w e (pdx vb) ≢ 0 → x (pgnum (w e (pdx vb))) (ptx vb) ≡ w (pgnum (w e (pdx vb))) (ptx vb))
    → entry_of x e vb ≡ entry_of w e vb
entry_of-same w x e vb a b = ground arith

other_table :
    (w : Words) (t k v e vb : ℕ)
    → t ≢ e
    → (w e (pdx vb) ≢ 0 → pgnum (w e (pdx vb)) ≢ t)
    → entry_of (put w t k v) e vb ≡ entry_of w e vb
other_table w t k v e vb ne apart = ground arith

-- The maps of the other directories are as they were.
abbrev pub Isolated : Words → Words → List ℕ → ℕ → Type 0
Isolated w x ds d = (e vb : ℕ) → In e ds → e ≢ d → vb < utop → entry_of x e vb ≡ entry_of w e vb

module _ (w : Words) (ds ts : List ℕ) (s : Shape w ds ts) where
  -- A word of a table is no word of another directory's.
  pub put-Isolated :
      (d i k v : ℕ)
      → In d ds
      → i < user_tables
      → w d i ≢ 0
      → Isolated w (put w (pgnum (w d i)) k v) ds d
  put-Isolated d i k v x h n e vb y ne b =
      let not_dir = s.apart (pgnum (w d i)) e (s.table d i x h n) y in
      let own = s.once e d (pdx vb) i y x (omega arith) h in
      other_table w (pgnum (w d i)) k v e vb not_dir (λ f g. ne (own f n g).0)

  module _ (t k v : ℕ) (i : In t ts) (h : k < 1024) where
    -- A word of a page table.
    pub refs-put : (p : ℕ) → refs (put w t k v) ds ts p + hit (w t k) p ≡ refs w ds ts p + hit v p
    refs-put p =
        let off =
          rows-off w (put w t k v) user_tables ds t p
            (All-differs ds t (λ d j e. s.apart t d i j (sym e))) (λ r j ne. ground arith) in
        let on = rows-put w 1024 ts t k v p i s.tables h in omega (arith, off, on)

    dir_same : (d j : ℕ) → In d ds → put w t k v d j ≡ w d j
    dir_same d j x = let ne = s.apart t d i x in ground arith

    odd_put :
        (a b : ℕ) (here : Bool)
        → (a ≢ 0 → a % 2 ≡ 1)
        → (b ≢ 0 → b % 2 ≡ 1)
        → (if here then a else b) ≢ 0
        → (if here then a else b) % 2 ≡ 1
    odd_put a b true p q = p
    odd_put a b false p q = q

    pub Shape-put : (v ≢ 0 → v % 2 ≡ 1) → Shape (put w t k v) ds ts
    Shape-put odd = record {
      dirs = s.dirs;
      tables = s.tables;
      apart = s.apart;
      table = λ d j x b e. let z = dir_same d j x in rw z (s.table d j x b (λ y. e (z ∙ y)));
      once = λ d e j l x y b c n o q.
          let z = dir_same d j x in
          let u = dir_same e l y in
          s.once d e j l x y b c (λ a. n (z ∙ a)) (λ a. o (u ∙ a))
            (ap pgnum (sym z) ∙ q ∙ ap pgnum u);
      owned = λ r x.
          let o = s.owned r x in
          let z = dir_same o.0 o.1 o.2 in
          (o.0, o.1, o.2, o.3, (λ y. o.4 (sym z ∙ y)), ap pgnum z ∙ o.5);
      wide = λ r j x b. let y = s.wide r j x b in ground arith;
      odd_dir = λ d j x b e.
          let z = dir_same d j x in ap (λ (y : ℕ). y % 2) z ∙ s.odd_dir d j x b (λ y. e (z ∙ y));
      odd_table = λ r j x e. odd_put v (w r j) (r == t && j == k) odd (s.odd_table r j x) e;
    }

  module _ (d i p : ℕ) (here : In d ds) (low : i < user_tables) (absent : w d i ≡ 0)
      (new_dir : (e : ℕ) → In e ds → e ≢ p) (new_table : (t : ℕ) → In t ts → t ≢ p) where
    abbrev g : Words
    g = grown w d i p

    -- The words of a directory, of an old table, and of the new one.
    grown_at : (e j : ℕ) → In e ds → g e j ≡ (if e == d && j == i then table_entry p else w e j)
    grown_at e j x = let ne = new_dir e x in ground arith

    grown_table : (t j : ℕ) → In t ts → g t j ≡ w t j
    grown_table t j x = let ne = new_table t x in let a = s.apart t d x here in ground arith

    grown_empty : (j : ℕ) → g p j ≡ 0
    grown_empty j = let ne = new_dir d here in ground arith

    old_word : (e j : ℕ) → In e ds → e ≢ d → g e j ≡ w e j
    old_word e j x ne = let z = new_dir e x in ground arith

    -- A word of a directory is the new entry, or as it was.
    which : (e j : ℕ) → In e ds → ((e ≡ d) × (j ≡ i) × (g e j ≡ table_entry p)) ⊎ (g e j ≡ w e j)
    which e j x =
        let word = grown_at e j x in
        elim (Bool-cases (e == d && j == i)) [
          | inl at ↦ inl (ground arith, ground arith, word ∙ rw at refl)
          | inr off ↦ inr (word ∙ rw off refl)
        ]

    new_ref : pgnum (table_entry p) ≡ p
    new_ref = (pgnum-table_entry p).0

    -- The new table is none of the old ones.
    ne_old : (e j : ℕ) → In e ds → j < user_tables → w e j ≢ 0 → pgnum (w e j) ≢ p
    ne_old e j x b n = new_table (pgnum (w e j)) (s.table e j x b n)

    hit-table_entry : (q : ℕ) → hit (table_entry p) q ≡ (if p == q then 1 else 0)
    hit-table_entry q = let e = pgnum-table_entry p in ground (arith, e)

    cleared_absent : cleared w p d i ≡ 0
    cleared_absent = let ne = new_dir d here in ground arith

    hit_absent : (q : ℕ) → hit (cleared w p d i) q ≡ 0
    hit_absent q = ap (λ (x : ℕ). hit x q) cleared_absent

    pub refs-grown : (q : ℕ) → refs g ds (p ∷ ts) q ≡ refs w ds ts q + (if p == q then 1 else 0)
    unfolding rows
    refs-grown q =
        let c : Words = cleared w p in
        let c_dirs =
          rows-off w c user_tables ds p q (All-differs ds p new_dir) (λ r j ne. ground arith) in
        let c_tables =
          rows-off w c 1024 ts p q (All-differs ts p new_table) (λ r j ne. ground arith) in
        let changed = rows-put c user_tables ds d i (table_entry p) q here s.dirs low in
        let tables =
          rows-off c (put c d i (table_entry p)) 1024 ts d q
            (All-differs ts d (λ t x. s.apart t d x here)) (λ r j ne. ground arith) in
        let empty = row-zero (g p) 1024 q grown_empty in
        let was = hit_absent q in
        let e = hit-table_entry q in
        add_up (times q ds) (rows w user_tables ds q) (rows c user_tables ds q)
          (rows (put c d i (table_entry p)) user_tables ds q) (rows w 1024 ts q) (rows c 1024 ts q)
          (rows (put c d i (table_entry p)) 1024 ts q) (row (g p) 1024 q) (hit (c d i) q)
          (hit (table_entry p) q) (if p == q then 1 else 0) c_dirs c_tables changed tables empty was
          e

    pub Shape-grown : Shape g ds (p ∷ ts)
    Shape-grown = record {
      dirs = s.dirs;
      tables = (All-differs ts p new_table, s.tables);
      apart = λ t e x y. elim x [ inl z ↦ λ u. new_dir e y (sym u ∙ z) | inr z ↦ s.apart t e z y ];
      table = λ e j x b n. elim (which e j x) [
        | inl z ↦ inl (ap pgnum z.2 ∙ new_ref)
        | inr z ↦
            inr (subst (λ (v : ℕ). In (pgnum v) ts) (sym z) (s.table e j x b (λ y. n (z ∙ y))))
      ];
      once = λ e f j k x y b c n o same. elim (which e j x) [
        | inl z ↦ elim (which f k y) [
          | inl u ↦ (z.0 ∙ sym u.0, z.1 ∙ sym u.1)
          | inr u ↦ absurd (
              ne_old f k y c (λ a. o (u ∙ a))
                (ap pgnum (sym u) ∙ sym same ∙ ap pgnum z.2 ∙ new_ref))
        ]
        | inr z ↦ elim (which f k y) [
          | inl u ↦
              absurd
                (ne_old e j x b (λ a. n (z ∙ a)) (ap pgnum (sym z) ∙ same ∙ ap pgnum u.2 ∙ new_ref))
          | inr u ↦
              s.once e f j k x y b c (λ a. n (z ∙ a)) (λ a. o (u ∙ a))
                (ap pgnum (sym z) ∙ same ∙ ap pgnum u)
        ]
      ];
      owned = λ t x. elim x [
        | inl z ↦
            let word = grown_at d i here in
            let at : g d i ≡ table_entry p = ground arith in
            (
              d,
              i,
              here,
              low,
              (λ a. (pgnum-table_entry p).1 (sym at ∙ a)),
              ap pgnum at ∙ new_ref ∙ sym z,
            )
        | inr z ↦
            let o = s.owned t z in
            let same : g o.0 o.1 ≡ w o.0 o.1 = elim (which o.0 o.1 o.2) [
              | inl u ↦ absurd (o.4 (ap₂ w u.0 u.1 ∙ absent))
              | inr u ↦ u
            ] in
            (o.0, o.1, o.2, o.3, (λ a. o.4 (sym same ∙ a)), ap pgnum same ∙ o.5)
      ];
      wide = λ t j x b. elim x [
        | inl z ↦ ap (λ (u : ℕ). g u j) z ∙ grown_empty j
        | inr z ↦ grown_table t j z ∙ s.wide t j z b
      ];
      odd_dir = λ e j x b n. elim (which e j x) [
        | inl z ↦ ap (λ (y : ℕ). y % 2) z.2 ∙ odd_table_entry p
        | inr z ↦ ap (λ (y : ℕ). y % 2) z ∙ s.odd_dir e j x b (λ y. n (z ∙ y))
      ];
      odd_table = λ t j x n. elim x [
        | inl z ↦ absurd (n (ap (λ (u : ℕ). g u j) z ∙ grown_empty j))
        | inr z ↦
            let y = grown_table t j z in
            ap (λ (u : ℕ). u % 2) y ∙ s.odd_table t j z (λ u. n (y ∙ u))
      ];
    }

    pub grown-Isolated : Isolated w g ds d
    grown-Isolated e vb y ne b =
        entry_of-same w g e vb (old_word e (pdx vb) y ne)
          (λ n. grown_table (pgnum (w e (pdx vb))) (ptx vb) (s.table e (pdx vb) y (omega arith) n))
