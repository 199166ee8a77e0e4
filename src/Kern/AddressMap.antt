-- ===== src/Kern/AddressMap.antt =====
-- What a page directory stands for: a map from user addresses to entries. The words of the tables
-- alone, before any operation.
use Prim.Native.Nat.{bit_or}
use sis_ops.Common.{
  ℕ, ◌+◌, ◌*◌, ◌/◌, ◌<◌, ◌≡◌, ◌≢◌, ap, ◌∙◌, Option, some, none, Bool, ◌&&◌, if◌then◌else◌, ◌==◌,
  arith,
}
use sis_ops.Common.Bits.{bit_or-halves, bit_or-page, bit_or-one, bit_or-zero}
use sis_ops.Kern.Paging.{pdx, ptx, pgnum, table_entry}

-- UTOP, where 955 tables end.
abbrev pub utop : ℕ
utop = 4005560320

abbrev pub user_tables : ℕ
user_tables = 955

abbrev pub Words : Type 0
Words = ℕ → ℕ → ℕ

-- Whether two addresses lie in one page.
abbrev pub same_page : ℕ → ℕ → Bool
same_page va vb = pdx va == pdx vb && ptx va == ptx vb

-- An entry that is zero stands for none.
abbrev pub nonzero : ℕ → Option ℕ
nonzero v = if v == 0 then none else some v

abbrev pub entry_of : Words → ℕ → ℕ → Option ℕ
entry_of w d va = if w d (pdx va) == 0 then none else nonzero (w (pgnum (w d (pdx va))) (ptx va))

-- The user's tables are none of them the directory, and no two the same.
pub record Tables (w : Words) (d : ℕ) : Type 0 where
  pub apart : (i : ℕ) → i < user_tables → w d i ≢ 0 → pgnum (w d i) ≢ d
  pub distinct :
      (i k : ℕ)
      → i < user_tables
      → k < user_tables
      → w d i ≢ 0
      → w d k ≢ 0
      → pgnum (w d i) ≡ pgnum (w d k)
      → i ≡ k

abbrev pub put : Words → ℕ → ℕ → ℕ → Words
put w p i v = λ q j. if q == p && j == i then v else w q j

-- A word put into the table of an address changes the entry of its page, and no other.
pub entry_of-put :
    (w : Words) (d va vb v : ℕ)
    → Tables w d
    → va < utop
    → vb < utop
    → w d (pdx va) ≢ 0
    → entry_of (put w (pgnum (w d (pdx va))) (ptx va) v) d vb
      ≡ (if same_page va vb then nonzero v else entry_of w d vb)
entry_of-put w d va vb v t ha hb e =
    let ia : pdx va < user_tables = omega arith in
    let ib : pdx vb < user_tables = omega arith in
    let apart = t.apart (pdx va) ia e in
    ground (arith, apart, t.apart (pdx vb) ib, t.distinct (pdx va) (pdx vb) ia ib e)

abbrev pub cleared : Words → ℕ → Words
cleared w p = λ q j. if q == p then 0 else w q j

abbrev pub grown : Words → ℕ → ℕ → ℕ → Words
grown w d i p = put (cleared w p) d i (table_entry p)

pub pgnum-table_entry : (p : ℕ) → (pgnum (table_entry p) ≡ p) × (table_entry p ≢ 0)
pgnum-table_entry p =
    let one = bit_or-page p 1 in
    let two = bit_or-page p 3 in
    let three = bit_or-page p 7 in
    let base = bit_or-zero p in
    let a : bit_or (p * 4096) 1 ≡ p * 4096 + 1 = omega arith in
    let b : bit_or (p * 4096 + 1) 2 ≡ p * 4096 + 3 = bit_or-two p in
    let c : bit_or (p * 4096 + 3) 4 ≡ p * 4096 + 7 = bit_or-four p in
    let e : table_entry p ≡ p * 4096 + 7 =
      ap (λ (x : ℕ). bit_or (bit_or x 2) 4) a ∙ ap (λ (x : ℕ). bit_or x 4) b ∙ c in
    (rw e (omega arith), rw e (λ h. omega arith))
  where
    bit_or-two : (p : ℕ) → bit_or (p * 4096 + 1) 2 ≡ p * 4096 + 3
    bit_or-two p =
        let h : (p * 4096 + 1) / 2 ≡ p * 2048 = omega arith in
        let x = bit_or-one (p * 2048) in
        let y = ap (λ (t : ℕ). bit_or t 1) h in omega (arith, bit_or-halves (p * 4096 + 1) 2)

    bit_or-four : (p : ℕ) → bit_or (p * 4096 + 3) 4 ≡ p * 4096 + 7
    bit_or-four p =
        let h : (p * 4096 + 3) / 2 / 2 ≡ p * 1024 = omega arith in
        let x = bit_or-one (p * 1024) in
        let y = ap (λ (t : ℕ). bit_or t 1) h in
        omega (arith, bit_or-halves (p * 4096 + 3) 4, bit_or-halves ((p * 4096 + 3) / 2) 2)

-- An empty table that is added changes no entry.
module _ (w : Words) (d p i : ℕ) (t : Tables w d) (free : p ≢ d)
    (unused : (k : ℕ) → k < user_tables → w d k ≢ 0 → pgnum (w d k) ≢ p) (absent : w d i ≡ 0) where
  -- The directory, and a table of it, when a table is added.
  pub grown-dir : (k : ℕ) → grown w d i p d k ≡ (if k == i then table_entry p else w d k)
  grown-dir k = ground arith

  pub grown-old :
      (k j : ℕ)
      → k < user_tables
      → k ≢ i
      → w d k ≢ 0
      → (grown w d i p d k ≡ w d k) × (grown w d i p (pgnum (w d k)) j ≡ w (pgnum (w d k)) j)
  grown-old k j h ne e = (ground arith, ground (arith, t.apart k h e, unused k h e))

  pub grown-new : (j : ℕ) → grown w d i p p j ≡ 0
  grown-new j = ground arith

  pub grown-Tables : Tables (grown w d i p) d
  grown-Tables = record {
    apart = λ k h e. grown-apart k h e;
    distinct = λ k l hk hl ek el same. grown-distinct k l hk hl ek el same;
  }
    where
      grown-apart :
          (k : ℕ) → k < user_tables → grown w d i p d k ≢ 0 → pgnum (grown w d i p d k) ≢ d
      grown-apart k h e = ground (arith, pgnum-table_entry p, t.apart k h)

      grown-distinct :
          (k l : ℕ)
          → k < user_tables
          → l < user_tables
          → grown w d i p d k ≢ 0
          → grown w d i p d l ≢ 0
          → pgnum (grown w d i p d k) ≡ pgnum (grown w d i p d l)
          → k ≡ l
      grown-distinct k l hk hl ek el same =
          ground (arith, pgnum-table_entry p, t.distinct k l hk hl, unused k hk, unused l hl)

  pub entry_of-grown : (vb : ℕ) → vb < utop → entry_of (grown w d i p) d vb ≡ entry_of w d vb
  entry_of-grown vb h =
      let ib : pdx vb < user_tables = omega arith in
      ground (arith, pgnum-table_entry p, t.apart (pdx vb) ib, unused (pdx vb) ib)

-- An entry is a word of a table that is there.
pub entry_of-some :
    (w : Words) (d va pte : ℕ)
    → entry_of w d va ≡ some pte
    → (w d (pdx va) ≢ 0) × (w (pgnum (w d (pdx va))) (ptx va) ≡ pte) × (pte ≢ 0)
entry_of-some w d va pte e = (λ z. ground arith, ground arith, λ z. ground arith)
