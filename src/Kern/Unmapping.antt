-- ===== src/Kern/Unmapping.antt =====
-- `env_free` of sched/kern/env.c, where it frees the page tables of an address space.
use Prim.Native.Nat.{bit_and}
use sis_ops.Common.{
  ◌⊎◌, ℕ, zero, suc, ◌+◌, ◌-◌, ◌%◌, ◌<◌, ◌≤◌, ◌≡◌, ◌≢◌, refl, sym, ap, ◌∙◌, inl, inr, List, none,
  some, false, ◌==◌, leb, arith, Bool-cases, length, get_elem?,
}
use mathlib.Core.Path.{subst}
use sis_ops.Kern.Pages.{PageInfo, Pages, done, page_decref}
use sis_ops.Kern.Paging.{pdx, ptx, pgnum, pte_p, Memory}
use sis_ops.Kern.AddressMap.{user_tables, Words, put}
use sis_ops.Kern.Mapping.{Used-lt}
use sis_ops.Kern.Counting.{In, hit}
use sis_ops.Kern.Accounts.{refs, Live, Counted, IsMemory, counted-Used, table-refs}
use sis_ops.Kern.Entries.{Isolated}
use sis_ops.Kern.Giving.{Given, page_decref-Given}
use sis_ops.Kern.Keeping.{Counted-same}
use sis_ops.Kern.Adding.{entry_of-none}
use sis_ops.Kern.Leaving.{without, refs-freed, Shape-freed, freed-Isolated}
use sis_ops.Kern.Sweeping.{bit_and-pte_p, addr, Swept, sweep}
use sis_ops.Kern.Kernel.{free_ptes, free_table, free_tables}

-- One entry of the directory is gone, with its table.
record Freed (m : Memory) (ds ts is : List ℕ) (held : ℕ → ℕ) (d n : ℕ) : Type 0 where
  mem : Memory
  tables : List ℕ
  left : List ℕ
  done_ : free_table d n m ≡ done mem
  memory : IsMemory mem ds tables left held
  gone : mem.words d n ≡ 0
  others : (i : ℕ) → i ≢ n → mem.words d i ≡ m.words d i
  isolated : Isolated m.words mem.words ds d
  kept : (p : ℕ) → Live m.words ds ts is held p → Live mem.words ds tables left held p

free_table-absent :
    (d n : ℕ) (m : Memory) → bit_and (m.words d n) pte_p ≡ 0 → free_table d n m ≡ done m
unfolding free_table
free_table-absent d n m e = ground arith

free_table-present :
    (d n : ℕ) (m m' : Memory) (k : Pages)
    → (bit_and (m.words d n) pte_p == 0) ≡ false
    → leb (length m.alloc.pages) (pgnum (m.words d n)) ≡ false
    → free_ptes 1024 d n (pgnum (m.words d n)) m ≡ done m'
    → page_decref (pgnum (m.words d n)) m'.alloc ≡ done k
    → free_table d n m ≡ done (record m' { alloc = k; words = put m'.words d n 0 })
unfolding free_table
free_table-present d n m m' k e b s g = rw (e, b, s, g) refl

put_other : (w : Words) (d n i : ℕ) → i ≢ n → put w d n 0 d i ≡ w d i
put_other w d n i ne = ground arith

put_gone : (w : Words) (d n : ℕ) → put w d n 0 d n ≡ 0
put_gone w d n = ground arith

word_at :
    (w : Words) (d i j i' j' : ℕ)
    → i' ≡ i
    → j' ≡ j
    → w (pgnum (w d i')) j' ≡ 0
    → w (pgnum (w d i)) j ≡ 0
word_at w d i j i' j' a b e = rw (← a, ← b) e

module _ (m : Memory) (ds ts is : List ℕ) (held : ℕ → ℕ) (v : IsMemory m ds ts is held) (d n : ℕ)
    (here : In d ds) (low : n < user_tables) where
  module _ (there : m.words d n ≢ 0) where
    s : Swept m ds ts is held d n 1024
    s = sweep m ds ts is held v d n here low there 1024 (omega arith)

    abbrev t : ℕ
    t = pgnum (m.words d n)

    same_dir : s.mem.words d n ≡ m.words d n
    same_dir = s.dirs n

    still_there : s.mem.words d n ≢ 0
    still_there z = there (sym same_dir ∙ z)

    t_same : pgnum (s.mem.words d n) ≡ t
    t_same = ap pgnum same_dir

    empty : (j : ℕ) → j < 1024 → s.mem.words (pgnum (s.mem.words d n)) j ≡ 0
    empty j b =
        let a : pdx (addr n j) ≡ n = omega arith in
        let c : ptx (addr n j) ≡ j = omega arith in
        let f : s.mem.words d (pdx (addr n j)) ≢ 0 =
          λ z. still_there (subst (λ (y : ℕ). s.mem.words d y ≡ 0) a z) in
        let e = entry_of-none s.mem.words d (addr n j) (s.empty j b) f in
        word_at s.mem.words d n j (pdx (addr n j)) (ptx (addr n j)) a c e

    in_ts : In (pgnum (s.mem.words d n)) ts
    in_ts = s.memory.table d n here low still_there

    info :
        (i : PageInfo) × (get_elem? s.mem.alloc.pages t ≡ some i)
        × (i.pp_link ≡ none)
        × (i.pp_ref ≡ refs s.mem.words ds ts t + held t)
        × (i.pp_ref < 65536)
    info =
        let r = table-refs s.mem ds ts s.left held s.memory (pgnum (s.mem.words d n)) in_ts in
        s.memory.counted t
          (let q = subst (λ (y : ℕ). 0 < refs s.mem.words ds ts y) t_same r in omega (arith, q))

    abbrev ts' : List ℕ
    ts' = without (pgnum (s.mem.words d n)) ts

    abbrev w' : Words
    w' = put s.mem.words d n 0

    fewer : (p : ℕ) → refs w' ds ts' p + hit (s.mem.words d n) p ≡ refs s.mem.words ds ts p
    fewer = refs-freed s.mem.words ds ts s.memory.shape d n here low still_there empty

    one_less : refs w' ds ts' t + 1 ≡ refs s.mem.words ds ts t
    one_less =
        let one : hit (s.mem.words d n) t ≡ 1 =
          let a = t_same in let b = still_there in ground arith in
        omega (arith, fewer t, one)

    given : Given s.mem.alloc t info.0 s.left
    given =
        page_decref-Given s.mem.alloc t info.0 s.left s.memory.free info.1 info.2
          (omega (arith, one_less, info.3)) info.4

    freed-IsMemory :
        IsMemory (record s.mem { alloc = given.got; words = w' }) ds ts' given.left held
    freed-IsMemory = record {
      free = given.free;
      shape = Shape-freed s.mem.words ds ts s.memory.shape d n here low still_there empty;
      counted = λ p. elim (Bool-cases (p == t)) [
        | inl at ↦
            let e : p ≡ t = ground arith in
            subst (λ (y : ℕ). Counted given.got y (refs w' ds ts' y + held y)) (sym e) count_here
        | inr off ↦
            let ne : p ≢ t = λ e. ground arith in
            let none_here : hit (s.mem.words d n) p ≡ 0 = let a = t_same in ground arith in
            Counted-same s.mem.alloc given.got p _ _ (given.others p ne)
              (omega (arith, fewer p, none_here)) (s.memory.counted p)
      ];
    }
      where
        count_here : Counted given.got t (refs w' ds ts' t + held t)
        count_here h =
            let more : 1 < info.0.pp_ref = omega (arith, one_less, info.3) in
            (
              record info.0 { pp_ref = info.0.pp_ref - 1 },
              given.still more,
              info.2,
              omega (arith, one_less, info.3),
              omega (arith, info.4),
            )

    -- No page is lost: the table is free with its last reference.
    freed-Live : (p : ℕ) → Live s.mem.words ds ts s.left held p → Live w' ds ts' given.left held p
    freed-Live p (inl x) = inl (given.keeps p x)
    freed-Live p (inr u) = elim (Bool-cases (p == t)) [
      | inr off ↦
          let none_here : hit (s.mem.words d n) p ≡ 0 = let a = t_same in ground arith in
          inr (omega (arith, fewer p, none_here, u))
      | inl at ↦
          let e : p ≡ t = ground arith in
          subst (λ (q : ℕ). Live w' ds ts' given.left held q) (sym e) here_Live
    ]
      where
        here_Live : Live w' ds ts' given.left held t
        here_Live = elim (Bool-cases (info.0.pp_ref == 1)) [
          | inl one ↦ inl (given.last (ground arith))
          | inr more ↦
              let ne : info.0.pp_ref ≢ 1 = λ e. ground arith in
              inr (omega (arith, one_less, info.3, ne))
        ]

    flagged : (bit_and (m.words d n) pte_p == 0) ≡ false
    flagged =
        let o = v.odd_dir d n here low there in
        let p = bit_and-pte_p (m.words d n) in ground (arith, o, p)

    in_pages : leb (length m.alloc.pages) (pgnum (m.words d n)) ≡ false
    in_pages =
        let i = v.table d n here low there in
        let r = table-refs m ds ts is held v (pgnum (m.words d n)) i in
        let u =
          Used-lt m.alloc _
            (counted-Used m ds ts is held v (pgnum (m.words d n)) (omega (arith, r))) in
        ground (arith, u)

    present : Freed m ds ts is held d n
    present = record {
      mem = record s.mem { alloc = given.got; words = w' };
      tables = ts';
      left = given.left;
      done_ = free_table-present d n m s.mem given.got flagged in_pages s.done_ given.done_;
      memory = freed-IsMemory;
      gone = put_gone s.mem.words d n;
      others = λ i ne. put_other s.mem.words d n i ne ∙ s.dirs i;
      isolated = λ e vb y ne b.
          freed-Isolated s.mem.words ds ts s.memory.shape d n here low still_there empty e vb y ne b
          ∙ s.isolated e vb y ne b;
      kept = λ p l. freed-Live p (s.kept p l);
    }

  absent : m.words d n ≡ 0 → Freed m ds ts is held d n
  absent z = record {
    mem = m;
    tables = ts;
    left = is;
    done_ = free_table-absent d n m (bit_and-pte_p (m.words d n) ∙ ap (λ (y : ℕ). y % 2) z);
    memory = v;
    gone = z;
    others = λ i ne. refl;
    isolated = λ e vb y ne b. refl;
    kept = λ p l. l;
  }

  free_table-Freed : Freed m ds ts is held d n
  free_table-Freed = elim (Bool-cases (m.words d n == 0)) [
    | inl z ↦ absent (ground arith)
    | inr z ↦ present (λ e. ground arith)
  ]

-- The entries of a directory below `n` are gone, with their tables.
pub record Unmapped (m : Memory) (ds ts is : List ℕ) (held : ℕ → ℕ) (d n : ℕ) : Type 0 where
  pub mem : Memory
  pub tables : List ℕ
  pub left : List ℕ
  pub done_ : free_tables n d m ≡ done mem
  pub memory : IsMemory mem ds tables left held
  pub gone : (i : ℕ) → i < n → mem.words d i ≡ 0
  pub isolated : Isolated m.words mem.words ds d
  pub kept : (p : ℕ) → Live m.words ds ts is held p → Live mem.words ds tables left held p

last_or_before : (i n : ℕ) → i < suc n → (i ≡ n) ⊎ ((i ≢ n) × (i < n))
last_or_before i n h = elim (Bool-cases (i == n)) [
  | inl e ↦ inl (ground arith)
  | inr e ↦ inr ((λ a. ground arith), ground arith)
]

free_tables-next :
    (n d : ℕ) (m m' m2 : Memory)
    → free_tables n d m ≡ done m'
    → free_table d n m' ≡ done m2
    → free_tables (suc n) d m ≡ done m2
unfolding free_tables
free_tables-next n d m m' m2 e f = rw (e, f) refl

module _ (m : Memory) (ds ts is : List ℕ) (held : ℕ → ℕ) (v : IsMemory m ds ts is held) (d : ℕ)
    (here : In d ds) where
  -- The loops of `env_free` take all that is mapped out of the map, keep the maps of the other directories,
  -- and free each table and each page that nothing else refers to.
  pub free_tables-IsMemory : (n : ℕ) → n ≤ user_tables → Unmapped m ds ts is held d n
  unfolding free_tables
  free_tables-IsMemory zero h = record {
    mem = m;
    tables = ts;
    left = is;
    done_ = refl;
    memory = v;
    gone = λ i b. absurd (omega arith);
    isolated = λ e vb y ne b. refl;
    kept = λ p l. l;
  }
  free_tables-IsMemory (suc n) h =
      let u = free_tables-IsMemory n (omega arith) in
      let f = free_table-Freed u.mem ds u.tables u.left held u.memory d n here (omega arith) in
      record {
        mem = f.mem;
        tables = f.tables;
        left = f.left;
        done_ = free_tables-next n d m u.mem f.mem u.done_ f.done_;
        memory = f.memory;
        gone = λ i b. elim (last_or_before i n b) [
          | inl e ↦ ap (λ (y : ℕ). f.mem.words d y) e ∙ f.gone
          | inr e ↦ f.others i e.0 ∙ u.gone i e.1
        ];
        isolated = λ e vb y ne b. f.isolated e vb y ne b ∙ u.isolated e vb y ne b;
        kept = λ p l. f.kept p (u.kept p l);
      }
