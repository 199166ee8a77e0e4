-- ===== src/Kern/Sweeping.antt =====
-- `env_free` of sched/kern/env.c, where it unmaps the user's part of an address space.
use Prim.Native.Nat.{bit_and}
use sis_ops.Common.{
  ℕ, zero, suc, ◌+◌, ◌*◌, ◌/◌, ◌%◌, ◌<◌, ◌≤◌, ◌≡◌, ◌≢◌, refl, sym, ap, ◌∙◌, inl, inr, List, Option,
  none, Bool, true, false, if◌then◌else◌, ◌==◌, arith, Bool-cases,
}
use sis_ops.Common.Bits.{bit_and-halves, bit_and-zero}
use mathlib.Core.Path.{subst}
use sis_ops.Kern.Pages.{done}
use sis_ops.Kern.Paging.{pdx, ptx, pgnum, pte_p, Memory, page_remove}
use sis_ops.Kern.AddressMap.{user_tables, Words, same_page, entry_of}
use sis_ops.Kern.Counting.{In}
use sis_ops.Kern.Accounts.{Live, IsMemory}
use sis_ops.Kern.Entries.{Isolated}
use sis_ops.Kern.Keeping.{Emptied, page_remove-IsMemory}
use sis_ops.Kern.Spaces.{same_page_refl}
use sis_ops.Kern.Kernel.{free_ptes}

pub bit_and-pte_p : (a : ℕ) → bit_and a pte_p ≡ a % 2
bit_and-pte_p a = omega (arith, bit_and-halves a 1, bit_and-zero (a / 2))

-- The address of an entry, `PGADDR(pdeno, n, 0)`.
abbrev pub addr : ℕ → ℕ → ℕ
addr pdeno n = pdeno * 4194304 + n * 4096

entry_of-empty :
    (w : Words) (d va : ℕ) → w (pgnum (w d (pdx va))) (ptx va) ≡ 0 → entry_of w d va ≡ none
entry_of-empty w d va e = ground arith

none_or_none : (b : Bool) (o : Option ℕ) → o ≡ none → (if b then none else o) ≡ none
none_or_none true o e = refl
none_or_none false o e = e

-- The entries below `n` of one table are gone.
pub record Swept (m : Memory) (ds ts is : List ℕ) (held : ℕ → ℕ) (d pdeno n : ℕ) : Type 0 where
  pub mem : Memory
  pub left : List ℕ
  pub done_ : free_ptes n d pdeno (pgnum (m.words d pdeno)) m ≡ done mem
  pub memory : IsMemory mem ds ts left held
  pub dirs : (i : ℕ) → mem.words d i ≡ m.words d i
  pub empty : (j : ℕ) → j < n → entry_of mem.words d (addr pdeno j) ≡ none
  pub isolated : Isolated m.words mem.words ds d
  pub kept : (p : ℕ) → Live m.words ds ts is held p → Live mem.words ds ts left held p

free_ptes-absent :
    (n d pdeno pt : ℕ) (m m' : Memory)
    → free_ptes n d pdeno pt m ≡ done m'
    → bit_and (m'.words pt n) pte_p ≡ 0
    → free_ptes (suc n) d pdeno pt m ≡ done m'
unfolding free_ptes
free_ptes-absent n d pdeno pt m m' e z = ground arith

free_ptes-present :
    (n d pdeno pt : ℕ) (m m' m2 : Memory)
    → free_ptes n d pdeno pt m ≡ done m'
    → bit_and (m'.words pt n) pte_p ≢ 0
    → page_remove m' d (addr pdeno n) ≡ done m2
    → free_ptes (suc n) d pdeno pt m ≡ done m2
unfolding free_ptes
free_ptes-present n d pdeno pt m m' m2 e z r = ground arith

module _ (m : Memory) (ds ts is : List ℕ) (held : ℕ → ℕ) (v : IsMemory m ds ts is held)
    (d pdeno : ℕ) (here : In d ds) (low : pdeno < user_tables) (there : m.words d pdeno ≢ 0) where
  start : Swept m ds ts is held d pdeno 0
  unfolding free_ptes
  start = record {
    mem = m;
    left = is;
    done_ = refl;
    memory = v;
    dirs = λ i. refl;
    empty = λ j h. absurd (omega arith);
    isolated = λ e vb y ne b. refl;
    kept = λ p l. l;
  }

  abbrev table : ℕ
  table = pgnum (m.words d pdeno)

  module _ (n : ℕ) (h : n < 1024) (s : Swept m ds ts is held d pdeno n) where
    same_dir : s.mem.words d pdeno ≡ m.words d pdeno
    same_dir = s.dirs pdeno

    in_ts : In table ts
    in_ts =
        subst (λ (y : ℕ). In (pgnum y) ts) same_dir
          (s.memory.table d pdeno here low (λ z. there (sym same_dir ∙ z)))

    addr_parts : (j : ℕ) → j < 1024 → (pdx (addr pdeno j) ≡ pdeno) × (ptx (addr pdeno j) ≡ j)
    addr_parts j b = (omega arith, omega arith)

    next_absent : bit_and (s.mem.words table n) pte_p ≡ 0 → Swept m ds ts is held d pdeno (suc n)
    next_absent z = record {
      mem = s.mem;
      left = s.left;
      done_ = free_ptes-absent n d pdeno table m s.mem s.done_ z;
      memory = s.memory;
      dirs = s.dirs;
      empty = λ j b. elim (Bool-cases (j == n)) [
        | inl e ↦
            let f : j ≡ n = ground arith in
            subst (λ (y : ℕ). entry_of s.mem.words d (addr pdeno y) ≡ none) (sym f) gone
        | inr e ↦ s.empty j (ground arith)
      ];
      isolated = s.isolated;
      kept = s.kept;
    }
      where
        word : s.mem.words table n ≡ 0
        word = elim (Bool-cases (s.mem.words table n == 0)) [
          | inl e ↦ ground arith
          | inr e ↦
              let o = s.memory.odd_table table n in_ts (λ f. ground arith) in
              let p = bit_and-pte_p (s.mem.words table n) in absurd (omega (arith, z, o, p))
        ]

        gone : entry_of s.mem.words d (addr pdeno n) ≡ none
        gone =
            let a = addr_parts n h in
            entry_of-empty s.mem.words d (addr pdeno n) (rw (a.0, a.1, same_dir) word)

    next_present : bit_and (s.mem.words table n) pte_p ≢ 0 → Swept m ds ts is held d pdeno (suc n)
    next_present z = record {
      mem = o.mem;
      left = o.left;
      done_ = free_ptes-present n d pdeno table m s.mem o.mem s.done_ z o.done_;
      memory = o.memory;
      dirs = λ i. o.removed.dirs i ∙ s.dirs i;
      empty = λ j b. o.removed.entries (addr pdeno j) (omega arith) ∙ gone j b;
      isolated = λ e vb y ne b. o.isolated e vb y ne b ∙ s.isolated e vb y ne b;
      kept = λ p l. o.kept p (s.kept p l);
    }
      where
        o : Emptied s.mem ds ts s.left held s.memory d (addr pdeno n)
        o =
            page_remove-IsMemory s.mem ds ts s.left held s.memory d (addr pdeno n) here
              (omega arith)

        gone :
            (j : ℕ)
            → j < suc n
            → (if same_page (addr pdeno n) (addr pdeno j)
                then none
                else entry_of s.mem.words d (addr pdeno j))
              ≡ none
        gone j b = elim (Bool-cases (j == n)) [
          | inl e ↦
              let f : j ≡ n = ground arith in
              let same =
                ap (λ (y : ℕ). same_page (addr pdeno n) (addr pdeno y)) f
                ∙ same_page_refl (addr pdeno n) in
              ap (λ (c : Bool). if c then none else entry_of s.mem.words d (addr pdeno j)) same
          | inr e ↦
              none_or_none (same_page (addr pdeno n) (addr pdeno j)) _ (s.empty j (ground arith))
        ]

    next : Swept m ds ts is held d pdeno (suc n)
    next = elim (Bool-cases (bit_and (s.mem.words table n) pte_p == 0)) [
      | inl z ↦ next_absent (ground arith)
      | inr z ↦ next_present (λ e. ground arith)
    ]

  pub sweep : (n : ℕ) → n ≤ 1024 → Swept m ds ts is held d pdeno n
  sweep zero h = start
  sweep (suc n) h = next n (omega arith) (sweep n (omega arith))
