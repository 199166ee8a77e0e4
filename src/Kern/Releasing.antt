-- ===== src/Kern/Releasing.antt =====
-- `env_free` of sched/kern/env.c, where it gives the page directory back.
use sis_ops.Common.{
  ℕ, ◌+◌, ◌-◌, ◌<◌, ◌≡◌, ◌≢◌, ap, inl, inr, List, none, some, Bool, true, if◌then◌else◌, ◌==◌,
  arith, Bool-cases, get_elem?,
}
use mathlib.Core.Path.{subst}
use sis_ops.Kern.Pages.{PageInfo, Pages, done, page_decref}
use sis_ops.Kern.Paging.{Memory}
use sis_ops.Kern.AddressMap.{user_tables}
use sis_ops.Kern.Counting.{In}
use sis_ops.Kern.Accounts.{Live, refs, Counted, IsMemory, dir-refs}
use sis_ops.Kern.Entries.{Isolated}
use sis_ops.Kern.Giving.{Given, page_decref-Given}
use sis_ops.Kern.Keeping.{Counted-same}
use sis_ops.Kern.Leaving.{without, refs-left, Shape-left}
use sis_ops.Kern.Unmapping.{Unmapped, free_tables-IsMemory}
use sis_ops.Kern.Kernel.{free_tables}

-- A whole address space is gone.
abbrev one_ref : ℕ
one_ref = 1

pub record Ceded (m : Memory) (ds ts is : List ℕ) (held : ℕ → ℕ) (d : ℕ) : Type 0 where
  pub mem : Memory
  pub got : Pages
  pub tables : List ℕ
  pub left : List ℕ
  pub unmapped : free_tables user_tables d m ≡ done mem
  pub given : page_decref d mem.alloc ≡ done got
  pub memory : IsMemory (record mem { alloc = got }) (without d ds) tables left held
  pub isolated : Isolated m.words mem.words ds d
  pub kept :
      (p : ℕ) → Live m.words ds ts is held p → Live mem.words (without d ds) tables left held p

module _ (m : Memory) (ds ts is : List ℕ) (held : ℕ → ℕ) (v : IsMemory m ds ts is held) (d : ℕ)
    (here : In d ds) where
  u : Unmapped m ds ts is held d user_tables
  u = free_tables-IsMemory m ds ts is held v d here user_tables (omega arith)

  info :
      (i : PageInfo) × (get_elem? u.mem.alloc.pages d ≡ some i)
      × (i.pp_link ≡ none)
      × (i.pp_ref ≡ refs u.mem.words ds u.tables d + held d)
      × (i.pp_ref < 65536)
  info =
      let r = dir-refs u.mem ds u.tables u.left held u.memory d here in
      u.memory.counted d (omega (arith, r))

  fewer :
      (p : ℕ)
      → refs u.mem.words (without d ds) u.tables p + (if d == p then 1 else 0)
        ≡ refs u.mem.words ds u.tables p
  fewer = refs-left u.mem.words ds u.tables u.memory.shape d here u.gone

  one_less : refs u.mem.words (without d ds) u.tables d + 1 ≡ refs u.mem.words ds u.tables d
  one_less =
      let at : (d == d) ≡ true = ground arith in
      let one = ap (λ (b : Bool). if b then one_ref else 0) at in omega (arith, fewer d, one)

  given : Given u.mem.alloc d info.0 u.left
  given =
      page_decref-Given u.mem.alloc d info.0 u.left u.memory.free info.1 info.2
        (omega (arith, one_less, info.3)) info.4

  left-IsMemory :
      IsMemory (record u.mem { alloc = given.got }) (without d ds) u.tables given.left held
  left-IsMemory = record {
    free = given.free;
    shape = Shape-left u.mem.words ds u.tables u.memory.shape d here u.gone;
    counted = λ p. elim (Bool-cases (d == p)) [
      | inl at ↦
          let e : d ≡ p = ground arith in
          subst
            (λ (y : ℕ). Counted given.got y (refs u.mem.words (without d ds) u.tables y + held y)) e
            count_here
      | inr off ↦
          let ne : p ≢ d = λ e. ground arith in
          let same : refs u.mem.words (without d ds) u.tables p ≡ refs u.mem.words ds u.tables p =
            let f = fewer p in
            let g = ap (λ (b : Bool). if b then one_ref else 0) off in omega (arith, f, g) in
          Counted-same u.mem.alloc given.got p _ _ (given.others p ne)
            (ap (λ (y : ℕ). y + held p) same) (u.memory.counted p)
    ];
  }
    where
      count_here : Counted given.got d (refs u.mem.words (without d ds) u.tables d + held d)
      count_here h =
          let more : 1 < info.0.pp_ref = omega (arith, one_less, info.3) in
          (
            record info.0 { pp_ref = info.0.pp_ref - 1 },
            given.still more,
            info.2,
            omega (arith, one_less, info.3),
            omega (arith, info.4),
          )

  -- No page is lost: the directory is free with its last reference.
  left-Live :
      (p : ℕ)
      → Live u.mem.words ds u.tables u.left held p
      → Live u.mem.words (without d ds) u.tables given.left held p
  left-Live p (inl x) = inl (given.keeps p x)
  left-Live p (inr h) = elim (Bool-cases (d == p)) [
    | inr off ↦
        let f = fewer p in
        let g = ap (λ (b : Bool). if b then one_ref else 0) off in inr (omega (arith, f, g, h))
    | inl at ↦
        let e : d ≡ p = ground arith in
        subst (λ (q : ℕ). Live u.mem.words (without d ds) u.tables given.left held q) e here_Live
  ]
    where
      here_Live : Live u.mem.words (without d ds) u.tables given.left held d
      here_Live = elim (Bool-cases (info.0.pp_ref == 1)) [
        | inl one ↦ inl (given.last (ground arith))
        | inr more ↦
            let ne : info.0.pp_ref ≢ 1 = λ e. ground arith in
            inr (omega (arith, one_less, info.3, ne))
      ]

  pub free_tables-Ceded : Ceded m ds ts is held d
  unfolding u given
  free_tables-Ceded = record {
    mem = u.mem;
    got = given.got;
    tables = u.tables;
    left = given.left;
    unmapped = u.done_;
    given = given.done_;
    memory = left-IsMemory;
    isolated = u.isolated;
    kept = λ p l. left-Live p (u.kept p l);
  }
