-- ===== src/Kern/UserMem.antt =====
-- `user_mem_check` of sched/kern/pmap.c: whether a user may access a range of addresses.
use Prim.Native.Nat.{bit_and, bit_or}
use sis_ops.Common.{
  ◌⊎◌, ℕ, zero, suc, ◌+◌, ◌-◌, ◌*◌, ◌/◌, ◌%◌, ◌^◌, ◌<◌, ◌≤◌, ◌≡◌, ◌≢◌, ◌↔◌, refl, ap, ◌∙◌, inl, inr,
  List, Option, some, none, Bool, true, false, if◌then◌else◌, ◌==◌, ltb, arith, Bool-cases,
}
use sis_ops.Kern.Pages.{Ended, done}
use sis_ops.Kern.Paging.{pdx, ptx, pgnum, pte_p, pgsize, Memory, ◌>>=◌, pgdir_walk}
use sis_ops.Kern.AddressMap.{utop}
use sis_ops.Kern.Mapping.{IsSpace, Used-lt, walk_present, walk_absent}

-- `(pte & (perm | PTE_P)) == (perm | PTE_P)`
abbrev permits : ℕ → ℕ → Bool
permits pte perm = bit_and pte (bit_or perm pte_p) == bit_or perm pte_p

-- Whether the page at an address has an entry that permits the access.
unfoldable pub page_allowed : Memory → ℕ → ℕ → ℕ → Ended Bool
page_allowed m pgdir va perm = pgdir_walk m pgdir va false >>= λ r. elim r.0 [
  | none ↦ done false
  | some ptr ↦ done (permits (m.words ptr.0 ptr.1) perm)
]

-- The loop, by the number of pages left; the result is the first address refused, if any.
unfoldable pub check_pages : ℕ → Memory → ℕ → ℕ → ℕ → ℕ → Ended (Option ℕ)
unfolding page_allowed
check_pages zero m pgdir va_lo va_act perm = done none
check_pages (suc n) m pgdir va_lo va_act perm =
    let rest = check_pages n m pgdir va_lo (va_act + pgsize) perm in
    page_allowed m pgdir va_act perm >>= λ allowed.
    if allowed then rest else done (some (if ltb va_lo va_act then va_act else va_lo))

-- ROUNDDOWN and ROUNDUP to a page, in 32 bits.
abbrev round_down : ℕ → ℕ
round_down a = a / 4096 * 4096

abbrev round_up : ℕ → ℕ
round_up a = round_down ((a + 4095) % 2 ^ 32)

-- `none` is the result 0; `some` is -E_FAULT, with `user_mem_check_addr`.
unfoldable pub user_mem_check : Memory → ℕ → ℕ → ℕ → ℕ → Ended (Option ℕ)
unfolding check_pages
user_mem_check m pgdir va len perm =
    let va_hi = round_up ((va + len) % 2 ^ 32) in
    if ltb utop va_hi
    then done (some va)
    else check_pages ((va_hi - round_down va) / 4096) m pgdir va (round_down va) perm

-- The page with this number may be accessed.
abbrev Allowed : Memory → ℕ → ℕ → ℕ → Type 0
Allowed m d perm n =
    (m.words d (pdx (n * 4096)) ≢ 0)
    × (permits (m.words (pgnum (m.words d (pdx (n * 4096)))) (ptx (n * 4096))) perm ≡ true)

page_allowed_lem :
    (m : Memory) (d n perm : ℕ) (is : List ℕ)
    → IsSpace m d is
    → n * 4096 < utop
    → (b : Bool) × (page_allowed m d (n * 4096) perm ≡ done b) × ((b ≡ true) ↔ Allowed m d perm n)
page_allowed_lem m d n perm is s h = elim (Bool-cases (m.words d (pdx (n * 4096)) == 0)) [
  | inl no_table ↦
      let z : m.words d (pdx (n * 4096)) ≡ 0 = ground arith in
      (
        false,
        absent m d (n * 4096) perm (walk_absent m d (n * 4096) z),
        ((λ e. cc), (λ a. absurd (a.0 z))),
      )
  | inr table ↦
      let nz : m.words d (pdx (n * 4096)) ≢ 0 = λ z. ground arith in
      let walk =
        walk_present m d (n * 4096) false nz (Used-lt m.alloc _ (s.table _ (omega arith) nz)) in
      (
        permits (m.words (pgnum (m.words d (pdx (n * 4096)))) (ptx (n * 4096))) perm,
        present m d (n * 4096) perm _ _ walk,
        ((λ e. (nz, e)), (λ a. a.1)),
      )
]
  where
    absent :
        (m : Memory) (d va perm : ℕ)
        → pgdir_walk m d va false ≡ done (none, m)
        → page_allowed m d va perm ≡ done false
    absent m d va perm e = unfold page_allowed in ground arith

    present :
        (m : Memory) (d va perm t j : ℕ)
        → pgdir_walk m d va false ≡ done (some (t, j), m)
        → page_allowed m d va perm ≡ done (permits (m.words t j) perm)
    present m d va perm t j e = unfold page_allowed in ground arith

-- The first page from number `k` on that is refused, and the address reported for it.
pub record Refused (m : Memory) (d perm va k n a : ℕ) : Type 0 where
  pub page : ℕ
  pub first : k ≤ page
  pub within : page < k + n
  pub allowed : (i : ℕ) → k ≤ i → i < page → Allowed m d perm i
  pub refused : Allowed m d perm page → ⊥
  pub address : a ≡ (if ltb va (page * 4096) then page * 4096 else va)

-- What the check of `n` pages from number `k` on gives.
abbrev pub Checked : Memory → ℕ → ℕ → ℕ → ℕ → ℕ → Ended (Option ℕ) → Type 0
Checked m d perm va k n r =
    ((r ≡ done none) × ((i : ℕ) → k ≤ i → i < k + n → Allowed m d perm i))
    ⊎ ((a : ℕ) × (r ≡ done (some a)) × Refused m d perm va k n a)

check_pages-false :
    (n : ℕ) (m : Memory) (d lo a perm : ℕ)
    → page_allowed m d a perm ≡ done false
    → check_pages (suc n) m d lo a perm ≡ done (some (if ltb lo a then a else lo))
unfolding check_pages
check_pages-false n m d lo a perm e = ground arith

check_pages-true :
    (n : ℕ) (m : Memory) (d lo a perm : ℕ)
    → page_allowed m d a perm ≡ done true
    → check_pages (suc n) m d lo a perm ≡ check_pages n m d lo (a + pgsize) perm
unfolding check_pages
check_pages-true n m d lo a perm e = ground arith

Refused-suc :
    (m : Memory) (d perm va k n a : ℕ)
    → Allowed m d perm k
    → Refused m d perm va (k + 1) n a
    → Refused m d perm va k (suc n) a
Refused-suc m d perm va k n a ok r = record {
  page = r.page;
  first = omega (arith, r.first);
  within = omega (arith, r.within);
  allowed = λ i h l. elim (Bool-cases (i == k)) [
    | inl at ↦ let e : i ≡ k = ground arith in rw e ok
    | inr off ↦ r.allowed i (ground arith) l
  ];
  refused = r.refused;
  address = r.address;
}

check_pages-Checked :
    (n : ℕ) (m : Memory) (d lo k perm : ℕ) (is : List ℕ)
    → IsSpace m d is
    → (k + n) * 4096 ≤ utop
    → Checked m d perm lo k n (check_pages n m d lo (k * 4096) perm)
check_pages-Checked zero m d lo k perm is s h =
    inl (unfold check_pages in refl, λ i a b. absurd (omega arith))
check_pages-Checked (suc n) m d lo k perm is s h =
    let one = page_allowed_lem m d k perm is s (omega arith) in
    let next : k * 4096 + pgsize ≡ (k + 1) * 4096 = omega arith in
    let rest = check_pages-Checked n m d lo (k + 1) perm is s (omega arith) in
    elim (Bool-cases one.0) [
      | inl yes_ ↦
          let step =
            check_pages-true n m d lo (k * 4096) perm (one.1 ∙ ap done yes_)
            ∙ ap (λ (x : ℕ). check_pages n m d lo x perm) next in
          elim rest [
            | inl r ↦ inl (
              step ∙ r.0,
              λ i a b. elim (Bool-cases (i == k)) [
                | inl at ↦ let e : i ≡ k = ground arith in rw e (one.2.0 yes_)
                | inr off ↦ r.1 i (ground arith) (omega arith)
              ],
            )
            | inr r ↦ inr (r.0, step ∙ r.1, Refused-suc m d perm lo k n r.0 (one.2.0 yes_) r.2)
          ]
      | inr no_ ↦ inr (
        _,
        check_pages-false n m d lo (k * 4096) perm (one.1 ∙ ap done no_),
        record {
          page = k;
          first = omega arith;
          within = omega arith;
          allowed = λ i a b. absurd (omega arith);
          refused = λ a. let t = one.2.1 a in cc;
          address = refl;
        },
      )
    ]

-- The number of pages that a range touches.
abbrev pub pages_in : ℕ → ℕ → ℕ
pages_in va len = (va + len + 4095) / 4096 - va / 4096

in_range :
    (m : Memory) (d va len perm hi n : ℕ)
    → round_up ((va + len) % 2 ^ 32) ≡ hi
    → (hi - round_down va) / 4096 ≡ n
    → hi ≤ utop
    → user_mem_check m d va len perm ≡ check_pages n m d va (round_down va) perm
unfolding user_mem_check
in_range m d va len perm hi n e f h =
    let test : ltb utop (round_up ((va + len) % 2 ^ 32)) ≡ false = rw e (ground arith) in
    rw test (rw (e, f) refl)

past_end :
    (m : Memory) (d va len perm : ℕ)
    → utop < round_up ((va + len) % 2 ^ 32)
    → user_mem_check m d va len perm ≡ done (some va)
unfolding user_mem_check
past_end m d va len perm h = ground arith

-- For a range that does not wrap round the end of the address space: the check gives 0 exactly if the
-- range ends by UTOP, rounded up, and each of its pages permits the access; else it reports the start
-- of a range that ends later, or the first refused page, though no address before the range.
pub user_mem_check-Checked :
    (m : Memory) (d va len perm : ℕ) (is : List ℕ)
    → IsSpace m d is
    → va + len + 4095 < 2 ^ 32
    → ((va + len + 4095) / 4096 * 4096 ≤ utop
        → Checked m d perm va (va / 4096) (pages_in va len) (user_mem_check m d va len perm))
      × (utop < (va + len + 4095) / 4096 * 4096 → user_mem_check m d va len perm ≡ done (some va))
user_mem_check-Checked m d va len perm is s h = (inside, outside)
  where
    hi : round_up ((va + len) % 2 ^ 32) ≡ (va + len + 4095) / 4096 * 4096
    hi = omega arith

    inside :
        (va + len + 4095) / 4096 * 4096 ≤ utop
        → Checked m d perm va (va / 4096) (pages_in va len) (user_mem_check m d va len perm)
    inside b =
        let n : ((va + len + 4095) / 4096 * 4096 - round_down va) / 4096 ≡ pages_in va len =
          omega arith in
        rw (in_range m d va len perm _ (pages_in va len) hi n b)
          (check_pages-Checked (pages_in va len) m d va (va / 4096) perm is s (omega arith))

    outside :
        utop < (va + len + 4095) / 4096 * 4096 → user_mem_check m d va len perm ≡ done (some va)
    outside b = past_end m d va len perm (rw hi b)

-- A range that wraps round the end of the address space passes with no page tested, whatever is mapped
-- there, if what is left of it behind the end lies below its start and UTOP.
pub user_mem_check_wraps :
    (m : Memory) (d va len perm : ℕ)
    → va < 2 ^ 32
    → len < 2 ^ 32
    → 2 ^ 32 ≤ va + len + 4095
    → (va + len + 4095 - 2 ^ 32) / 4096 * 4096 ≤ utop
    → (va + len + 4095 - 2 ^ 32) / 4096 ≤ va / 4096
    → user_mem_check m d va len perm ≡ done none
user_mem_check_wraps m d va len perm hv hl wraps low below =
    let hi : round_up ((va + len) % 2 ^ 32) ≡ (va + len + 4095 - 2 ^ 32) / 4096 * 4096 =
      omega arith in
    let n : ((va + len + 4095 - 2 ^ 32) / 4096 * 4096 - round_down va) / 4096 ≡ 0 = omega arith in
    in_range m d va len perm _ 0 hi n low ∙ unfold check_pages in refl
