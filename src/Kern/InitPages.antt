-- ===== src/Kern/InitPages.antt =====
-- The free list that `page_init` of sched/kern/pmap.c makes.
use sis_ops.Common.{
  ℕ, zero, suc, ◌<◌, ◌≤◌, ◌≡◌, ◌≢◌, refl, ap, ◌∙◌, inl, inr, List, [], ◌∷◌, some, none, true, false,
  if◌then◌else◌, arith, Bool-cases, length, length-set, get_elem?, set, All,
}
use sis_ops.Kern.Pages.{
  PageInfo, Pages, Ended, done, reserved, init_page, init_pages, page_init, and_then,
}
use sis_ops.Kern.FreePages.{Free, Free-set, Free-push, get_elem?-lt}

-- The pages below `n` that are not kept, the highest first.
unreserved : ℕ → ℕ → List ℕ
unreserved first zero = []
unreserved first (suc n) =
    let lower = unreserved first n in if reserved first n then lower else n ∷ lower

unreserved-lt : (first n k : ℕ) → n ≤ k → All (λ j. j ≢ k) (unreserved first n)
unfolding unreserved
unreserved-lt first zero k h = tt
unreserved-lt first (suc n) k h =
    let lower = unreserved-lt first n k (omega arith) in
    elim (Bool-cases (reserved first n)) [
      | inl kept ↦ rw kept lower
      | inr not_kept ↦ rw not_kept (λ e. omega arith, lower)
    ]

some_page :
    (xs : List PageInfo) (i : ℕ) → i < length xs → (p : PageInfo) × (get_elem? xs i ≡ some p)
some_page [] i h = absurd (omega arith)
some_page (x ∷ xs) zero h = (x, refl)
some_page (x ∷ xs) (suc i) h = some_page xs i (omega arith)

init_page-kept :
    (first i : ℕ) (m : Pages) (p : PageInfo)
    → get_elem? m.pages i ≡ some p
    → reserved first i ≡ true
    → init_page first i m ≡ done (record m { pages = set m.pages i (record p { pp_link = none }) })
unfolding init_page
init_page-kept first i m p g r = ground arith

init_page-free :
    (first i : ℕ) (m : Pages) (p : PageInfo)
    → get_elem? m.pages i ≡ some p
    → reserved first i ≡ false
    → init_page first i m
      ≡ done (record {
        pages = set m.pages i (record p { pp_link = m.page_free_list; pp_ref = 0 });
        page_free_list = some i;
      })
unfolding init_page
init_page-free first i m p g r = ground arith

init_pages-Free :
    (first n : ℕ) (m : Pages)
    → m.page_free_list ≡ none
    → n ≤ length m.pages
    → (m' : Pages) × (init_pages first n m ≡ done m')
      × (length m'.pages ≡ length m.pages)
      × Free m' (unreserved first n)
init_pages-Free first zero m e h = (
  m,
  unfold init_pages in refl,
  refl,
  unfold unreserved in record { chain = e; distinct = tt; unused = tt },
)
init_pages-Free first (suc n) m e h =
    let before = init_pages-Free first n m e (omega arith) in
    let m1 = before.0 in
    let p = some_page m1.pages n (omega (arith, before.2)) in
    let ne = unreserved-lt first n n (omega arith) in
    let step = init_pages_suc first n m m1 before.1 in
    elim (Bool-cases (reserved first n)) [
      | inl kept ↦
          let p' : PageInfo = record p.0 { pp_link = none } in
          (
            record m1 { pages = set m1.pages n p' },
            step ∙ init_page-kept first n m1 p.0 p.1 kept,
            length-set m1.pages n p' ∙ before.2,
            rw (unreserved-kept first n kept) (Free-set m1 n p' (unreserved first n) ne before.3),
          )
      | inr free ↦
          let p' : PageInfo = record p.0 { pp_link = m1.page_free_list; pp_ref = 0 } in
          (
            record { pages = set m1.pages n p'; page_free_list = some n },
            step ∙ init_page-free first n m1 p.0 p.1 free,
            length-set m1.pages n p' ∙ before.2,
            rw (unreserved-free first n free) (
                Free-push m1 n p' (unreserved first n) (get_elem?-lt m1.pages n p.0 p.1) refl refl
                  ne before.3),
          )
    ]
  where
    init_pages_suc :
        (first n : ℕ) (m m1 : Pages)
        → init_pages first n m ≡ done m1
        → init_pages first (suc n) m ≡ init_page first n m1
    init_pages_suc first n m m1 e =
        unfold init_pages in ap (λ (r : Ended Pages). and_then r (init_page first n)) e

    unreserved-kept :
        (first n : ℕ) → reserved first n ≡ true → unreserved first (suc n) ≡ unreserved first n
    unreserved-kept first n r = unfold unreserved in rw r refl

    unreserved-free :
        (first n : ℕ) → reserved first n ≡ false → unreserved first (suc n) ≡ n ∷ unreserved first n
    unreserved-free first n r = unfold unreserved in rw r refl

-- `page_init` makes free exactly the pages that are not kept: neither the first, nor that of
-- MPENTRY_PADDR, nor one of the hole or of what `boot_alloc` gave out; the highest comes first.
page_init-Free :
    (first : ℕ) (m : Pages)
    → m.page_free_list ≡ none
    → (m' : Pages) × (page_init first m ≡ done m') × Free m' (unreserved first (length m.pages))
unfolding page_init
page_init-Free first m e =
    let r = init_pages-Free first (length m.pages) m e (omega arith) in (r.0, r.1, r.3)
