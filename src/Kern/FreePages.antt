-- ===== src/Kern/FreePages.antt =====
-- The list of free pages, through allocation and release.
use sis_ops.Common.{
  Option-cases, inl, inr, ℕ, zero, suc, ◌+◌, ◌-◌, ◌%◌, ◌<◌, ◌≡◌, ◌≢◌, refl, sym, ap, ◌∙◌, List, [],
  ◌∷◌, Option, some, none, length, length-set, get_elem?, set, get_elem?-set_self, get_elem?-set_ne,
  option_eq, arith, All,
}
use sis_ops.Kern.Links.{Chain, Chain-set, Chain-push, Distinct}
use sis_ops.Kern.Pages.{PageInfo, Pages, done, page_alloc, page_free, page_decref}

abbrev link_of : PageInfo → Option ℕ
link_of p = p.pp_link

abbrev ref_of : Option PageInfo → Option ℕ
ref_of none = none
ref_of (some p) = some p.pp_ref

abbrev ref_at : Pages → ℕ → Option ℕ
ref_at m i = ref_of (get_elem? m.pages i)

-- These are the free pages, in the order in which they are handed out; none is referred to.
pub record Free (m : Pages) (is : List ℕ) : Type 0 where
  pub chain : Chain link_of m.pages m.page_free_list is
  pub distinct : Distinct is
  pub unused : All (λ i. ref_at m i ≡ some 0) is

-- What allocation does when the free pages are these: null and no change, or the first page, and the
-- others stay free.
abbrev pub HandsOut : Pages → List ℕ → Type 0
HandsOut m [] = page_alloc m ≡ done (none, m)
HandsOut m (i ∷ is) =
    (m' : Pages) × (page_alloc m ≡ done (some i, m'))
    × Free m' is
    × ((p : PageInfo) × (get_elem? m'.pages i ≡ some p) × (p.pp_link ≡ none) × (p.pp_ref ≡ 0))
    × (length m'.pages ≡ length m.pages)

page_alloc-nil : (m : Pages) → m.page_free_list ≡ none → page_alloc m ≡ done (none, m)
unfolding page_alloc
page_alloc-nil m e = ground arith

page_alloc-cons :
    (m : Pages) (i : ℕ) (p : PageInfo)
    → m.page_free_list ≡ some i
    → get_elem? m.pages i ≡ some p
    → page_alloc m
      ≡ done (
        some i,
        record { pages = set m.pages i (record p { pp_link = none }); page_free_list = p.pp_link },
      )
unfolding page_alloc
page_alloc-cons m i p e g = ground arith

refs-set :
    (m : Pages) (i : ℕ) (p : PageInfo) (head : Option ℕ) (is : List ℕ)
    → All (λ j. j ≢ i) is
    → All (λ j. ref_at m j ≡ some 0) is
    → All (λ j. ref_at (record { pages = set m.pages i p; page_free_list = head }) j ≡ some 0) is
refs-set m i p head [] ne h = tt
refs-set m i p head (j ∷ is) ne h = (
  ap ref_of (get_elem?-set_ne m.pages p (λ e. ne.0 (sym e))) ∙ h.0,
  refs-set m i p head is ne.1 h.1,
)

pub get_elem?-lt :
    {A : Type 0} → (xs : List A) (i : ℕ) (a : A) → get_elem? xs i ≡ some a → i < length xs
get_elem?-lt [] i a h = cc
get_elem?-lt (x ∷ xs) zero a h = omega arith
get_elem?-lt (x ∷ xs) (suc i) a h = let r = get_elem?-lt xs i a h in omega arith

-- Allocation hands out the first free page, with no link and no reference, the others staying free,
-- and null only if no page is free.
pub page_alloc-Free : (m : Pages) (is : List ℕ) → Free m is → HandsOut m is
page_alloc-Free m [] f = page_alloc-nil m f.chain
page_alloc-Free m (i ∷ is) f =
    let p = f.chain.1 in
    let p' : PageInfo = record p { pp_link = none } in
    let here = f.chain.2 in
    let ne = f.distinct.0 in
    (
      record { pages = set m.pages i p'; page_free_list = p.pp_link },
      page_alloc-cons m i p f.chain.0 here,
      record {
        chain = Chain-set link_of m.pages p.pp_link is i p' ne f.chain.3;
        distinct = f.distinct.1;
        unused = refs-set m i p' p.pp_link is ne f.unused.1;
      },
      (
        p',
        get_elem?-set_self m.pages i p' (get_elem?-lt m.pages i p here),
        refl,
        option_eq p.pp_ref 0 (sym (ap ref_of here) ∙ f.unused.0),
      ),
      length-set m.pages i p',
    )

-- A page that is referred to is not free.
pub in_use :
    (m : Pages) (i : ℕ) (p : PageInfo) (is : List ℕ)
    → get_elem? m.pages i ≡ some p
    → 0 < p.pp_ref
    → All (λ j. ref_at m j ≡ some 0) is
    → All (λ j. j ≢ i) is
in_use m i p [] g r h = tt
in_use m i p (j ∷ is) g r h = (differ, in_use m i p is g r h.1)
  where
    differ : j ≢ i
    differ e =
        let zero_ref = option_eq p.pp_ref 0 (sym (ap ref_of g) ∙ ap (ref_at m) (sym e) ∙ h.0) in
        omega arith

pub page_decref-last :
    (m : Pages) (i : ℕ) (p : PageInfo)
    → get_elem? m.pages i ≡ some p
    → p.pp_ref ≡ 1
    → page_decref i m ≡ page_free i (record m { pages = set m.pages i (record p { pp_ref = 0 }) })
unfolding page_decref
page_decref-last m i p g r = ground arith

pub page_decref-more :
    (m : Pages) (i : ℕ) (p : PageInfo) (k : ℕ)
    → get_elem? m.pages i ≡ some p
    → p.pp_ref ≡ k + 2
    → k + 2 < 65536
    → page_decref i m ≡ done (record m { pages = set m.pages i (record p { pp_ref = k + 1 }) })
unfolding page_decref
page_decref-more m i p k g r h =
    let left : (k + 2 + 65535) % 65536 ≡ k + 1 = omega arith in ground arith

pub page_free-unused :
    (m : Pages) (i : ℕ) (p : PageInfo)
    → get_elem? m.pages i ≡ some p
    → p.pp_ref ≡ 0
    → p.pp_link ≡ none
    → page_free i m
      ≡ done (record {
        pages = set m.pages i (record p { pp_link = m.page_free_list });
        page_free_list = some i;
      })
unfolding page_free
page_free-unused m i p g r l = ground arith

pub Free-set :
    (m : Pages) (i : ℕ) (p : PageInfo) (is : List ℕ)
    → All (λ j. j ≢ i) is
    → Free m is
    → Free (record m { pages = set m.pages i p }) is
Free-set m i p is ne f = record {
  chain = Chain-set link_of m.pages m.page_free_list is i p ne f.chain;
  distinct = f.distinct;
  unused = refs-set m i p m.page_free_list is ne f.unused;
}

-- A page becomes the first free one by its link and an empty count.
pub Free-push :
    (m : Pages) (i : ℕ) (v : PageInfo) (is : List ℕ)
    → i < length m.pages
    → v.pp_link ≡ m.page_free_list
    → v.pp_ref ≡ 0
    → All (λ j. j ≢ i) is
    → Free m is
    → Free (record { pages = set m.pages i v; page_free_list = some i }) (i ∷ is)
Free-push m i v is within l r ne f = record {
  chain = Chain-push link_of m.pages m.page_free_list is i v within l ne f.chain;
  distinct = (ne, f.distinct);
  unused = (
    ap ref_of (get_elem?-set_self m.pages i v within) ∙ ap some r,
    refs-set m i v (some i) is ne f.unused,
  );
}

-- A page that is referred to is no free page; when one of several references goes it stays so, and
-- with the last it becomes the first free page. Nothing panics.
pub page_decref-Free :
    (m : Pages) (is : List ℕ) (i : ℕ) (p : PageInfo)
    → Free m is
    → get_elem? m.pages i ≡ some p
    → p.pp_link ≡ none
    → 0 < p.pp_ref
    → p.pp_ref < 65536
    → (p.pp_ref ≡ 1 → (m' : Pages) × (page_decref i m ≡ done m') × Free m' (i ∷ is))
      × (1 < p.pp_ref → (m' : Pages) × (page_decref i m ≡ done m') × Free m' is)
page_decref-Free m is i p f g l r bound = (last, more)
  where
    ne : All (λ j. j ≢ i) is
    ne = in_use m i p is g r f.unused

    p0 : PageInfo
    p0 = record p { pp_ref = 0 }

    m0 : Pages
    m0 = record m { pages = set m.pages i p0 }

    here : get_elem? m0.pages i ≡ some p0
    here = get_elem?-set_self m.pages i p0 (get_elem?-lt m.pages i p g)

    last : p.pp_ref ≡ 1 → (m' : Pages) × (page_decref i m ≡ done m') × Free m' (i ∷ is)
    last one = (
      record {
        pages = set m0.pages i (record p0 { pp_link = m.page_free_list });
        page_free_list = some i;
      },
      page_decref-last m i p g one ∙ page_free-unused m0 i p0 here refl l,
      Free-push m0 i (record p0 { pp_link = m.page_free_list }) is (get_elem?-lt m0.pages i p0 here)
          refl refl ne (Free-set m i p0 is ne f),
    )

    more : 1 < p.pp_ref → (m' : Pages) × (page_decref i m ≡ done m') × Free m' is
    more h =
        let k = p.pp_ref - 2 in
        let p' : PageInfo = record p { pp_ref = k + 1 } in
        (
          record m { pages = set m.pages i p' },
          page_decref-more m i p k g (omega arith) (omega arith),
          Free-set m i p' is ne f,
        )

length-page_free : (m k : Pages) (i : ℕ) → page_free i m ≡ done k → length k.pages ≡ length m.pages
unfolding page_free
length-page_free m k i e = elim (Option-cases (get_elem? m.pages i)) [
  | inl g ↦ ground arith
  | inr g ↦
      let p' : PageInfo = record g.0 { pp_link = m.page_free_list } in
      ground (arith, g.1, length-set m.pages i p')
]

pub length-page_decref :
    (m k : Pages) (i : ℕ) → page_decref i m ≡ done k → length k.pages ≡ length m.pages
unfolding page_decref
length-page_decref m k i e = elim (Option-cases (get_elem? m.pages i)) [
  | inl g ↦ ground arith
  | inr g ↦
      let p' : PageInfo = record g.0 { pp_ref = (g.0.pp_ref + 65535) % 65536 } in
      let m' : Pages = record m { pages = set m.pages i p' } in
      ground (arith, g.1, length-set m.pages i p', length-page_free m' k i)
]

-- Allocation leaves the other pages.
pub page_alloc-others :
    (m m' : Pages) (i j : ℕ)
    → page_alloc m ≡ done (some i, m')
    → j ≢ i
    → get_elem? m'.pages j ≡ get_elem? m.pages j
unfolding page_alloc
page_alloc-others m m' i j e ne = elim (Option-cases m.page_free_list) [
  | inl empty ↦ ground arith
  | inr head ↦ elim (Option-cases (get_elem? m.pages head.0)) [
    | inl out ↦ ground (arith, head.1)
    | inr p ↦
        let p' : PageInfo = record p.0 { pp_link = none } in
        ground (arith, head.1, p.1, get_elem?-set_ne m.pages {i = head.0} {j = j} p')
  ]
]
