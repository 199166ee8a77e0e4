-- ===== src/Kern/Giving.antt =====
-- What `page_decref` of sched/kern/pmap.c leaves of the pages and of the free list.
use sis_ops.Common.{
  ℕ, ◌+◌, ◌-◌, ◌<◌, ◌≡◌, ◌≢◌, refl, sym, ap, ◌∙◌, inl, inr, List, ◌∷◌, some, none, ◌==◌, arith,
  Bool-cases, length, length-set, get_elem?, set, get_elem?-set_self, get_elem?-set_ne, All,
}
use sis_ops.Kern.Counting.{In}
use sis_ops.Kern.Pages.{PageInfo, Pages, done, page_decref}
use sis_ops.Kern.FreePages.{
  Free, Free-set, Free-push, in_use, get_elem?-lt, page_decref-last, page_decref-more,
  page_free-unused,
}

-- The reference is given up: the other pages are as they were, and so is this one but for its count, while
-- there are other references. A free page stays free, and the page is free with its last reference.
pub record Given (k : Pages) (p : ℕ) (i : PageInfo) (is : List ℕ) : Type 0 where
  pub got : Pages
  pub left : List ℕ
  pub done_ : page_decref p k ≡ done got
  pub free : Free got left
  pub others : (j : ℕ) → j ≢ p → get_elem? got.pages j ≡ get_elem? k.pages j
  pub still : 1 < i.pp_ref → get_elem? got.pages p ≡ some (record i { pp_ref = i.pp_ref - 1 })
  pub keeps : (q : ℕ) → In q is → In q left
  pub last : i.pp_ref ≡ 1 → In p left
  pub count : length got.pages ≡ length k.pages

module _ (k : Pages) (p : ℕ) (i : PageInfo) (is : List ℕ) (f : Free k is)
    (here : get_elem? k.pages p ≡ some i) (alone : i.pp_link ≡ none) where
  busy : 0 < i.pp_ref → All (λ j. j ≢ p) is
  busy h = in_use k p i is here h f.unused

  give_last : i.pp_ref ≡ 1 → Given k p i is
  give_last one = record {
    got = record {
      pages = set k0.pages p (record i0 { pp_link = k.page_free_list });
      page_free_list = some p;
    };
    left = p ∷ is;
    done_ = page_decref-last k p i here one ∙ page_free-unused k0 p i0 there refl alone;
    free =
        Free-push k0 p (record i0 { pp_link = k.page_free_list }) is
          (get_elem?-lt k0.pages p i0 there) refl refl (busy (omega arith))
          (Free-set k p i0 is (busy (omega arith)) f);
    others = λ j n.
        get_elem?-set_ne k0.pages (record i0 { pp_link = k.page_free_list }) (λ e. n (sym e))
        ∙ get_elem?-set_ne k.pages i0 (λ e. n (sym e));
    still = λ h. absurd (omega arith);
    keeps = λ q x. inr x;
    last = λ e. inl refl;
    count =
        length-set k0.pages p (record i0 { pp_link = k.page_free_list }) ∙ length-set k.pages p i0;
  }
    where
      i0 : PageInfo
      i0 = record i { pp_ref = 0 }

      k0 : Pages
      k0 = record k { pages = set k.pages p i0 }

      there : get_elem? k0.pages p ≡ some i0
      there = get_elem?-set_self k.pages p i0 (get_elem?-lt k.pages p i here)

  give_more : 1 < i.pp_ref → i.pp_ref < 65536 → Given k p i is
  give_more h bound = record {
    got = record k { pages = set k.pages p i' };
    left = is;
    done_ = page_decref-more k p i (i.pp_ref - 2) here (omega arith) (omega arith);
    free = Free-set k p i' is (busy (omega arith)) f;
    others = λ j n. get_elem?-set_ne k.pages i' (λ e. n (sym e));
    still = λ _.
        get_elem?-set_self k.pages p i' (get_elem?-lt k.pages p i here)
        ∙ ap (λ (r : ℕ). some (record i { pp_ref = r })) (omega arith);
    keeps = λ q x. x;
    last = λ e. absurd (omega arith);
    count = length-set k.pages p i';
  }
    where
      i' : PageInfo
      i' = record i { pp_ref = i.pp_ref - 2 + 1 }

  pub page_decref-Given : 0 < i.pp_ref → i.pp_ref < 65536 → Given k p i is
  page_decref-Given h bound = elim (Bool-cases (i.pp_ref == 1)) [
    | inl one ↦ give_last (ground arith)
    | inr more ↦ give_more (ground arith) bound
  ]
