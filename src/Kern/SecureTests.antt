-- ===== src/Kern/SecureTests.antt =====
-- Examples for the memory in order.
use sis_ops.Common.{
  ◌⊎◌, ℕ, zero, suc, ◌+◌, ◌≡◌, ◌≢◌, refl, sym, ap, ◌∙◌, inl, inr, List, [], ◌∷◌, Option, some, none,
  true, false, ◌||◌, if◌then◌else◌, ◌==◌, arith, get_elem?, replicate, option_eq, Bool,
}
use sis_ops.Kern.{e_no_mem, Env}
use sis_ops.Kern.Links.{Distinct}
use sis_ops.Kern.Pages.{done}
use sis_ops.Kern.Paging.{pdx, Memory, page_insert}
use sis_ops.Kern.AddressMap.{Words, put, user_tables}
use sis_ops.Kern.Counting.{In, hit, times, rows, row-zero, rows-off, rows-put}
use sis_ops.Kern.Accounts.{refs, Shape, Counted, IsMemory}
use sis_ops.Kern.Keeping.{Emptied, page_remove-IsMemory}
use sis_ops.Kern.Adding.{Filled, page_insert-IsMemory}
use sis_ops.Kern.Envs.{is_free}
use sis_ops.Kern.Kernel.{Kernel, env_at}
use sis_ops.Kern.Secure.{nothing_held, IsSecure}
use sis_ops.Kern.SecureCalls.{Serves}
use sis_ops.Kern.SecureAlloc.{sys_page_alloc-IsSecure}
use sis_ops.Kern.SecureMap.{sys_page_map-IsSecure}
use sis_ops.Kern.Syscall.{sys_page_alloc, sys_page_map}
use sis_ops.Kern.Tests.{runner}
use sis_ops.Kern.SpaceTests.{page}
use sis_ops.Kern.CallTests as CallTests

abbrev zeros : Words
zeros p j = 0

-- Page 0 is a directory with the table 1, which maps page 2 at address 0.
abbrev words : Words
words = put (put zeros 0 0 4103) 1 0 8199

abbrev mem : Memory
mem = record {
  alloc = record {
    pages =
        page none 1 ∷ page none 1 ∷ page none 1 ∷ page none 1 ∷ page (some 5) 0 ∷ page none 0 ∷ [];
    page_free_list = some 4;
  };
  words = words;
  cur_pgdir = some (some 0);
  flushed = [];
}

abbrev ds : List ℕ
ds = 0 ∷ 3 ∷ []

abbrev ts : List ℕ
ts = 1 ∷ []

abbrev is : List ℕ
is = 4 ∷ 5 ∷ []

rows-zeros : (n : ℕ) (qs : List ℕ) (p : ℕ) → rows zeros n qs p ≡ 0
unfolding rows
rows-zeros n [] p = refl
rows-zeros n (q ∷ qs) p =
    let here = row-zero (zeros q) n p (λ j. refl) in
    let rest = rows-zeros n qs p in omega (arith, here, rest)

apart_dirs : Distinct ds
apart_dirs = (((λ e. omega arith), tt), (tt, tt))

dir_rows : (p : ℕ) → rows words user_tables ds p ≡ hit 4103 p
dir_rows p =
    let second =
      rows-off (put zeros 0 0 4103) words user_tables ds 1 p
        ((λ e. omega arith), ((λ e. omega arith), tt)) (λ r j ne. ground arith) in
    let first = rows-put zeros user_tables ds 0 0 4103 p (inl refl) apart_dirs (omega arith) in
    let none_before = rows-zeros user_tables ds p in omega (arith, first, second, none_before)

table_rows : (p : ℕ) → rows words 1024 ts p ≡ hit 8199 p
table_rows p =
    let second =
      rows-put (put zeros 0 0 4103) 1024 ts 1 0 8199 p (inl refl) (tt, tt) (omega arith) in
    let first =
      rows-off zeros (put zeros 0 0 4103) 1024 ts 0 p ((λ e. omega arith), tt)
        (λ r j ne. ground arith) in
    let none_before = rows-zeros 1024 ts p in omega (arith, first, second, none_before)

all_refs :
    (p : ℕ) → refs words ds ts p + 0 ≡ (if p == 0 || p == 1 || p == 2 || p == 3 then 1 else 0)
unfolding times
all_refs p =
    let d = dir_rows p in
    let t = table_rows p in
    let h : hit 4103 p ≡ (if p == 1 then 1 else 0) = ground arith in
    let g : hit 8199 p ≡ (if p == 2 then 1 else 0) = ground arith in ground (arith, d, t, h, g)

-- The one entry of a directory, and the one table.
dir_entry : (d i : ℕ) → In d ds → words d i ≢ 0 → (d ≡ 0) × (i ≡ 0)
dir_entry d i x n = elim x [
  | inl a ↦ (a, ground (arith, a))
  | inr y ↦ elim y [ inl a ↦ absurd (ground (arith, a)) | inr a ↦ absurd a ]
]

table_is : (t : ℕ) → In t ts → t ≡ 1
table_is t x = elim x [ inl a ↦ a | inr a ↦ absurd a ]

dir_is : (d : ℕ) → In d ds → d ≢ 1
dir_is d x e = elim x [
  | inl a ↦ omega (arith, a)
  | inr y ↦ elim y [ inl a ↦ omega (arith, a) | inr a ↦ absurd a ]
]

shape : Shape words ds ts
shape = record {
  dirs = apart_dirs;
  tables = (tt, tt);
  apart = λ t d x y e. dir_is d y (sym e ∙ table_is t x);
  table = λ d i x h n. let o = dir_entry d i x n in inl (ground (arith, o));
  once = λ d e i k x y h g n o q.
      let a = dir_entry d i x n in let b = dir_entry e k y o in (a.0 ∙ sym b.0, a.1 ∙ sym b.1);
  owned = λ t x. (0, 0, inl refl, omega arith, (λ e. ground arith), sym (table_is t x));
  wide = λ t j x h. let a = table_is t x in ground arith;
  odd_dir = λ d i x h n. let o = dir_entry d i x n in ground arith;
  odd_table = λ t j x n. let a = table_is t x in ground arith;
}

counted : (p : ℕ) → Counted mem.alloc p (refs words ds ts p + 0)
counted zero h = (page none 1, refl, refl, sym (all_refs 0), omega arith)
counted (suc zero) h = (page none 1, refl, refl, sym (all_refs 1), omega arith)
counted (suc (suc zero)) h = (page none 1, refl, refl, sym (all_refs 2), omega arith)
counted (suc (suc (suc zero))) h = (page none 1, refl, refl, sym (all_refs 3), omega arith)
counted (suc (suc (suc (suc p)))) h =
    let a = all_refs (suc (suc (suc (suc p)))) in absurd (ground (arith, a, h))

mem-IsMemory : IsMemory mem ds ts is nothing_held
mem-IsMemory = record {
  free = record {
    chain = (refl, page (some 5) 0, refl, (refl, page none 0, refl, refl));
    distinct = (((λ e. omega arith), tt), (tt, tt));
    unused = (refl, (refl, tt));
  };
  shape = shape;
  counted = counted;
}

page_remove-IsMemory_example : Emptied mem ds ts is nothing_held mem-IsMemory 0 0
page_remove-IsMemory_example =
    page_remove-IsMemory mem ds ts is nothing_held mem-IsMemory 0 0 (inl refl) (omega arith)

-- Page 2 once more, at 0x400000, where there is no table.
page_insert-IsMemory_example :
    Filled mem ds ts is nothing_held 0 2 4194304 6
    ⊎ ((is ≡ [])
        × (mem.words 0 (pdx 4194304) ≡ 0)
        × (page_insert mem 0 2 4194304 6 ≡ done (some e_no_mem, mem)))
page_insert-IsMemory_example =
    page_insert-IsMemory mem ds ts is nothing_held 0 2 4194304 6 (page none 1) mem-IsMemory
      (inl refl) (omega arith) (omega arith) ((λ e. omega arith), ((λ e. omega arith), tt)) refl
      refl (sym (all_refs 2)) (omega arith)

abbrev waiting : Env
waiting = record CallTests.waiting { env_pgdir = some 3 }

abbrev kernel : Kernel
kernel = record CallTests.kernel {
  cpu = record CallTests.kernel.cpu { envs = runner ∷ waiting ∷ replicate 1022 CallTests.unused };
  alloc = mem.alloc;
  words = words;
}

true-ne-false : ◌≢◌ {A = Bool} true false
true-ne-false e = ground arith

of_replicate : {A : Type 0} → (n i : ℕ) (x y : A) → get_elem? (replicate n x) i ≡ some y → x ≡ y
of_replicate zero i x y e = cc
of_replicate (suc n) zero x y e = cc
of_replicate (suc n) (suc i) x y e = of_replicate n i x y e

-- Which environments there are.
which :
    (i : ℕ) (e : Env)
    → env_at kernel i ≡ some e
    → is_free e.env_status ≡ false
    → ((i ≡ 0) × (runner ≡ e)) ⊎ ((i ≡ 1) × (waiting ≡ e))
which zero e h b = inl (refl, option_eq runner e h)
which (suc zero) e h b = inr (refl, option_eq waiting e h)
which (suc (suc i)) e h b =
    let u = of_replicate 1022 i CallTests.unused e h in
    absurd (true-ne-false (ap (λ (x : Env). is_free x.env_status) u ∙ b))

apart : ◌≢◌ {A = Option ℕ} (some 0) (some 3)
apart e = ground arith

kernel-IsSecure : IsSecure kernel ds ts is
kernel-IsSecure = record {
  memory_ = mem-IsMemory;
  full = refl;
  dir = λ i e h b. elim (which i e h b) [
    | inl o ↦ (0, ap (λ (x : Env). x.env_pgdir) (sym o.1), inl refl)
    | inr o ↦ (3, ap (λ (x : Env). x.env_pgdir) (sym o.1), inr (inl refl))
  ];
  own = λ i j e f g h a b same. elim (which i e g a) [
    | inl o ↦ elim (which j f h b) [
      | inl q ↦ o.0 ∙ sym q.0
      | inr q ↦ absurd (
          apart
            (ap (λ (x : Env). x.env_pgdir) o.1 ∙ same ∙ ap (λ (x : Env). x.env_pgdir) (sym q.1)))
    ]
    | inr o ↦ elim (which j f h b) [
      | inl q ↦ absurd (
          apart (
            ap (λ (x : Env). x.env_pgdir) q.1 ∙ sym same ∙ ap (λ (x : Env). x.env_pgdir) (sym o.1)))
      | inr q ↦ o.0 ∙ sym q.0
    ]
  ];
  current = (0, runner, refl, refl, refl);
}

sys_page_alloc-IsSecure_example : Serves kernel ds ts is 4096 (sys_page_alloc kernel 4096 4194304 6)
sys_page_alloc-IsSecure_example =
    sys_page_alloc-IsSecure kernel ds ts is kernel-IsSecure 4096 4194304 6 (omega arith)

sys_page_map-IsSecure_example :
    Serves kernel ds ts is 4096 (sys_page_map kernel 4096 0 4096 4194304 6)
sys_page_map-IsSecure_example =
    sys_page_map-IsSecure kernel ds ts is kernel-IsSecure 4096 0 4096 4194304 6 (omega arith)
      (omega arith, (omega arith, (omega arith, (omega arith, (omega arith, (omega arith, tt))))))
