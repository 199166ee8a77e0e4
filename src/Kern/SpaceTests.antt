-- ===== src/Kern/SpaceTests.antt =====
-- Examples for page tables.
use sis_ops.Common.{
  ℕ, ◌+◌, ◌*◌, ◌/◌, ◌<◌, ◌≤◌, ◌≡◌, ◌≢◌, refl, List, [], ◌∷◌, Option, some, none, ◌&&◌,
  if◌then◌else◌, ◌==◌, arith,
}
use sis_ops.Kern.Pages.{PageInfo, done}
use sis_ops.Kern.Paging.{pgnum, Memory}
use sis_ops.Kern.AddressMap.{utop, Words}
use sis_ops.Kern.Mapping.{Used, IsSpace}
use sis_ops.Kern.UserMem.{
  user_mem_check, Checked, pages_in, user_mem_check-Checked, user_mem_check_wraps,
}

abbrev pub page : Option ℕ → ℕ → PageInfo
page link refs = record { pp_link = link; pp_ref = refs }

-- Page 0 is a directory with the table 1, which maps page 2 at address 0; page 3 is free.
abbrev pub words : Words
words = λ p j. if p == 0 && j == 0 then 4103 else if p == 1 && j == 0 then 8199 else 0

abbrev pub memory : Memory
memory = record {
  alloc = record {
    pages = page none 1 ∷ page none 1 ∷ page none 1 ∷ page none 0 ∷ [];
    page_free_list = some 3;
  };
  words = words;
  cur_pgdir = some (some 0);
  flushed = [];
}

abbrev pub free_pages : List ℕ
free_pages = 3 ∷ []

dir_words : (i : ℕ) → words 0 i ≢ 0 → (i ≡ 0) × (words 0 i ≡ 4103)
dir_words i n = (ground arith, ground arith)

table_words : (j : ℕ) → words 1 j ≢ 0 → words 1 j ≡ 8199
table_words j n = ground arith

pub used_two : Used memory.alloc 2
used_two = (page none 1, refl, refl, omega arith, omega arith)

pub memory-IsSpace : IsSpace memory 0 (3 ∷ [])
memory-IsSpace = record {
  free = record {
    chain = (refl, page none 0, refl, refl);
    distinct = (tt, tt);
    unused = (refl, tt);
  };
  dir = (page none 1, refl, refl, omega arith, omega arith);
  tables = record {
    apart = λ i h n. ground (arith, dir_words i n);
    distinct = λ i k hi hk ni nk e. ground (arith, dir_words i ni, dir_words k nk);
  };
  table = λ i h n. rw ((dir_words i n).1) (page none 1, refl, refl, omega arith, omega arith);
  mapped = λ i j h n. mapped i j (dir_words i n).1;
}
  where
    mapped :
        (i j : ℕ)
        → words 0 i ≡ 4103
        → words (pgnum (words 0 i)) j ≢ 0
        → Used memory.alloc (pgnum (words (pgnum (words 0 i)) j))
    mapped i j e = rw e (λ n. rw (table_words j n) used_two)

user_mem_check-Checked_example :
    ((0 + 5000 + 4095) / 4096 * 4096 ≤ utop
      → Checked memory 0 5 0 (0 / 4096) (pages_in 0 5000) (user_mem_check memory 0 0 5000 5))
    × (utop < (0 + 5000 + 4095) / 4096 * 4096 → user_mem_check memory 0 0 5000 5 ≡ done (some 0))
user_mem_check-Checked_example =
    user_mem_check-Checked memory 0 0 5000 5 (3 ∷ []) memory-IsSpace (omega arith)

-- The last 256 MB, where the kernel lies.
user_mem_check_wraps_example : user_mem_check memory 0 4026531840 268435456 7 ≡ done none
user_mem_check_wraps_example =
    user_mem_check_wraps memory 0 4026531840 268435456 7 (omega arith) (omega arith) (omega arith)
      (omega arith) (omega arith)
