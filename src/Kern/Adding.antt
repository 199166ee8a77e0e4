-- ===== src/Kern/Adding.antt =====
-- `page_insert` of sched/kern/pmap.c in a memory with many page directories.
use mathlib.Core.Path.{subst}
use sis_ops.Common.{
  ◌⊎◌, ℕ, ◌+◌, ◌<◌, ◌≡◌, ◌≢◌, sym, ap, ◌∙◌, inl, inr, List, [], Option, some, none, Bool,
  if◌then◌else◌, arith, All, get_elem?,
}
use sis_ops.Kern.{ErrorCode, e_no_mem}
use sis_ops.Kern.Pages.{PageInfo, Ended, done, panics, fault}
use sis_ops.Kern.Paging.{pdx, ptx, pgnum, Memory, store, page_insert}
use sis_ops.Kern.AddressMap.{utop, Words, entry_of}
use sis_ops.Kern.Mapping.{incref-some}
use sis_ops.Kern.Insertion.{
  page_entry, page_entry-ne-zero, odd_page_entry, Inserted, page_insert-none, page_insert-some,
  page_insert-Inserted,
}
use sis_ops.Kern.Spaces.{pgnum-page_entry_low, same_page_refl}
use sis_ops.Kern.Counting.{In}
use sis_ops.Kern.Accounts.{refs, Live, IsMemory, IsMemory-IsSpace}
use sis_ops.Kern.Entries.{Isolated, put-Isolated}
use sis_ops.Kern.Keeping.{Emptied, page_remove-IsMemory}
use sis_ops.Kern.Filling.{
  bump, bump-Live, referred, referred-IsMemory, stored-IsMemory, stored-Live, stored-refs, Reached,
  reach,
}

-- What an insertion leaves of the memory: the new entry, the other directories' maps, exact counts, and no
-- page that is lost.
pub record Filled (m : Memory) (ds ts is : List ℕ) (held : ℕ → ℕ) (d pp va perm : ℕ) : Type 0 where
  pub mem : Memory
  pub tables : List ℕ
  pub left : List ℕ
  pub inserted : Inserted m d pp va perm mem
  pub isolated : Isolated m.words mem.words ds d
  pub memory : IsMemory mem ds tables left held
  pub kept : (q : ℕ) → Live m.words ds ts is held q → Live mem.words ds tables left held q
  pub placed : 0 < refs mem.words ds tables pp

done_eq : {A : Type 0} → (a b : A) → Ended.done a ≡ Ended.done b → a ≡ b
done_eq a b e = ap (λ (r : Ended _). elim r [ done x ↦ x | panics ↦ a | fault ↦ a ]) e

none-ne-some : none ≢ some e_no_mem
none-ne-some e = ground arith

pub entry_of-none :
    (w : Words) (d va : ℕ)
    → entry_of w d va ≡ none
    → w d (pdx va) ≢ 0
    → w (pgnum (w d (pdx va))) (ptx va) ≡ 0
entry_of-none w d va e n = ground arith

module _ (m : Memory) (ds ts is : List ℕ) (held : ℕ → ℕ) (d pp va perm : ℕ) (p : PageInfo)
    (v : IsMemory m ds ts is held) (x : In d ds) (h : va < utop) (low : perm < 4096)
    (busy : All (λ j. j ≢ pp) is) (here : get_elem? m.alloc.pages pp ≡ some p)
    (alone : p.pp_link ≡ none) (exact : p.pp_ref ≡ refs m.words ds ts pp + held pp)
    (room : p.pp_ref < 65535) where
  module _ (r : Reached m ds ts is held d va) where
    rest :
        (get_elem? r.mem.alloc.pages pp ≡ get_elem? m.alloc.pages pp)
        × (refs r.mem.words ds r.tables pp ≡ refs m.words ds ts pp)
        × All (λ i. i ≢ pp) r.left
    rest = r.others pp busy

    held_once : Memory
    held_once = record r.mem { alloc = referred r.mem.alloc pp p }

    held-IsMemory : IsMemory held_once ds r.tables r.left (bump held pp)
    unfolding held_once
    held-IsMemory =
        referred-IsMemory r.mem ds r.tables r.left held pp p r.memory rest.2 (rest.0 ∙ here) alone
          (exact ∙ ap (λ (y : ℕ). y + held pp) (sym rest.1)) room

    emptied : Emptied held_once ds r.tables r.left (bump held pp) held-IsMemory d va
    emptied =
        page_remove-IsMemory held_once ds r.tables r.left (bump held pp) held-IsMemory d va x h

    m2 : Memory
    m2 = emptied.mem

    dir : m2.words d (pdx va) ≡ r.mem.words d (pdx va)
    unfolding m2 held_once
    dir = emptied.removed.dirs (pdx va)

    there : m2.words d (pdx va) ≢ 0
    there z = r.there (sym dir ∙ z)

    t : ℕ
    t = pgnum (m2.words d (pdx va))

    in_tables : In t r.tables
    unfolding t m2 emptied
    in_tables = emptied.memory.table d (pdx va) x (omega arith) there

    none_left : entry_of m2.words d va ≡ none
    unfolding m2
    none_left =
        emptied.removed.entries va h
        ∙ ap (λ (b : Bool). if b then none else entry_of held_once.words d va) (same_page_refl va)

    empty : m2.words t (ptx va) ≡ 0
    unfolding t
    empty = entry_of-none m2.words d va none_left there

    filled : Memory
    filled = store m2 t (ptx va) (page_entry pp perm)

    filled-IsMemory : IsMemory filled ds r.tables emptied.left held
    unfolding filled m2
    filled-IsMemory =
        stored-IsMemory m2 ds r.tables emptied.left held t (ptx va) pp (page_entry pp perm)
          emptied.memory in_tables (omega arith) empty (pgnum-page_entry_low pp perm low)
          (page_entry-ne-zero pp perm) (odd_page_entry pp perm)

    filled-Live :
        (q : ℕ) → Live m.words ds ts is held q → Live filled.words ds r.tables emptied.left held q
    unfolding filled m2 held_once
    filled-Live q l =
        stored-Live m2 ds r.tables emptied.left held t (ptx va) pp (page_entry pp perm)
          emptied.memory in_tables (omega arith) empty (pgnum-page_entry_low pp perm low)
          (page_entry-ne-zero pp perm) q
          (emptied.kept q (bump-Live r.mem ds r.tables r.left held pp q (r.kept q l)))

    filled-refs : 0 < refs filled.words ds r.tables pp
    unfolding filled m2
    filled-refs =
        stored-refs m2 ds r.tables emptied.left held t (ptx va) pp (page_entry pp perm)
          emptied.memory in_tables (omega arith) empty (pgnum-page_entry_low pp perm low)
          (page_entry-ne-zero pp perm)

    filled_done : page_insert m d pp va perm ≡ done (none, filled)
    unfolding filled t m2 held_once
    filled_done =
        page_insert-some m r.mem m2 (referred r.mem.alloc pp p) d pp va perm t (ptx va)
          (r.walk ∙ ap (λ (y : ℕ). done (some (pgnum y, ptx va), r.mem)) (sym dir))
          (incref-some r.mem.alloc pp p (rest.0 ∙ here)) emptied.done_

    filled-Isolated : Isolated m.words filled.words ds d
    unfolding filled t m2 held_once
    filled-Isolated e vb y ne b =
        put-Isolated m2.words ds r.tables emptied.memory.shape d (pdx va) (ptx va)
          (page_entry pp perm) x (omega arith) there e vb y ne b
        ∙ emptied.isolated e vb y ne b
        ∙ r.isolated e vb y ne b

    after_insert : (m' : Memory) → Inserted m d pp va perm m' → Filled m ds ts is held d pp va perm
    after_insert m' s =
        let same : m' ≡ filled =
          ap (λ (y : Option ErrorCode × Memory). y.1) (done_eq _ _ (sym s.done_ ∙ filled_done)) in
        record {
          mem = filled;
          tables = r.tables;
          left = emptied.left;
          inserted = subst (λ (y : Memory). Inserted m d pp va perm y) same s;
          isolated = filled-Isolated;
          memory = filled-IsMemory;
          kept = filled-Live;
          placed = filled-refs;
        }

    once_reached : Filled m ds ts is held d pp va perm
    once_reached =
        elim (page_insert-Inserted m d va pp perm p is h busy here alone room
          (IsMemory-IsSpace m ds ts is held v d x)) [
            | inl s ↦ after_insert s.0 s.1
            | inr f ↦ absurd (
                none-ne-some (
                  ap (λ (y : Option ErrorCode × Memory). y.0)
                    (done_eq _ _ (sym filled_done ∙ f.2))))
          ]

  -- Below UTOP, of a page in no list with less than 65535 references, and with flags of 12 bits,
  -- `page_insert` keeps the accounts: the page's count goes up by one for its new entry, the page that was
  -- there loses one, no page is lost, and the other directories' maps stay; it fails, and changes nothing, only where a page
  -- table is missing and no page is free.
  pub page_insert-IsMemory :
      Filled m ds ts is held d pp va perm
      ⊎ ((is ≡ [])
          × (m.words d (pdx va) ≡ 0)
          × (page_insert m d pp va perm ≡ done (some e_no_mem, m)))
  page_insert-IsMemory = elim (reach m ds ts held d va x h is v) [
    | inl r ↦ inl (once_reached r)
    | inr f ↦ inr (f.0, f.1, page_insert-none m m d pp va perm f.2)
  ]
