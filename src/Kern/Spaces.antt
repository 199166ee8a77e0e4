-- ===== src/Kern/Spaces.antt =====
-- `page_lookup`, `page_remove` and `page_insert` of sched/kern/pmap.c on the map that a page directory
-- stands for.
use sis_ops.Common.{
  ◌⊎◌, ℕ, ◌/◌, ◌<◌, ◌≡◌, ◌≢◌, sym, ap, ◌∙◌, inl, inr, List, [], some, none, Bool, true, arith,
  get_elem?, All, if◌then◌else◌,
}
use sis_ops.Common.Bits.{bit_or-zero}
use Prim.Native.Nat.{bit_or}
use sis_ops.Kern.{e_no_mem}
use sis_ops.Kern.Pages.{PageInfo, done}
use sis_ops.Kern.Paging.{pdx, ptx, pgnum, Memory, page_lookup, page_remove, page_insert}
use sis_ops.Kern.AddressMap.{utop, same_page, entry_of, entry_of-some}
use sis_ops.Kern.Insertion.{page_entry, pgnum-page_entry, Inserted, page_insert-Inserted}
use sis_ops.Kern.Mapping.{
  Used-lt, IsSpace, Removed, page_lookup_lem, lookup_of, lookup-some, page_remove-Removed,
}

-- `page_lookup` gives the page of the entry of an address, with the place of the entry, and null
-- exactly where the map has no entry.
pub page_lookup-IsSpace :
    (m : Memory) (d va : ℕ) (is : List ℕ)
    → IsSpace m d is
    → va < utop
    → page_lookup m d va
      ≡ done (elim (entry_of m.words d va) [
        | none ↦ none
        | some pte ↦ some (pgnum pte, (pgnum (m.words d (pdx va)), ptx va))
      ])
unfolding lookup_of
page_lookup-IsSpace m d va is s h =
    page_lookup_lem m d va (λ e. Used-lt m.alloc _ (s.table (pdx va) (omega arith) e))
      (λ e n. Used-lt m.alloc _ (s.mapped (pdx va) (ptx va) (omega arith) e n))

-- `page_remove` takes the page of an address, and no other, out of the map; the address is flushed if
-- there was an entry and the directory may be the one in use.
page_remove-IsSpace :
    (m : Memory) (d va : ℕ) (is : List ℕ)
    → IsSpace m d is
    → va < utop
    → (m' : Memory) × (page_remove m d va ≡ done m') × Removed m d va m'
page_remove-IsSpace m d va is s h =
    page_remove-Removed m d va is h s.free s.tables (λ e. s.table (pdx va) (omega arith) e)
      (λ e n. s.mapped (pdx va) (ptx va) (omega arith) e n)

pub pgnum-page_entry_low : (pp perm : ℕ) → perm < 4096 → pgnum (page_entry pp perm) ≡ pp
pgnum-page_entry_low pp perm low =
    let z : perm / 4096 ≡ 0 = omega arith in
    pgnum-page_entry pp perm ∙ ap (bit_or pp) z ∙ bit_or-zero pp

pub same_page_refl : (va : ℕ) → same_page va va ≡ true
same_page_refl va = ground arith

found :
    (m m' : Memory) (d pp va perm : ℕ)
    → va < utop
    → perm < 4096
    → Inserted m d pp va perm m'
    → page_lookup m' d va ≡ done (some (pp, (pgnum (m'.words d (pdx va)), ptx va)))
unfolding lookup_of
found m m' d pp va perm h low r =
    page_lookup_lem m' d va (λ e. r.table) (λ e n. rw page r.page)
    ∙ ap done (
        lookup-some m'.words d va at.0 (λ z. at.2 (sym at.1 ∙ z))
        ∙ ap (λ (x : ℕ). some (x, (pgnum (m'.words d (pdx va)), ptx va))) page)
  where
    entry : ℕ
    entry = page_entry pp perm

    hit : entry_of m'.words d va ≡ some entry
    hit =
        r.entries va h
        ∙ ap (λ (b : Bool). if b then some entry else entry_of m.words d va) (same_page_refl va)

    at :
        (m'.words d (pdx va) ≢ 0)
        × (m'.words (pgnum (m'.words d (pdx va))) (ptx va) ≡ entry)
        × (entry ≢ 0)
    at = entry_of-some m'.words d va entry hit

    page : pgnum (m'.words (pgnum (m'.words d (pdx va))) (ptx va)) ≡ pp
    page = ap pgnum at.1 ∙ pgnum-page_entry_low pp perm low

-- A page inserted, with flags in the low 12 bits, is the page that is looked up at the address, unless
-- the insertion finds no free page for a table.
page_lookup-page_insert :
    (m : Memory) (d va pp perm : ℕ) (p : PageInfo) (is : List ℕ)
    → va < utop
    → perm < 4096
    → All (λ i. i ≢ pp) is
    → get_elem? m.alloc.pages pp ≡ some p
    → p.pp_link ≡ none
    → p.pp_ref < 65535
    → IsSpace m d is
    → ((m' : Memory) × (page_insert m d pp va perm ≡ done (none, m'))
        × (page_lookup m' d va ≡ done (some (pp, (pgnum (m'.words d (pdx va)), ptx va)))))
      ⊎ ((is ≡ []) × (page_insert m d pp va perm ≡ done (some e_no_mem, m)))
page_lookup-page_insert m d va pp perm p is h low busy here alone room s =
    elim (page_insert-Inserted m d va pp perm p is h busy here alone room s) [
      | inl r ↦ inl (r.0, r.1.done_, found m r.0 d pp va perm h low r.1)
      | inr r ↦ inr (r.0, r.2)
    ]
