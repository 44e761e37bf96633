-- ===== src/Tests/Memory.antt =====
-- Examples for the page allocator, the page tables and user_mem_check.
use jos.Base.{
  ℕ, ◌+◌, ◌*◌, ◌/◌, ◌≤◌, ◌<◌, ◌≡◌, ◌⊎◌, refl, true, false, Option, none, some, List, [], ◌∷◌, arith,
  ◌==◌, if◌then◌else◌,
}
use jos.Phys.{Phys, page_alloc}
use jos.Phys.FreeList.{IsFreeList}
use jos.Phys.Alloc.{SameBut, page_alloc-pop}
use jos.Phys.Boot.{page_init}
use jos.Phys.Init.{usable_below, page_init-usable}
use jos.PageTable.{page_remove}
use jos.PageTable.Walk.{pte_of}
use jos.PageTable.Map.{HasTable}
use jos.PageTable.Remove.{page_remove-last, page_remove-unmapped}
use jos.PageTable.UserMem.{user_mem_check}
use jos.PageTable.UserMem.Range.{user_ok, user_mem_check-range, user_mem_check-wraps}
use jos.Tests.Data.{
  machine, used_up, machine-IsFreeList, machine-IsDir, machine-HasTable, machine-HasTable_next,
  infos,
}

page_alloc-pop_example :
    (t : Phys) × (page_alloc true machine ≡ some (some 4, t))
    × IsFreeList t (5 ∷ [])
    × ((t.pages 4).pp_link ≡ none)
    × ((t.pages 4).pp_ref ≡ 0)
    × (true ≡ true → (i : ℕ) → t.words 4 i ≡ 0)
    × SameBut 4 machine t
page_alloc-pop_example = page_alloc-pop machine-IsFreeList true

-- Page 6, no longer in use, goes back.
abbrev idle_page : Phys
idle_page = record used_up { pages = λ p. record { pp_link = none; pp_ref = 0 } }

idle_page-IsFreeList : IsFreeList idle_page []
idle_page-IsFreeList = record { chain = tt; distinct = tt; unused = tt }

page_init-usable_example :
    IsFreeList (page_init 4 0xf011_0000 used_up) (usable_below 16 4 0xf011_0000)
page_init-usable_example = page_init-usable 4 0xf011_0000 used_up refl

abbrev two_free : List ℕ
two_free = 4 ∷ 5 ∷ []

page_remove-last_example :
    (t : Phys) × (page_remove none 1 0 machine ≡ some (tt, t))
    × IsFreeList t (3 ∷ 4 ∷ 5 ∷ [])
    × (pte_of t 1 0 ≡ 0)
page_remove-last_example =
    page_remove-last machine-HasTable none machine-IsFreeList (ground arith) (omega arith) refl refl

-- The same page in use twice.
abbrev shared : Phys
shared = record machine {
  pages = λ p. if p == 3 then record { pp_link = none; pp_ref = 2 } else infos p;
}

shared-IsFreeList : IsFreeList shared (4 ∷ 5 ∷ [])
shared-IsFreeList = record {
  chain = (refl, (refl, tt));
  distinct = ground arith;
  unused = ground arith;
}

shared-HasTable : HasTable shared 1 0
shared-HasTable = record { present = refl; in_range = omega arith; apart = ground arith }

page_remove-unmapped_example :
    (t : Phys) × (page_remove none 1 4096 machine ≡ some (tt, t)) × IsFreeList t (0 ∷ 4 ∷ 5 ∷ [])
page_remove-unmapped_example =
    page_remove-unmapped machine-HasTable_next none machine-IsFreeList (ground arith) (omega arith)
      refl refl

-- Eight bytes on the page at 0, which is mapped for the user, and read.
user_mem_check-range_example :
    (r : Option ℕ) × (user_mem_check 1 16 8 5 machine ≡ some (r, machine))
    × (((r ≡ none) × ((a : ℕ) → 16 ≤ a → a < 16 + 8 → user_ok machine 1 5 (a / 4096 * 4096) ≡ true))
        ⊎ ((x : ℕ) × (r ≡ some x)
            × (16 ≤ x)
            × (x < 16 + 8)
            × (user_ok machine 1 5 (x / 4096 * 4096) ≡ false)
            × ((a : ℕ)
                → 16 ≤ a
                → a / 4096 < x / 4096
                → user_ok machine 1 5 (a / 4096 * 4096) ≡ true)))
user_mem_check-range_example =
    user_mem_check-range machine 1 16 8 5 machine-IsDir (omega arith) (omega arith)

-- The kernel's addresses to the end, and round it.
user_mem_check-wraps_example :
    user_mem_check 1 0xf000_0000 0x1000_0000 5 machine ≡ some (none, machine)
user_mem_check-wraps_example =
    user_mem_check-wraps machine 1 0xf000_0000 0x1000_0000 5 (omega arith) (omega arith)
      (omega arith) (omega arith)
