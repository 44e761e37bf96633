-- ===== src/Tests/SelfTests.antt =====
-- The kernel's self-tests on a machine with the free pages 4, 5 and 6, and an empty directory on page 1.
use jos.Base.{
  ℕ, ◌≡◌, refl, Bool, true, false, Option, none, some, [], ◌∷◌, ◌==◌, if◌then◌else◌, arith,
}
use jos.Phys.{
  Phys, PageInfo, page_alloc, alloc_head, clear_page, page_free, page_decref, kaddr, pa2page,
}
use jos.Phys.FreeList.{IsFreeList}
use jos.Phys.SelfTest.{check_page_alloc, must_alloc, none_left, take_three, free_three, fill_page}
use jos.Phys.SelfTest.Passes.{check_page_alloc-passes}
use jos.PageTable.{
  new_table, pgdir_walk, page_lookup, page_remove, page_insert, unmap_old, tlb_invalidate,
}
use jos.PageTable.SelfTest.{check_page_tables, check_va2pa}

abbrev three_infos : ℕ → PageInfo
three_infos p =
    if p == 4
    then record { pp_link = some 5; pp_ref = 0 }
    else if p == 5
    then record { pp_link = some 6; pp_ref = 0 }
    else record { pp_link = none; pp_ref = 0 }

abbrev three_free : Phys
three_free = record {
  npages = 16;
  pages = three_infos;
  free_list = some 4;
  words = λ q i. 0;
  flushed = [];
}

three_free-IsFreeList : IsFreeList three_free (4 ∷ 5 ∷ 6 ∷ [])
three_free-IsFreeList = record {
  chain = (refl, (refl, (refl, tt)));
  distinct = ground arith;
  unused = ground arith;
}

check_page_alloc-passes_example :
    (t : Phys) × (check_page_alloc 8 three_free ≡ some (tt, t)) × IsFreeList t (4 ∷ 5 ∷ 6 ∷ [])
check_page_alloc-passes_example =
    check_page_alloc-passes three_free 4 5 6 [] 8 three_free-IsFreeList (omega arith)

has_passed : {A : Type 0} → Option A → Bool
has_passed none = false
has_passed (some a) = true

-- check_page up to its last part.
page_tables_work : has_passed (check_page_tables 1 three_free) ≡ true
unfolding has_passed check_page_tables check_va2pa must_alloc none_left take_three free_three
    fill_page page_alloc alloc_head clear_page page_free page_decref kaddr pa2page new_table
    pgdir_walk page_lookup page_remove page_insert unmap_old tlb_invalidate
page_tables_work = refl
