-- ===== src/PageTable/SelfTest.antt =====
-- check_va2pa and check_page of kern/pmap.c, which panic unless the page tables work. They run before
-- there is an environment, so `curenv` is NULL. The message at the end is not modelled. The part of
-- check_page on mmio_map_region is in Mmio; check_kern_pgdir, check_page_free_list and
-- check_page_installed_pgdir are in Kernel.
pub mod Mmio
pub mod Kernel
use jos.Base.{
  ℕ, zero, suc, ◌+◌, ◌*◌, Bool, true, false, not, ◌&&◌, Option, none, some, ◌==◌, if◌then◌else◌,
  has, bit_or,
}
use jos.Mmu.{pg_size, pt_size, pdx, ptx, pte_addr, pte_p, pte_w, pte_u}
use jos.Errors.{Ret, ret, fail}
use jos.Phys.{
  Phys, PageInfo, Action, ◌>>=◌, ◌>>◌, pure, assert, load, store, set_page, page2pa, kaddr,
  page_free, is_null,
}
use jos.Phys.SelfTest.{
  must_alloc, none_left, take_three, free_three, steal_list, restore_list, fill_page, all_zero,
}
use jos.PageTable.{pgdir_walk, page_insert, page_lookup, page_remove}

-- `~0` is 2 ^ 32 - 1.
unfoldable pub check_va2pa : ℕ → ℕ → Action ℕ
check_va2pa pgdir va s =
    if not (has (load pgdir (pdx va) s) pte_p)
    then some (0xffff_ffff, s)
    else (do
      t ← kaddr (pte_addr (load pgdir (pdx va) s))
      λ u.
          (if not (has (load t (ptx va) u) pte_p)
            then some (0xffff_ffff, u)
            else some (pte_addr (load t (ptx va) u), u)))
        s

-- `assert(check_va2pa(kern_pgdir, va) == pa)`
abbrev pub maps_to : ℕ → ℕ → ℕ → Action (Unit {0})
maps_to d va pa = check_va2pa d va >>= λ a. assert (a == pa)

-- `assert(pp->pp_ref == n)`
abbrev pub has_refs : ℕ → ℕ → Action (Unit {0})
has_refs p n s = assert ((s.pages p).pp_ref == n) s

abbrev pub succeeded : Ret → Bool
succeeded (ret n) = true
succeeded (fail err) = false

-- `assert(page_insert(kern_pgdir, pp, va, perm) == 0)`, and `< 0`.
abbrev pub inserts : ℕ → ℕ → ℕ → ℕ → Action (Unit {0})
inserts d p va perm = page_insert none d p va perm >>= λ r. assert (succeeded r)

abbrev pub refuses : ℕ → ℕ → ℕ → ℕ → Action (Unit {0})
refuses d p va perm = page_insert none d p va perm >>= λ r. assert (not (succeeded r))

-- `*pgdir_walk(kern_pgdir, va, 0)`; the test follows the pointer.
abbrev pub entry_at : ℕ → ℕ → Action ℕ
entry_at d va =
    pgdir_walk d va false >>= λ w s. elim w [ none ↦ none | some (t, i) ↦ some (load t i s, s) ]

abbrev pub entry_has : ℕ → ℕ → ℕ → Bool → Action (Unit {0})
entry_has d va flag wanted =
    entry_at d va >>= λ w. assert (if wanted then has w flag else not (has w flag))

-- `assert(PTE_ADDR(kern_pgdir[0]) == page2pa(pp))`
abbrev pub table_is : ℕ → ℕ → Action (Unit {0})
table_is d p s = assert (pte_addr (load d 0 s) == page2pa p) s

-- `assert((pp = page_alloc(0)) && pp == p)`
abbrev pub gets : ℕ → Action (Unit {0})
gets p = must_alloc false >>= λ q. assert (q == p)

-- `kern_pgdir[i] = 0`, and `pp->pp_ref = 0`.
abbrev pub clear_pde : ℕ → ℕ → Action (Unit {0})
clear_pde d i s = some (tt, store d i 0 s)

abbrev pub clear_refs : ℕ → Action (Unit {0})
clear_refs p s = some (tt, set_page p (record { pp_link = (s.pages p).pp_link; pp_ref = 0 }) s)

-- `ptep = KADDR(PTE_ADDR(kern_pgdir[PDX(va)]))` and `assert(pgdir_walk(...) == ptep + PTX(va))`
abbrev pub walks_to_table : ℕ → ℕ → Bool → Action (Unit {0})
walks_to_table d va create = do
  w ← pgdir_walk d va create
  λ s.
      (kaddr (pte_addr (load d (pdx va) s)) >>= λ t. elim w [
        | none ↦ λ u. none
        | some (t', i) ↦ assert (t' == t && i == ptx va)
      ])
        s

-- From the first page_insert to the test that PTSIZE cannot be mapped.
unfoldable pub check_inserts : ℕ → ℕ → ℕ → ℕ → Action (Unit {0})
check_inserts d p q r = do
  found ← page_lookup d 0
  assert (elim found [ none ↦ true | some x ↦ false ])
  refuses d q 0 pte_w
  page_free p
  inserts d q 0 pte_w
  table_is d p
  maps_to d 0 (page2pa q)
  has_refs q 1
  has_refs p 1
  inserts d r pg_size pte_w
  maps_to d pg_size (page2pa r)
  has_refs r 1
  none_left
  inserts d r pg_size pte_w
  maps_to d pg_size (page2pa r)
  has_refs r 1
  none_left
  walks_to_table d pg_size false
  inserts d r pg_size (bit_or pte_w pte_u)
  maps_to d pg_size (page2pa r)
  has_refs r 1
  entry_has d pg_size pte_u true
  (λ s. assert (has (load d 0 s) pte_u) s)
  inserts d r pg_size pte_w
  entry_has d pg_size pte_w true
  entry_has d pg_size pte_u false
  refuses d p pt_size pte_w

-- From the replacement of pp2 to the last page_remove and the pages it gives back.
unfoldable pub check_removes : ℕ → ℕ → ℕ → ℕ → Action (Unit {0})
check_removes d p q r = do
  inserts d q pg_size pte_w
  entry_has d pg_size pte_u false
  maps_to d 0 (page2pa q)
  maps_to d pg_size (page2pa q)
  has_refs q 2
  has_refs r 0
  gets r
  page_remove none d 0
  maps_to d 0 0xffff_ffff
  maps_to d pg_size (page2pa q)
  has_refs q 1
  has_refs r 0
  inserts d q pg_size 0
  (λ s. assert (not ((s.pages q).pp_ref == 0)) s)
  (λ s. assert (is_null (s.pages q).pp_link) s)
  page_remove none d pg_size
  maps_to d 0 0xffff_ffff
  maps_to d pg_size 0xffff_ffff
  has_refs q 0
  has_refs r 0
  gets q
  none_left

-- Whether no entry of a page of words has PTE_P.
unfoldable pub none_present : ℕ → ℕ → (ℕ → ℕ) → Bool
none_present zero i page = true
none_present (suc n) i page =
    let rest = none_present n (i + 1) page in not (has (page i) pte_p) && rest

-- From `forcibly take pp0 back` to the page tables that get cleared.
unfoldable pub check_new_tables : ℕ → ℕ → Action (Unit {0})
unfolding none_present
check_new_tables d p = do
  table_is d p
  clear_pde d 0
  has_refs p 1
  clear_refs p
  page_free p
  walks_to_table d (pg_size * 1024 + pg_size) true
  clear_pde d (pdx (pg_size * 1024 + pg_size))
  clear_refs p
  fill_page p 0xffff_ffff
  page_free p
  pgdir_walk d 0 true
  t ← kaddr (page2pa p)
  (λ s. assert (none_present 1024 0 (s.words t)) s)
  clear_pde d 0
  clear_refs p

-- check_page up to the test of mmio_map_region.
unfoldable pub check_page_tables : ℕ → Action (Unit {0})
unfolding check_inserts check_removes check_new_tables
check_page_tables d = do
  (p, q, r) ← take_three
  fl ← steal_list
  none_left
  check_inserts d p q r
  check_removes d p q r
  check_new_tables d p
  restore_list fl
  free_three p q r
