-- ===== src/Syscall/Memory/Allocate.antt =====
-- sys_page_alloc of kern/syscall.c where it succeeds.
use jos.Base.{
  ℕ, ◌*◌, ◌/◌, ◌<◌, ◌≡◌, ◌≢◌, refl, ap, sym, ◌∙◌, inl, true, false, some, List, ◌∷◌, has, bit_or,
  arith,
}
use jos.Mmu.{pdx, ptx, pte_p}
use jos.Errors.{ret}
use jos.Phys.{Phys}
use jos.Phys.FreeList.{IsFreeList}
use jos.Phys.Alloc.{SameBut, page_alloc-pop}
use jos.PageTable.Walk.{pde_of, pte_of}
use jos.PageTable.Insert.{inserted-IsFreeList}
use jos.PageTable.Map.{HasTable, table, page_insert-fresh}
use jos.Kernel.{Kernel, ok, run_ok, phys_ok, deref_ok, cur_dir}
use jos.Syscall.Isolation.{envid2env_self}
use jos.Syscall.Memory.{sys_page_alloc, alloc_and_insert, bad_va, bad_perm}

-- Page tables on other pages than `p` are what they were.
module _ {s t : Phys} {p d va : ℕ} (same : SameBut p s t) (ht : HasTable s d va) (nd : d ≢ p)
    (nt : table s d va ≢ p) where
  pde-same : pde_of t d va ≡ pde_of s d va
  pde-same = ap (λ w. w (pdx va)) (same.words d nd)

  table-same : table t d va ≡ table s d va
  table-same = ap (λ (w : ℕ). w / 4096) pde-same

  pte-same : pte_of t d va ≡ pte_of s d va
  pte-same =
      ap (λ (q : ℕ). t.words q (ptx va)) table-same
      ∙ ap (λ w. w (ptx va)) (same.words (table s d va) nt)

  HasTable-same : HasTable t d va
  HasTable-same = record {
    present = ap (λ (w : ℕ). has w pte_p) pde-same ∙ ht.present;
    in_range = omega (arith, table-same, same.npages, ht.in_range);
    apart = λ e. ht.apart (sym table-same ∙ e);
  }

module _ (k : Kernel) (c d : ℕ) (cur : k.curenv ≡ some c)
    (dir : (k.envs c).env_pgdir ≡ some d) where
  -- The caller asks for a page at `va`, page-aligned below UTOP and not mapped, whose page table is
  -- there, with flags below 4096 that pass the test. The head of the free list, which is neither the
  -- directory nor that page table, is then mapped at `va` with the flags `perm` and PTE_P, in the same
  -- page table, which is still present; it holds only zeros, has one reference, and is no longer free.
  pub sys_page_alloc-maps :
      (va perm p : ℕ) (xs : List ℕ)
      → bad_va va ≡ false
      → bad_perm perm ≡ false
      → perm < 4096
      → HasTable k.phys d va
      → has (pte_of k.phys d va) pte_p ≡ false
      → IsFreeList k.phys (p ∷ xs)
      → d ≢ p
      → table k.phys d va ≢ p
      → (k' : Kernel) × (sys_page_alloc 0 va perm k ≡ ok (ret 0) k')
        × (pte_of k'.phys d va ≡ bit_or (bit_or (p * 4096) perm) pte_p)
        × (pte_of k'.phys d va / 4096 ≡ p)
        × HasTable k'.phys d va
        × (table k'.phys d va ≡ table k.phys d va)
        × ((i : ℕ) → k'.phys.words p i ≡ 0)
        × ((k'.phys.pages p).pp_ref ≡ 1)
        × IsFreeList k'.phys xs
  unfolding sys_page_alloc alloc_and_insert
  sys_page_alloc-maps va perm p xs ok_va ok_perm fits ht fresh free nd nt =
      let (t, popped, rest, _, unused, zeros, same) = page_alloc-pop free true in
      let ht' = HasTable-same same ht nd nt in
      let (u, inserted, maps, count, head) =
        page_insert-fresh ht' (cur_dir k) p perm fits
          (ap (λ (w : ℕ). has w pte_p) (pte-same same ht nd nt) ∙ fresh) in
      (
        record k { phys = u },
        run_ok _ (envid2env_self k true)
            ∙ deref_ok _ k cur
            ∙ rw (ok_va, ok_perm)
                (phys_ok _ k popped
                  ∙ deref_ok _ (record k { phys = t }) dir
                  ∙ phys_ok _ (record k { phys = t }) inserted),
        maps.entry,
        maps.page,
        maps.has_table,
        maps.same_table ∙ table-same same ht nd nt,
        λ i.
            maps.only_here p i (λ e. nd (sym e))
              (inl (λ e. nt (sym (e ∙ table-same same ht nd nt))))
            ∙ zeros refl i,
        omega (arith, count, unused),
        inserted-IsFreeList free.distinct.0 maps.others head maps.memory rest,
      )
