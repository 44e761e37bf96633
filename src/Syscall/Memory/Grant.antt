-- ===== src/Syscall/Memory/Grant.antt =====
-- What sys_page_map of kern/syscall.c lets through: write access to a page mapped read-only.
use jos.Base.{
  ℕ, ◌*◌, ◌/◌, ◌<◌, ◌≡◌, refl, ap, ◌∙◌, true, false, some, has, bit_or, bit_and-two, bit_or-flags,
  arith,
}
use jos.Mmu.{pte_p, pte_w}
use jos.Errors.{ret}
use jos.PageTable.Walk.{pte_of}
use jos.PageTable.Map.{HasTable, page_lookup-entry, page_insert-fresh, new_pte}
use jos.Kernel.{Kernel, ok, cur_dir}
use jos.Syscall.Isolation.{envid2env_self}
use jos.Env.{found}
use jos.Syscall.Memory.Mapped.{sys_page_map_lem}
use jos.Syscall.Memory.{sys_page_map, bad_va}

-- The flags PTE_U | PTE_W | PTE_P.
abbrev pub writable : ℕ
writable = 7

new_pte-writable : (pp : ℕ) → has (new_pte pp writable) pte_w ≡ true
new_pte-writable pp = ground (
  arith,
  bit_and-two (new_pte pp writable),
  (bit_or-flags (bit_or (pp * 4096) writable) 1).1,
  (bit_or-flags (pp * 4096) writable).1,
)

module _ (k : Kernel) (c d : ℕ) (cur : k.curenv ≡ some c)
    (dir : (k.envs c).env_pgdir ≡ some d) where
  -- The caller maps its own page at `srcva` at `dstva` with PTE_W, both page-aligned below UTOP,
  -- with their page tables there and nothing present at `dstva`. Whatever the flags of the old
  -- entry are, the call succeeds, and the new entry has PTE_W and the same page.
  pub sys_page_map-writable :
      (srcva dstva : ℕ)
      → bad_va srcva ≡ false
      → bad_va dstva ≡ false
      → HasTable k.phys d srcva
      → HasTable k.phys d dstva
      → pte_of k.phys d srcva / 4096 < k.phys.npages
      → has (pte_of k.phys d dstva) pte_p ≡ false
      → (k' : Kernel) × (sys_page_map 0 srcva 0 dstva writable k ≡ ok (ret 0) k')
        × (pte_of k'.phys d dstva / 4096 ≡ pte_of k.phys d srcva / 4096)
        × (has (pte_of k'.phys d dstva) pte_w ≡ true)
  sys_page_map-writable srcva dstva ok_src ok_dst ts td lt fresh =
      let inserted =
        page_insert-fresh td (cur_dir k) (pte_of k.phys d srcva / 4096) writable (omega arith)
          fresh in
      let maps = inserted.2 in
      (
        record k { phys = inserted.0 },
        sys_page_map_lem k c d cur dir c d dir inserted.0 (pte_of k.phys d srcva / 4096) srcva dstva
            writable refl inserted.1 0 _ _ (envid2env_self k true ∙ ap (λ e. ok (found e) k) cur)
            ok_src ok_dst refl (page_lookup-entry ts lt),
        maps.page,
        ap (λ (w : ℕ). has w pte_w) maps.entry ∙ new_pte-writable (pte_of k.phys d srcva / 4096),
      )
