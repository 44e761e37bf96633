-- ===== src/PageTable.antt =====
-- The two-level page tables of kern/pmap.c: pgdir_walk, page_insert, page_lookup, page_remove and
-- tlb_invalidate.
--
-- A `pde_t *` is the number of its page, a `pte_t *` the page and the index of the entry. `cur` is
-- what tlb_invalidate reads: `curenv` (`none` for NULL) and its `env_pgdir`.
pub mod Walk
pub mod Map
pub mod Insert
pub mod Remove
pub mod Regions
pub mod MemInit
pub mod SelfTest
pub mod UserMem
use jos.Base.{ℕ, Bool, true, false, Option, none, some, ◌∷◌, ◌==◌, if◌then◌else◌, has, bit_or}
use jos.Mmu.{pdx, ptx, pte_addr, pte_p, pte_w, pte_u}
use jos.Errors.{Ret, ret, fail, e_no_mem}
use jos.Phys.{
  Phys, Action, ◌>>=◌, ◌>>◌, pure, load, store, page2pa, pa2page, kaddr, page_alloc, page_decref,
  add_ref, drop_ref,
}

-- The `create` branch: the new page table, its reference, its directory entry.
unfoldable pub new_table : ℕ → ℕ → Option ℕ → Action (Option (ℕ × ℕ))
new_table pgdir va none s = some (none, s)
new_table pgdir va (some q) s =
    let pde = bit_or (bit_or (bit_or (page2pa q) pte_u) pte_w) pte_p in
    (do k ← kaddr (pte_addr pde); pure (some (k, ptx va))) (store pgdir (pdx va) pde (add_ref q s))

unfoldable pub pgdir_walk : ℕ → ℕ → Bool → Action (Option (ℕ × ℕ))
pgdir_walk pgdir va create s =
    if has (load pgdir (pdx va) s) pte_p
    then (do k ← kaddr (pte_addr (load pgdir (pdx va) s)); pure (some (k, ptx va))) s
    else if create
    then (do p ← page_alloc true; new_table pgdir va p) s
    else some (none, s)

-- The page and its entry. An entry is taken for a mapped page whatever its flags are.
unfoldable pub page_lookup : ℕ → ℕ → Action (Option (ℕ × ℕ × ℕ))
page_lookup pgdir va s =
    (do
      w ← pgdir_walk pgdir va false
      elim w [
        | none ↦ pure none
        | some (t, i) ↦ λ s'. (do p ← pa2page (pte_addr (load t i s')); pure (some (p, t, i))) s'
      ])
      s

-- `*pte = page2pa(pp) | perm | PTE_P; pp->pp_ref++; pgdir[PDX(va)] |= perm`
abbrev pub write_entry : ℕ → ℕ → ℕ → ℕ → ℕ → ℕ → Phys → Phys
write_entry pgdir pp va perm t i s =
    let s' = add_ref pp (store t i (bit_or (bit_or (page2pa pp) perm) pte_p) s) in
    store pgdir (pdx va) (bit_or (load pgdir (pdx va) s') perm) s'

module _ (cur : Option (Option ℕ)) where
  -- `!curenv || curenv->env_pgdir == pgdir`
  abbrev pub is_active : ℕ → Bool
  is_active pgdir = elim cur [
    | none ↦ true
    | some dir ↦ elim dir [ none ↦ false | some d ↦ d == pgdir ]
  ]

  unfoldable pub tlb_invalidate : ℕ → ℕ → Phys → Phys
  tlb_invalidate pgdir va s = if is_active pgdir then record s { flushed = va ∷ s.flushed } else s

  unfoldable pub page_remove : ℕ → ℕ → Action (Unit {0})
  page_remove pgdir va = do
    r ← page_lookup pgdir va
    elim r [
      | none ↦ pure tt
      | some (p, t, i) ↦ page_decref p >> λ s. some (tt, tlb_invalidate pgdir va (store t i 0 s))
    ]

  -- What page_insert does before it writes the entry.
  unfoldable pub unmap_old : ℕ → ℕ → ℕ → ℕ → Action (Unit {0})
  unmap_old pgdir pp va pte s =
      if has pte pte_p
      then (if pte_addr pte == page2pa pp
          then some (tt, drop_ref pp (tlb_invalidate pgdir va s))
          else page_remove pgdir va s)
      else some (tt, s)

  unfoldable pub page_insert : ℕ → ℕ → ℕ → ℕ → Action Ret
  page_insert pgdir pp va perm = do
    w ← pgdir_walk pgdir va true
    elim w [
      | none ↦ pure (fail e_no_mem)
      | some (t, i) ↦ λ s.
          (unmap_old pgdir pp va (load t i s) >> λ s'.
          some (ret 0, write_entry pgdir pp va perm t i s'))
            s
    ]
