-- ===== src/Syscall/Memory.antt =====
-- sys_page_alloc, sys_page_map and sys_page_unmap of kern/syscall.c.
pub mod Mapped
pub mod Grant
pub mod Allocate
use jos.Base.{
  ℕ, Bool, true, not, ◌&&◌, ◌||◌, none, some, leb, ◌==◌, if◌then◌else◌, has, bit_and, bit_or,
}
use jos.Mmu.{pgoff, pte_p, pte_w, pte_u, not_pte_syscall, utop}
use jos.Errors.{Ret, ret, fail, e_bad_env, e_inval, e_no_mem}
use jos.Phys.{load, page_alloc, page_free}
use jos.PageTable.{page_insert, page_lookup, page_remove}
use jos.Kernel.{ok, panic, M, ◌>>=◌, ◌>>◌, pure, on_phys, cur_dir, deref}
use jos.Env.{Found, bad_env, found, envid2env}
use jos.Syscall.{with_env}

-- `va >= UTOP || PGOFF(va) != 0`
abbrev pub bad_va : ℕ → Bool
bad_va va = leb utop va || not (pgoff va == 0)

-- PTE_U and PTE_P are set, and nothing outside PTE_SYSCALL.
abbrev pub bad_perm : ℕ → Bool
bad_perm perm =
    not (bit_and (bit_or pte_u pte_p) perm == bit_or pte_u pte_p) || has perm not_pte_syscall

-- `e->env_pgdir`, read when the call runs; a null directory is followed.
abbrev pub with_dir : ℕ → (ℕ → M Ret) → M Ret
with_dir e f k = deref (k.envs e).env_pgdir f k

-- `if (flag != 0) { page_free(page); return flag; }`
abbrev pub undo_alloc : ℕ → Ret → M Ret
undo_alloc p (ret n) = pure (ret 0)
undo_alloc p (fail err) = on_phys (page_free p) >> pure (fail err)

unfoldable pub alloc_and_insert : ℕ → ℕ → ℕ → M Ret
alloc_and_insert e va perm = do
  p ← on_phys (page_alloc true)
  elim p [
    | none ↦ pure (fail e_no_mem)
    | some q ↦
        with_dir e λ d k. (do r ← on_phys (page_insert (cur_dir k) d q va perm); undo_alloc q r) k
  ]

unfoldable pub sys_page_alloc : ℕ → ℕ → ℕ → M Ret
sys_page_alloc envid va perm = do
  f ← envid2env envid true
  with_env f λ e.
      if bad_va va
      then pure (fail e_inval)
      else if bad_perm perm
      then pure (fail e_inval)
      else alloc_and_insert e va perm

-- What follows page_lookup in sys_page_map; `w` is `*page_table1`. `(perm & PTE_W) == 1` is the
-- comparison of the source.
unfoldable pub insert_found : ℕ → ℕ → ℕ → ℕ → ℕ → M Ret
insert_found e2 dstva perm p w k =
    if not (has w pte_w) && bit_and perm pte_w == 1
    then ok (fail e_inval) k
    else with_dir e2
        (λ d2 k'.
          (on_phys (page_insert (cur_dir k') d2 p dstva perm) >>= λ res. elim res [
            | ret n ↦ pure (ret 0)
            | fail err ↦ pure (fail e_no_mem)
          ])
            k')
        k

-- `*page_table1` is read through a variable that page_lookup leaves unset where it returns NULL:
-- that is a fault here.
unfoldable pub map_page : ℕ → ℕ → ℕ → ℕ → ℕ → M Ret
map_page e1 srcva e2 dstva perm = with_dir e1 λ d1. do
  r ← on_phys (page_lookup d1 srcva)
  elim r [
    | none ↦ λ k. panic
    | some (p, t, i) ↦ λ k. insert_found e2 dstva perm p (load t i k.phys) k
  ]

-- Both lookups are made before the results are tested.
abbrev pub with_envs : Found → Found → (ℕ → ℕ → M Ret) → M Ret
with_envs bad_env f2 g k = ok (fail e_bad_env) k
with_envs (found e1) bad_env g k = ok (fail e_bad_env) k
with_envs (found e1) (found e2) g k = deref e1 (λ a. deref e2 (g a)) k

unfoldable pub sys_page_map : ℕ → ℕ → ℕ → ℕ → ℕ → M Ret
sys_page_map srcenvid srcva dstenvid dstva perm = do
  f1 ← envid2env srcenvid true
  f2 ← envid2env dstenvid true
  with_envs f1 f2 λ e1 e2.
      if bad_va srcva
      then pure (fail e_inval)
      else if bad_va dstva
      then pure (fail e_inval)
      else if bad_perm perm
      then pure (fail e_inval)
      else map_page e1 srcva e2 dstva perm

unfoldable pub sys_page_unmap : ℕ → ℕ → M Ret
sys_page_unmap envid va = do
  f ← envid2env envid true
  with_env f λ e.
      if bad_va va
      then pure (fail e_inval)
      else with_dir e λ d k. (on_phys (page_remove (cur_dir k) d va) >> pure (ret 0)) k
