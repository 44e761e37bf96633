-- ===== src/Syscall/Memory/Mapped.antt =====
-- sys_page_map of kern/syscall.c of a page of the caller, where page_lookup and page_insert succeed.
use jos.Base.{ℕ, ◌≡◌, ◌∙◌, true, false, not, some, ◌==◌, has, bit_and}
use mathlib.Core.Bool.{and-false}
use jos.Mmu.{pte_w}
use jos.Errors.{ret}
use jos.Phys.{Phys}
use jos.PageTable.{page_lookup, page_insert}
use jos.Kernel.{Kernel, ok, run_ok, phys_ok, deref_ok, cur_dir}
use jos.Env.{found, envid2env}
use jos.Syscall.Isolation.{envid2env_self}
use jos.Syscall.Memory.{insert_found, sys_page_map, map_page, bad_va, bad_perm}

module _ (k : Kernel) (c d : ℕ) (cur : k.curenv ≡ some c)
    (dir : (k.envs c).env_pgdir ≡ some d) where
  module _ (e2 d2 : ℕ) (dir2 : (k.envs e2).env_pgdir ≡ some d2) (t : Phys) (p srcva dstva perm : ℕ)
      (plain : (bit_and perm pte_w == 1) ≡ false)
      (inserted : page_insert (cur_dir k) d2 p dstva perm k.phys ≡ some (ret 0, t)) where
    found_lem : (w : ℕ) → insert_found e2 dstva perm p w k ≡ ok (ret 0) (record k { phys = t })
    unfolding insert_found
    found_lem w =
        rw (plain, and-false (not (has w pte_w))) (deref_ok _ k dir2 ∙ phys_ok _ k inserted)

    mapped :
        (tbl i : ℕ)
        → page_lookup d srcva k.phys ≡ some (some (p, tbl, i), k.phys)
        → map_page c srcva e2 dstva perm k ≡ ok (ret 0) (record k { phys = t })
    unfolding map_page
    mapped tbl i looked_up =
        deref_ok _ k dir ∙ phys_ok _ k looked_up ∙ found_lem (k.phys.words tbl i)

    pub sys_page_map_lem :
        (envid tbl i : ℕ)
        → envid2env envid true k ≡ ok (found (some e2)) k
        → bad_va srcva ≡ false
        → bad_va dstva ≡ false
        → bad_perm perm ≡ false
        → page_lookup d srcva k.phys ≡ some (some (p, tbl, i), k.phys)
        → sys_page_map 0 srcva envid dstva perm k ≡ ok (ret 0) (record k { phys = t })
    unfolding sys_page_map
    sys_page_map_lem envid tbl i target ok_src ok_dst ok_perm looked_up =
        run_ok _ (envid2env_self k true)
        ∙ run_ok _ target
        ∙ deref_ok _ k cur
        ∙ rw (ok_src, ok_dst, ok_perm) (mapped tbl i looked_up)
