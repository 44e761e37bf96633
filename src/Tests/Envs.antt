-- ===== src/Tests/Envs.antt =====
-- Examples for environments, the scheduler, the system calls and the lock.
use jos.Base.{
  ℕ, ◌*◌, ◌/◌, ◌^◌, ◌<◌, ◌≡◌, ◌↔◌, ◌≢◌, inl, refl, true, false, some, has, bit_or, [], ◌∷◌, arith,
}
use jos.Mmu.{pte_p, pte_w}
use jos.Errors.{ret, fail, e_bad_env}
use jos.Kernel.{Kernel, env_runnable, env_running, ok, running}
use jos.Env.{nenv, envx, found, next_id, envid2env}
use jos.Env.Ids.{next_id-fresh, Names, envid2env_iff}
use jos.Sched.{search_start, sched_yield}
use jos.Sched.Order.{Chosen, sched_yield-first}
use jos.Syscall.{sys_env_destroy, sys_env_set_status, sys_env_set_pgfault_upcall}
use jos.Syscall.Memory.{sys_page_alloc, sys_page_map, sys_page_unmap}
use jos.Syscall.Ipc.{sys_ipc_try_send}
use jos.Syscall.Isolation.{IsStranger, stranger-bad_env}
use jos.Syscall.Ipc.Deliver.{try_send-delivers}
use jos.Syscall.Memory.Grant.{writable, sys_page_map-writable}
use jos.Syscall.Memory.Allocate.{sys_page_alloc-maps}
use jos.Phys.FreeList.{IsFreeList}
use jos.PageTable.Walk.{pte_of}
use jos.PageTable.Map.{HasTable, table}
use jos.Spinlock.{advance, spin_initlock, start, later, outside}
use jos.Spinlock.Exclusion.{has_lock, is_dead, mutual_exclusion}
use jos.Tests.Data.{kernel, machine, machine-IsFreeList, machine-HasTable, machine-HasTable_next}

next_id-fresh_example :
    (envx (next_id 0x1003 3) ≡ 3)
    × (0 < next_id 0x1003 3)
    × (next_id 0x1003 3 < 2 ^ 31)
    × (next_id 0x1003 3 ≢ 0x1003)
next_id-fresh_example = next_id-fresh 0x1003 3 (omega arith) (omega arith)

child-Names_any : Names kernel 0 0x1001 false 1
child-Names_any = record { slot = refl; alive = refl; current_id = refl; permitted = inl refl }

other-Names : Names kernel 0 0x1002 false 2
other-Names = record { slot = refl; alive = refl; current_id = refl; permitted = inl refl }

envid2env_iff_example :
    (envid2env 0x1001 true kernel ≡ ok (found (some 1)) kernel) ↔ Names kernel 0 0x1001 true 1
envid2env_iff_example = envid2env_iff refl 0x1001 true 1 (omega arith)

sched_yield-first_example :
    (e : ℕ) × (k' : Kernel) × Chosen (search_start kernel) kernel.envs nenv 0 e
    × (sched_yield kernel ≡ running k')
    × (k'.curenv ≡ some e)
    × ((k'.envs e).env_status ≡ env_running)
    × ((kernel.envs e).env_pgdir ≡ some k'.cr3)
    × (k'.locked ≡ false)
sched_yield-first_example =
    sched_yield-first kernel 2 refl (omega arith) refl (λ e h. (1, ground arith))

-- Environment 2 is a grandchild.
grandchild-IsStranger : IsStranger kernel 0 refl 0x1002
grandchild-IsStranger = record {
  not_self_id = omega arith;
  not_caller = omega arith;
  not_child = omega arith;
}

stranger-bad_env_example :
    (sys_env_destroy 0x1002 kernel ≡ ok (fail e_bad_env) kernel)
    × (sys_env_set_status 0x1002 (some env_runnable) kernel ≡ ok (fail e_bad_env) kernel)
    × (sys_env_set_pgfault_upcall 0x1002 9 kernel ≡ ok (fail e_bad_env) kernel)
    × (sys_page_alloc 0x1002 4096 7 kernel ≡ ok (fail e_bad_env) kernel)
    × (sys_page_unmap 0x1002 4096 kernel ≡ ok (fail e_bad_env) kernel)
    × (sys_page_map 0x1002 0 0x1001 4096 7 kernel ≡ ok (fail e_bad_env) kernel)
    × (sys_page_map 0x1001 0 0x1002 4096 7 kernel ≡ ok (fail e_bad_env) kernel)
stranger-bad_env_example =
    stranger-bad_env kernel 0 refl 0x1002 grandchild-IsStranger 9 4096 7 0 0x1001
      (some env_runnable)

try_send-delivers_example :
    (k' : Kernel) × (sys_ipc_try_send 0x1001 42 0xffff_ffff 0 kernel ≡ ok (ret 0) k')
    × (k'.envs 1 ≡ record (kernel.envs 1) {
      env_ipc_recving = false;
      env_status = env_runnable;
      env_ipc_value = 42;
      env_ipc_from = 0x1000;
      env_tf = record ((kernel.envs 1).env_tf) {
        tf_regs = record ((kernel.envs 1).env_tf.tf_regs) { reg_eax = 0 };
      };
    })
    × ((i : ℕ) → i ≢ 1 → k'.envs i ≡ kernel.envs i)
    × (k' ≡ record kernel { envs = k'.envs })
try_send-delivers_example =
    try_send-delivers kernel 0 refl 0x1001 1 42 0xffff_ffff 0 (omega arith) child-Names_any refl
      (omega arith)

-- The page at 0 is mapped for the user, but not for writing.
sys_page_map-writable_example :
    (k' : Kernel) × (sys_page_map 0 0 0 4096 writable kernel ≡ ok (ret 0) k')
    × (pte_of k'.phys 1 4096 / 4096 ≡ pte_of machine 1 0 / 4096)
    × (has (pte_of k'.phys 1 4096) pte_w ≡ true)
sys_page_map-writable_example =
    sys_page_map-writable kernel 0 1 refl refl 0 4096 refl refl machine-HasTable
      machine-HasTable_next (omega arith) refl

sys_page_alloc-maps_example :
    (k' : Kernel) × (sys_page_alloc 0 4096 7 kernel ≡ ok (ret 0) k')
    × (pte_of k'.phys 1 4096 ≡ bit_or (bit_or (4 * 4096) 7) pte_p)
    × (pte_of k'.phys 1 4096 / 4096 ≡ 4)
    × HasTable k'.phys 1 4096
    × (table k'.phys 1 4096 ≡ table kernel.phys 1 4096)
    × ((i : ℕ) → k'.phys.words 4 i ≡ 0)
    × ((k'.phys.pages 4).pp_ref ≡ 1)
    × IsFreeList k'.phys (5 ∷ [])
sys_page_alloc-maps_example =
    sys_page_alloc-maps kernel 0 1 refl refl 4096 7 4 (5 ∷ []) refl refl (omega arith)
      machine-HasTable_next refl machine-IsFreeList (omega arith) (omega arith)

-- Two CPUs that both want the lock.
mutual_exclusion_example :
    ((i j : ℕ)
      → has_lock ((advance 1 (advance 0 (record { lock = spin_initlock; pc = λ c. outside }))).pc i)
        ≡ true
      → has_lock ((advance 1 (advance 0 (record { lock = spin_initlock; pc = λ c. outside }))).pc j)
        ≡ true
      → i ≡ j)
    × ((i : ℕ)
        → is_dead
            ((advance 1 (advance 0 (record { lock = spin_initlock; pc = λ c. outside }))).pc i)
          ≡ false)
mutual_exclusion_example = mutual_exclusion (later (later start 0) 1)
