-- ===== src/User/Stubs/Reached.antt =====
-- That the stubs of lib/syscall.c reach the kernel's functions with their arguments in order.
use jos.Base.{ℕ, ◌≡◌, refl, Option, some, List, ◌≤◌, arith, false, ltb, ge→ltb, ◌-◌}
use mathlib.Core.Bool.{and-false}
use jos.Errors.{Error, fail, eax_of, code}
use jos.Phys.{Phys}
use jos.Kernel.{Trapframe, ◌>>=◌}
use jos.Syscall.{
  sys_cputs, sys_cgetc, sys_getenvid, sys_env_destroy, sys_yield, sys_env_set_status,
  sys_env_set_pgfault_upcall,
}
use jos.Syscall.Memory.{sys_page_alloc, sys_page_map, sys_page_unmap}
use jos.Syscall.Ipc.{sys_ipc_try_send, sys_ipc_recv}
use jos.Syscall.Dispatch.{syscall, status_of}
use jos.Trap.{trap_dispatch, return_to}
use jos.User.Stubs.{
  Call, raise, checked, user_cputs, user_cgetc, user_env_destroy, user_getenvid, user_yield,
  user_page_alloc, user_page_map, user_page_unmap, user_env_set_status, user_env_set_pgfault_upcall,
  user_ipc_try_send, user_ipc_recv,
}

module _ (poke : ℕ → List ℕ → Phys → Phys) (fault_va : ℕ) (own : Option ℕ) (tf : Trapframe) where
  -- What trap_dispatch does with each call: the kernel's function, and its result into EAX.
  pub record ReachesKernel (a b c d e : ℕ) : Type 0 where
    pub cputs :
        trap_dispatch poke fault_va own (raise (user_cputs a b) tf)
        ≡ (sys_cputs a b >>= return_to poke fault_va own)
    pub cgetc :
        trap_dispatch poke fault_va own (raise user_cgetc tf)
        ≡ (sys_cgetc >>= return_to poke fault_va own)
    pub env_destroy :
        trap_dispatch poke fault_va own (raise (user_env_destroy a) tf)
        ≡ (sys_env_destroy a >>= return_to poke fault_va own)
    pub getenvid :
        trap_dispatch poke fault_va own (raise user_getenvid tf)
        ≡ (sys_getenvid >>= return_to poke fault_va own)
    pub yield_cpu :
        trap_dispatch poke fault_va own (raise user_yield tf)
        ≡ (sys_yield >>= return_to poke fault_va own)
    pub page_alloc :
        trap_dispatch poke fault_va own (raise (user_page_alloc a b c) tf)
        ≡ (sys_page_alloc a b c >>= return_to poke fault_va own)
    pub page_map :
        trap_dispatch poke fault_va own (raise (user_page_map a b c d e) tf)
        ≡ (sys_page_map a b c d e >>= return_to poke fault_va own)
    pub page_unmap :
        trap_dispatch poke fault_va own (raise (user_page_unmap a b) tf)
        ≡ (sys_page_unmap a b >>= return_to poke fault_va own)
    pub env_set_status :
        trap_dispatch poke fault_va own (raise (user_env_set_status a b) tf)
        ≡ (sys_env_set_status a (status_of b) >>= return_to poke fault_va own)
    pub env_set_pgfault_upcall :
        trap_dispatch poke fault_va own (raise (user_env_set_pgfault_upcall a b) tf)
        ≡ (sys_env_set_pgfault_upcall a b >>= return_to poke fault_va own)
    pub ipc_try_send :
        trap_dispatch poke fault_va own (raise (user_ipc_try_send a b c d) tf)
        ≡ (sys_ipc_try_send a b c d >>= return_to poke fault_va own)
    pub ipc_recv :
        trap_dispatch poke fault_va own (raise (user_ipc_recv a) tf)
        ≡ (sys_ipc_recv a >>= return_to poke fault_va own)

  -- Each call of lib/syscall.c, made by a program in any state, makes trap_dispatch call the kernel's
  -- function of its name with the same arguments in the same order, and put what that returns into the
  -- caller's EAX.
  pub stubs-ReachesKernel : (a b c d e : ℕ) → ReachesKernel a b c d e
  unfolding trap_dispatch raise syscall user_cputs user_cgetc user_env_destroy user_getenvid
      user_yield user_page_alloc user_page_map user_page_unmap user_env_set_status
      user_env_set_pgfault_upcall user_ipc_try_send user_ipc_recv
  stubs-ReachesKernel a b c d e = record {
    cputs = refl;
    cgetc = refl;
    env_destroy = refl;
    getenvid = refl;
    yield_cpu = refl;
    page_alloc = refl;
    page_map = refl;
    page_unmap = refl;
    env_set_status = refl;
    env_set_pgfault_upcall = refl;
    ipc_try_send = refl;
    ipc_recv = refl;
  }

code-small : (err : Error) → code err ≤ 9
code-small err = ground arith

-- No stub panics on an error of the kernel, whatever the call.
pub checked-fail :
    (c : Call) (err : Error) → checked c (eax_of (fail err)) ≡ some (eax_of (fail err))
unfolding checked
checked-fail c err =
    let high : ltb (0x1_0000_0000 - code err) 0x8000_0000 ≡ false =
      ge→ltb _ _ (omega (arith, code-small err)) in
    rw (high, and-false (ltb 0 (0x1_0000_0000 - code err)), and-false c.check) refl
