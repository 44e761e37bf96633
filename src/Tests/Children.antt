-- ===== src/Tests/Children.antt =====
-- Examples for sys_exofork and the list of unused environments, which are environment 3.
use jos.Base.{◌≡◌, refl, inr, none, [], ◌∷◌, arith}
use jos.Errors.{ret, fail, e_no_mem}
use jos.Phys.FreeList.{IsFreeList}
use jos.Kernel.{Kernel, ok}
use jos.Env.{env_alloc, next_id}
use jos.Env.Unused.{IsEnvList}
use jos.Syscall.{sys_exofork}
use jos.Syscall.Exofork.{IsChild, sys_exofork-IsChild, sys_exofork-refuses}
use jos.Tests.Data.{kernel, used_up, machine-IsFreeList}

kernel-IsEnvList : IsEnvList kernel (3 ∷ [])
kernel-IsEnvList = record {
  links = (refl, tt);
  distinct = (tt, tt);
  unused = ((refl, omega arith), tt);
}

sys_exofork-IsChild_example :
    (k' : Kernel) × (sys_exofork kernel ≡ ok (ret (next_id 0 3)) k')
    × IsChild kernel k' 0 3 4
    × IsEnvList k' []
    × IsFreeList k'.phys (5 ∷ [])
sys_exofork-IsChild_example =
    sys_exofork-IsChild kernel 0 3 4 [] (5 ∷ []) refl refl kernel-IsEnvList machine-IsFreeList
      (ground arith)

abbrev no_memory : Kernel
no_memory = record kernel { phys = used_up }

no_memory-IsEnvList : IsEnvList no_memory (3 ∷ [])
no_memory-IsEnvList = record {
  links = (refl, tt);
  distinct = (tt, tt);
  unused = ((refl, omega arith), tt);
}

sys_exofork-refuses_example :
    (env_alloc 7 no_memory ≡ ok (fail e_no_mem, none) no_memory)
    × (sys_exofork no_memory ≡ ok (fail e_no_mem) no_memory)
sys_exofork-refuses_example =
    sys_exofork-refuses no_memory 0 7 (3 ∷ []) refl no_memory-IsEnvList (inr refl)
