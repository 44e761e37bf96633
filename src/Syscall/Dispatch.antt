-- ===== src/Syscall/Dispatch.antt =====
-- `syscall` of kern/syscall.c: the call's number and five arguments, as registers hold them.
use jos.Base.{ℕ, Option, none, some, ◌==◌, if◌then◌else◌}
use jos.Errors.{Ret, fail, e_no_sys}
use jos.Kernel.{Status, env_runnable, env_not_runnable, env_free, env_dying, env_running, M, pure}
use jos.Syscall.{
  sys_cputs, sys_cgetc, sys_getenvid, sys_env_destroy, sys_yield, sys_exofork, sys_env_set_status,
  sys_env_set_pgfault_upcall,
}
use jos.Syscall.Memory.{sys_page_alloc, sys_page_map, sys_page_unmap}
use jos.Syscall.Ipc.{sys_ipc_try_send, sys_ipc_recv}

-- The status that an int names (the enum of inc/env.h).
unfoldable pub status_of : ℕ → Option Status
status_of n =
    if n == 0
    then some env_free
    else if n == 1
    then some env_dying
    else if n == 2
    then some env_runnable
    else if n == 3
    then some env_running
    else if n == 4
    then some env_not_runnable
    else none

unfoldable pub syscall : ℕ → ℕ → ℕ → ℕ → ℕ → ℕ → M Ret
unfolding status_of
syscall syscallno a1 a2 a3 a4 a5 =
    if syscallno == 0
    then sys_cputs a1 a2
    else if syscallno == 1
    then sys_cgetc
    else if syscallno == 3
    then sys_env_destroy a1
    else if syscallno == 2
    then sys_getenvid
    else if syscallno == 10
    then sys_yield
    else if syscallno == 7
    then sys_exofork
    else if syscallno == 8
    then sys_env_set_status a1 (status_of a2)
    else if syscallno == 4
    then sys_page_alloc a1 a2 a3
    else if syscallno == 5
    then sys_page_map a1 a2 a3 a4 a5
    else if syscallno == 6
    then sys_page_unmap a1 a2
    else if syscallno == 9
    then sys_env_set_pgfault_upcall a1 a2
    else if syscallno == 12
    then sys_ipc_recv a1
    else if syscallno == 11
    then sys_ipc_try_send a1 a2 a3 a4
    else pure (fail e_no_sys)
