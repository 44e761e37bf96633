-- ===== src/Syscall.antt =====
-- kern/syscall.c: the system calls and their dispatch; user_mem_assert of kern/pmap.c.
pub mod Memory
pub mod Ipc
pub mod Exofork
pub mod Dispatch
pub mod Isolation
use jos.Base.{
  ℕ, Bool, true, false, not, ◌&&◌, ◌||◌, Option, none, some, [], ◌∷◌, ◌==◌, if◌then◌else◌, bit_or,
}
use jos.Mmu.{pte_u}
use jos.Errors.{Ret, ret, fail, e_bad_env, e_inval}
use jos.Console.{cons_getc}
use jos.PageTable.UserMem.{user_mem_check}
use jos.Kernel.{
  Status, env_runnable, env_not_runnable, Env, Kernel, Trapframe, Run, ok, panic, M, and_then,
  ◌>>=◌, ◌>>◌, pure, modify, on_phys, set_env, is_status, deref,
}
use jos.Env.{Found, bad_env, found, envid2env, env_alloc}
use jos.Sched.{env_destroy, sched_yield}

-- Every caller of envid2env follows the pointer it stores.
abbrev pub with_env : Found → (ℕ → M Ret) → M Ret
with_env bad_env f k = ok (fail e_bad_env) k
with_env (found e) f k = deref e f k

-- `curenv`, followed without a test
abbrev pub with_cur : (ℕ → M Ret) → M Ret
with_cur f k = deref k.curenv f k

-- The check's message on the console is not modelled.
unfoldable pub user_mem_assert : ℕ → ℕ → ℕ → ℕ → M (Unit {0})
user_mem_assert e va len perm k = elim (k.envs e).env_pgdir [
  | none ↦ panic
  | some d ↦
      (on_phys (user_mem_check d va len (bit_or perm pte_u)) >>= λ r. elim r [
        | none ↦ pure tt
        | some addr ↦ env_destroy e
      ])
        k
]

unfoldable pub sys_cputs : ℕ → ℕ → M Ret
sys_cputs s len = with_cur λ c. do
  _ ← user_mem_assert c s len pte_u
  modify (λ k. record k { printed = (s, len) ∷ k.printed })
  pure (ret 0)

unfoldable pub sys_cgetc : M Ret
sys_cgetc k =
    let (c, cons') = cons_getc k.serial_in k.kbd_in k.cons in
    ok (ret c) (record k { cons = cons'; serial_in = []; kbd_in = [] })

unfoldable pub sys_getenvid : M Ret
sys_getenvid = with_cur λ c k. ok (ret (k.envs c).env_id) k

unfoldable pub sys_env_destroy : ℕ → M Ret
sys_env_destroy envid = do f ← envid2env envid true; with_env f λ e. env_destroy e >> pure (ret 0)

unfoldable pub sys_yield : M Ret
sys_yield = sched_yield >> pure (ret 0)

-- The copied trap frame, in which `reg_eax` is 0, makes the child see 0.
abbrev pub child_frame : Trapframe → Trapframe
child_frame tf = record tf { tf_regs = record (tf.tf_regs) { reg_eax = 0 } }

abbrev pub start_child : ℕ → ℕ → Kernel → Kernel
start_child c e k =
    set_env e
      (record (k.envs e) { env_status = env_not_runnable; env_tf = child_frame (k.envs c).env_tf })
      k

abbrev pub finish_fork : ℕ → Ret → Option ℕ → M Ret
finish_fork c (fail err) e k = ok (fail err) k
finish_fork c (ret n) e k =
    deref e (λ e'. modify (start_child c e') >> λ j. ok (ret (j.envs e').env_id) j) k

unfoldable pub sys_exofork : M Ret
sys_exofork = with_cur λ c k. (do (r, e) ← env_alloc (k.envs c).env_id; finish_fork c r e) k

-- The argument is the status that the int names, or `none`.
unfoldable pub sys_env_set_status : ℕ → Option Status → M Ret
sys_env_set_status envid none = pure (fail e_inval)
sys_env_set_status envid (some st) =
    if not (is_status st env_runnable) && not (is_status st env_not_runnable)
    then pure (fail e_inval)
    else (do
      f ← envid2env envid true
      with_env f
          λ e. modify (λ k. set_env e (record (k.envs e) { env_status = st }) k) >> pure (ret 0))

unfoldable pub sys_env_set_pgfault_upcall : ℕ → ℕ → M Ret
sys_env_set_pgfault_upcall envid func = do
  f ← envid2env envid true
  with_env f λ e.
      modify (λ k. set_env e (record (k.envs e) { env_pgfault_upcall = func }) k) >> pure (ret 0)
