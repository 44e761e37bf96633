-- ===== src/Syscall/Ipc/Deliver.antt =====
-- What sys_ipc_try_send of kern/syscall.c does to the receiver.
use jos.Base.{ℕ, ◌≤◌, ◌≡◌, ◌≢◌, refl, ◌∙◌, true, false, some, ge→ltb, arith}
use jos.Mmu.{utop}
use jos.Errors.{ret, fail, e_ipc_not_recv}
use jos.Kernel.{Kernel, env_runnable, ok, run_ok, set_env}
use jos.Env.Ids.{Names, envid2env_complete}
use jos.Syscall.Ipc.{sys_ipc_try_send, deliver, receive}

module _ (k : Kernel) (c : ℕ) (cur : k.curenv ≡ some c) (envid e value srcva perm : ℕ) where
  deliver_lem :
      deliver e value k ≡ ok (ret 0) (set_env e (receive (k.envs c).env_id value (k.envs e)) k)
  unfolding deliver
  deliver_lem = rw cur refl

  -- A message without a page (`srcva` at or above UTOP), to a live environment that waits for one
  -- and has the id `envid`, not 0, arrives: the receiver no longer waits and is runnable, it has
  -- the value and the sender's id, and sees 0 from its call. Its other fields, `env_ipc_perm` and the
  -- other registers included, the other environments and the rest of the kernel's state stay.
  pub try_send-delivers :
      envid ≢ 0
      → Names k c envid false e
      → (k.envs e).env_ipc_recving ≡ true
      → utop ≤ srcva
      → (k' : Kernel) × (sys_ipc_try_send envid value srcva perm k ≡ ok (ret 0) k')
        × (k'.envs e ≡ record (k.envs e) {
          env_ipc_recving = false;
          env_status = env_runnable;
          env_ipc_value = value;
          env_ipc_from = (k.envs c).env_id;
          env_tf = record ((k.envs e).env_tf) {
            tf_regs = record ((k.envs e).env_tf.tf_regs) { reg_eax = 0 };
          };
        })
        × ((i : ℕ) → i ≢ e → k'.envs i ≡ k.envs i)
        × (k' ≡ record k { envs = k'.envs })
  unfolding sys_ipc_try_send
  try_send-delivers nz n waits no_page = (
    set_env e (receive (k.envs c).env_id value (k.envs e)) k,
    run_ok _ (envid2env_complete cur envid false e nz n)
        ∙ rw (waits, ge→ltb srcva utop no_page) deliver_lem,
    ground arith,
    λ i ne. ground arith,
    refl,
  )

  -- Sending to a live environment with the id `envid`, not 0, that does not wait fails with
  -- -E_IPC_NOT_RECV and changes nothing.
  pub try_send-refused :
      envid ≢ 0
      → Names k c envid false e
      → (k.envs e).env_ipc_recving ≡ false
      → sys_ipc_try_send envid value srcva perm k ≡ ok (fail e_ipc_not_recv) k
  unfolding sys_ipc_try_send
  try_send-refused nz n busy = run_ok _ (envid2env_complete cur envid false e nz n) ∙ rw busy refl
