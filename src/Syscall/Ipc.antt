-- ===== src/Syscall/Ipc.antt =====
-- sys_ipc_try_send and sys_ipc_recv of kern/syscall.c.
pub mod Deliver
use jos.Base.{ℕ, Bool, true, false, not, ◌&&◌, ◌||◌, none, some, ltb, ◌==◌, if◌then◌else◌, has}
use jos.Mmu.{pgoff, pte_p, pte_w, pte_u, not_pte_syscall, utop}
use jos.Errors.{Ret, ret, fail, e_inval, e_ipc_not_recv}
use jos.Phys.{load}
use jos.PageTable.{page_insert, page_lookup}
use jos.Kernel.{
  env_runnable, env_not_runnable, Env, ok, M, ◌>>=◌, ◌>>◌, pure, modify, on_phys, cur_dir, set_env,
}
use jos.Env.{envid2env}
use jos.Sched.{sched_yield}
use jos.Syscall.{with_env, with_cur, child_frame}
use jos.Syscall.Memory.{with_dir}

-- The tests on the page, in the source's order; `w` is the entry at `srcva`.
unfoldable pub refuses_page : ℕ → ℕ → ℕ → Bool
refuses_page srcva perm w =
    (has perm not_pte_syscall || not (has perm pte_u) || not (has perm pte_p))
    || (has perm pte_w && not (has w pte_w))
    || not (pgoff srcva == 0)

-- The receiver's mapping, if it wants one, and `env_ipc_perm`.
unfoldable pub give_page : ℕ → ℕ → ℕ → M Ret
give_page e p perm k =
    if ltb (k.envs e).env_ipc_dstva utop
    then with_dir e
        (λ d k1.
          (on_phys (page_insert (cur_dir k1) d p (k1.envs e).env_ipc_dstva perm) >>= λ r. elim r [
            | fail err ↦ pure (fail err)
            | ret n ↦
                modify (λ j. set_env e (record (j.envs e) { env_ipc_perm = perm }) j)
                >> pure (ret 0)
          ])
            k1)
        k
    else ok (ret 0) k

unfoldable pub send_page : ℕ → ℕ → ℕ → M Ret
send_page e srcva perm = with_cur λ c. with_dir c λ d. do
  r ← on_phys (page_lookup d srcva)
  elim r [
    | none ↦ pure (fail e_inval)
    | some (p, t, i) ↦ λ k.
        if refuses_page srcva perm (load t i k.phys)
        then ok (fail e_inval) k
        else give_page e p perm k
  ]

abbrev pub receive : ℕ → ℕ → Env → Env
receive sender value v = record v {
  env_ipc_recving = false;
  env_ipc_from = sender;
  env_ipc_value = value;
  env_status = env_runnable;
  env_tf = child_frame (v.env_tf);
}

unfoldable pub deliver : ℕ → ℕ → M Ret
deliver e value =
    with_cur λ c k. ok (ret 0) (set_env e (receive (k.envs c).env_id value (k.envs e)) k)

unfoldable pub sys_ipc_try_send : ℕ → ℕ → ℕ → ℕ → M Ret
sys_ipc_try_send envid value srcva perm = do
  f ← envid2env envid false
  with_env f λ e k.
      if not (k.envs e).env_ipc_recving
      then ok (fail e_ipc_not_recv) k
      else if ltb srcva utop
      then (send_page e srcva perm >>= λ r. elim r [
        | fail err ↦ pure (fail err)
        | ret n ↦ deliver e value
      ])
          k
      else deliver e value k

abbrev pub await : ℕ → Env → Env
await dstva v = record v {
  env_ipc_recving = true;
  env_status = env_not_runnable;
  env_ipc_dstva = dstva;
}

unfoldable pub sys_ipc_recv : ℕ → M Ret
sys_ipc_recv dstva =
    if ltb dstva utop && not (pgoff dstva == 0)
    then pure (fail e_inval)
    else (with_cur
        λ c. modify (λ k. set_env c (await dstva (k.envs c)) k) >> sched_yield >> pure (ret 0))
