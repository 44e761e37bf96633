-- ===== src/Syscall/Exofork.antt =====
-- sys_exofork of kern/syscall.c, with env_alloc of kern/env.c.
use jos.Base.{ℕ, ◌≡◌, ◌≢◌, ap, sym, ◌∙◌, ◌⊎◌, none, some, List, [], ◌∷◌, update, arith}
use mathlib.Core.Path.{subst}
use jos.Mmu.{pdx, uvpt}
use jos.Errors.{ret, fail}
use jos.Phys.FreeList.{IsFreeList}
use jos.Kernel.{Kernel, ok, env_running, env_not_runnable, run_ok, deref_ok, set_env}
use jos.Env.{env_alloc, new_env, next_id, commit_env}
use jos.Env.Unused.{
  Links, IsEnvList, IsEnvList-head, Links-same, still-unused, refusal, env_alloc_refuses,
  env_alloc-head, env_setup_vm_lem,
}
use jos.Syscall.{sys_exofork, start_child}

-- With no unused environment, or with no free page, sys_exofork of a running environment returns
-- -E_NO_FREE_ENV or, where there is an unused environment, -E_NO_MEM, as env_alloc does, which stores no
-- environment; neither changes the state of the kernel.
pub sys_exofork-refuses :
    (k : Kernel) (c parent_id : ℕ) (xs : List ℕ)
    → k.curenv ≡ some c
    → IsEnvList k xs
    → (xs ≡ []) ⊎ (k.phys.free_list ≡ none)
    → (env_alloc parent_id k ≡ ok (fail (refusal xs), none) k)
      × (sys_exofork k ≡ ok (fail (refusal xs)) k)
unfolding sys_exofork
sys_exofork-refuses k c parent_id xs cur l full = (
  env_alloc_refuses k parent_id xs l full,
  deref_ok _ k cur ∙ run_ok _ (env_alloc_refuses k (k.envs c).env_id xs l full),
)

-- The child of `c` in the slot `e`, in the state `k'` after the call, with the directory on page `p`.
pub record IsChild (k k' : Kernel) (c e p : ℕ) : Type 0 where
  pub id : (k'.envs e).env_id ≡ next_id (k.envs e).env_id e
  pub parent : (k'.envs e).env_parent_id ≡ (k.envs c).env_id
  pub stopped : (k'.envs e).env_status ≡ env_not_runnable
  pub frame :
      (k'.envs e).env_tf
      ≡ record ((k.envs c).env_tf) { tf_regs = record ((k.envs c).env_tf.tf_regs) { reg_eax = 0 } }
  pub dir : (k'.envs e).env_pgdir ≡ some p
  pub kernel_part : (i : ℕ) → i ≢ pdx uvpt → k'.phys.words p i ≡ k.phys.words k.kern_pgdir i
  pub others : (j : ℕ) → j ≢ e → k'.envs j ≡ k.envs j

-- sys_exofork of a running environment `c`, with the unused environments `e ∷ rest` and the free pages
-- `p ∷ ps`, where `p` is not the kernel's page directory: it returns the id of `e`, which is now a child
-- of `c` that does not run yet, with the registers of `c` but 0 in eax and a directory on `p` that
-- copies the kernel's outside the entry for UVPT; `rest` and `ps` are left, and no other environment
-- changes.
pub sys_exofork-IsChild :
    (k : Kernel) (c e p : ℕ) (rest ps : List ℕ)
    → k.curenv ≡ some c
    → (k.envs c).env_status ≡ env_running
    → IsEnvList k (e ∷ rest)
    → IsFreeList k.phys (p ∷ ps)
    → k.kern_pgdir ≢ p
    → (k' : Kernel) × (sys_exofork k ≡ ok (ret (next_id (k.envs e).env_id e)) k')
      × IsChild k k' c e p
      × IsEnvList k' rest
      × IsFreeList k'.phys ps
unfolding sys_exofork commit_env
sys_exofork-IsChild k c e p rest ps cur runs l free other =
    let (t, built, pages, copied) = env_setup_vm_lem k e p ps free other in
    let (head, links) = IsEnvList-head l in
    let with_dir = set_env e (record (k.envs e) { env_pgdir = some p }) (record k { phys = t }) in
    let with_env = record with_dir {
      envs = update with_dir.envs e (new_env e (k.envs c).env_id (with_dir.envs e));
      env_free_list = (with_dir.envs e).env_link;
    } in
    let last = start_child c e with_env in
    let own_id : (last.envs e).env_id ≡ next_id (k.envs e).env_id e = ground arith in
    let link : (with_dir.envs e).env_link ≡ (k.envs e).env_link = ground arith in
    let apart : c ≢ e = ground (arith, l.unused.0.0) in
    let same_cur : with_env.envs c ≡ k.envs c = ground arith in
    let same_others : (j : ℕ) → j ≢ e → last.envs j ≡ k.envs j = λ j n. ground arith in
    (
      last,
      deref_ok _ k cur
          ∙ run_ok _ (env_alloc-head k (k.envs c).env_id e head ∙ run_ok _ built)
          ∙ ap (λ (n : ℕ). ok (ret n) last) own_id,
      record {
        id = own_id;
        parent = ground arith;
        stopped = ground arith;
        frame = ground arith;
        dir = ground arith;
        kernel_part = copied;
        others = same_others;
      },
      record {
        links =
            subst (λ h. Links last.envs h rest) (sym link)
              (Links-same {f = k.envs} {g = last.envs} e same_others (k.envs e).env_link rest
                l.distinct.0 links);
        distinct = l.distinct.1;
        unused =
            still-unused {f = k.envs} {g = last.envs} e same_others rest l.distinct.0 l.unused.1;
      },
      pages,
    )
