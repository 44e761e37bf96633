-- ===== src/Syscall/Isolation.antt =====
-- The system calls of kern/syscall.c that look an environment up with `checkperm` set, on an id that is
-- neither the caller's nor that of a child of the caller.
use jos.Base.{
  ℕ, ◌≡◌, ◌≢◌, refl, ◌∙◌, ◌⊎◌, inl, inr, Bool, true, not, ◌||◌, Bool-cases, Option, none, some,
  ◌==◌, arith,
}
use jos.Errors.{Error, fail, e_bad_env, e_inval}
use jos.Kernel.{
  Kernel, Status, env_free, env_dying, env_running, env_runnable, env_not_runnable, is_status, ok,
  run_ok,
}
use jos.Env.{envx, bad_env, found, envid2env}
use jos.Syscall.{sys_env_destroy, sys_env_set_status, sys_env_set_pgfault_upcall}
use jos.Syscall.Memory.{sys_page_alloc, sys_page_map, sys_page_unmap}

-- The id 0 is the caller.
pub envid2env_self :
    (k : Kernel) (checkperm : Bool) → envid2env 0 checkperm k ≡ ok (found k.curenv) k
unfolding envid2env
envid2env_self k checkperm = refl

-- What sys_env_set_status returns for a stranger: the status is tested first.
abbrev pub status_refusal : Option Status → Error
status_refusal (some env_runnable) = e_bad_env
status_refusal (some env_not_runnable) = e_bad_env
status_refusal _ = e_inval

module _ (k : Kernel) (c : ℕ) (cur : k.curenv ≡ some c) (envid : ℕ) where
  -- The id is not 0, and its slot belongs to somebody else.
  pub record IsStranger : Type 0 where
    pub not_self_id : envid ≢ 0
    pub not_caller : envx envid ≢ c
    pub not_child : (k.envs (envx envid)).env_parent_id ≢ (k.envs c).env_id

  pub envid2env-stranger : IsStranger → envid2env envid true k ≡ ok bad_env k
  unfolding envid2env
  envid2env-stranger st = ground arith

  -- While an environment runs, envid2env with `checkperm` ends without a panic and changes nothing.
  envid2env-answers :
      (other : ℕ)
      → (envid2env other true k ≡ ok bad_env k)
        ⊎ ((e : Option ℕ) × (envid2env other true k ≡ ok (found e) k))
  unfolding envid2env
  envid2env-answers other = elim (Bool-cases (other == 0)) [
    | inl self ↦ inr (k.curenv, ground arith)
    | inr named ↦
        elim (Bool-cases (
          is_status (k.envs (envx other)).env_status env_free
          || not ((k.envs (envx other)).env_id == other))) [
            | inl gone ↦ inl (ground arith)
            | inr live ↦
                elim (Bool-cases
                  (c == envx other || (k.envs (envx other)).env_parent_id == (k.envs c).env_id)) [
                    | inr refused ↦ inl (ground arith)
                    | inl allowed ↦ inr (some (envx other), ground arith)
                  ]
          ]
  ]

  set_status-stranger :
      IsStranger
      → (st : Option Status) → sys_env_set_status envid st k ≡ ok (fail (status_refusal st)) k
  unfolding sys_env_set_status
  set_status-stranger st none = refl
  set_status-stranger st (some env_runnable) = run_ok _ (envid2env-stranger st)
  set_status-stranger st (some env_not_runnable) = run_ok _ (envid2env-stranger st)
  set_status-stranger st (some env_free) = refl
  set_status-stranger st (some env_dying) = refl
  set_status-stranger st (some env_running) = refl

  map_from-stranger :
      IsStranger
      → (other srcva va perm : ℕ) → sys_page_map envid srcva other va perm k ≡ ok (fail e_bad_env) k
  unfolding sys_page_map
  map_from-stranger st other srcva va perm =
      run_ok _ (envid2env-stranger st)
      ∙ elim (envid2env-answers other) [ inl e ↦ run_ok _ e | inr (x, e) ↦ run_ok _ e ]

  map_to-stranger :
      IsStranger
      → (other srcva va perm : ℕ) → sys_page_map other srcva envid va perm k ≡ ok (fail e_bad_env) k
  unfolding sys_page_map
  map_to-stranger st other srcva va perm = elim (envid2env-answers other) [
    | inl e ↦ run_ok _ e ∙ run_ok _ (envid2env-stranger st)
    | inr (x, e) ↦ run_ok _ e ∙ run_ok _ (envid2env-stranger st)
  ]

  -- For an id other than 0 whose slot holds neither the caller nor a child of the caller,
  -- sys_env_destroy, sys_env_set_pgfault_upcall, sys_page_alloc and sys_page_unmap of it, and
  -- sys_page_map from it or to it, from or to any other id, fail with -E_BAD_ENV and change nothing,
  -- whatever the other arguments are. So does sys_env_set_status with a status that can be set; with
  -- any other it fails with -E_INVAL and changes nothing.
  pub stranger-bad_env :
      IsStranger
      → (func va perm srcva other : ℕ) (st : Option Status)
      → (sys_env_destroy envid k ≡ ok (fail e_bad_env) k)
        × (sys_env_set_status envid st k ≡ ok (fail (status_refusal st)) k)
        × (sys_env_set_pgfault_upcall envid func k ≡ ok (fail e_bad_env) k)
        × (sys_page_alloc envid va perm k ≡ ok (fail e_bad_env) k)
        × (sys_page_unmap envid va k ≡ ok (fail e_bad_env) k)
        × (sys_page_map envid srcva other va perm k ≡ ok (fail e_bad_env) k)
        × (sys_page_map other srcva envid va perm k ≡ ok (fail e_bad_env) k)
  unfolding sys_env_destroy sys_env_set_pgfault_upcall sys_page_alloc sys_page_unmap
  stranger-bad_env st func va perm srcva other status = (
    run_ok _ (envid2env-stranger st),
    set_status-stranger st status,
    run_ok _ (envid2env-stranger st),
    run_ok _ (envid2env-stranger st),
    run_ok _ (envid2env-stranger st),
    map_from-stranger st other srcva va perm,
    map_to-stranger st other srcva va perm,
  )
