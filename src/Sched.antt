-- ===== src/Sched.antt =====
-- kern/sched.c, and env_destroy of kern/env.c, which calls it.
pub mod Order
pub mod Fair
use jos.Base.{
  ℕ, zero, suc, ◌+◌, ◌%◌, Bool, true, false, not, ◌&&◌, ◌||◌, Option, none, some, if◌then◌else◌,
}
use jos.Kernel.{
  env_dying, env_runnable, env_running, Env, Kernel, Run, ok, halted, in_monitor, M, ◌>>◌, modify,
  set_status, is_status, CpuStatus,
}
use jos.Env.{nenv, envx, is_cur, env_run, unlock_to}
use jos.Env.Free.{free_env}

-- `for (i = 0; i < NENV; i++)` over the entries from `start` on, going round; `n` rounds left.
unfoldable pub find_runnable : ℕ → ℕ → ℕ → (ℕ → Env) → Option ℕ
find_runnable zero i start envs = none
find_runnable (suc n) i start envs =
    elim (is_status (envs ((start + i) % nenv)).env_status env_runnable) [
      | true ↦ some ((start + i) % nenv)
      | false ↦ find_runnable n (i + 1) start envs
    ]

-- `ENVX(e->env_id) + 1`, or 0 without a current environment
abbrev pub search_start : Kernel → ℕ
search_start k = elim k.curenv [ none ↦ 0 | some c ↦ envx (k.envs c).env_id + 1 ]

-- Whether an environment could still need this CPU: the first loop of sched_halt.
unfoldable pub any_alive : ℕ → (ℕ → Env) → Bool
any_alive zero envs = false
any_alive (suc n) envs =
    any_alive n envs
    || (is_status (envs n).env_status env_runnable
        || is_status (envs n).env_status env_running
        || is_status (envs n).env_status env_dying)

unfoldable pub sched_halt : M (Unit {0})
sched_halt k =
    if any_alive nenv k.envs
    then unlock_to
        (halted (record k {
          curenv = none;
          cr3 = k.kern_pgdir;
          cpu_status = CpuStatus.cpu_halted;
          locked = false;
        }))
        k
    else in_monitor k

-- `e != NULL && e->env_status == ENV_RUNNING`
abbrev pub still_running : Kernel → Option ℕ
still_running k = elim k.curenv [
  | none ↦ none
  | some c ↦ if is_status (k.envs c).env_status env_running then some c else none
]

-- What sched_yield does with the result of its loop.
abbrev pub chosen_or_idle : Kernel → Option ℕ → Run (Unit {0})
chosen_or_idle k (some e) = env_run e k
chosen_or_idle k none = elim (still_running k) [ some e ↦ env_run e k | none ↦ sched_halt k ]

unfoldable pub sched_yield : M (Unit {0})
sched_yield k = chosen_or_idle k (find_runnable nenv 0 (search_start k) k.envs)

unfoldable pub env_destroy : ℕ → M (Unit {0})
env_destroy e k =
    if is_status (k.envs e).env_status env_running && not (is_cur k e)
    then ok tt (set_status e env_dying k)
    else (free_env e >> λ k'.
          if is_cur k' e
          then (modify (λ j. record j { curenv = none }) >> sched_yield) k'
          else ok tt k')
        k
