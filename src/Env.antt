-- ===== src/Env.antt =====
-- kern/env.c: envid2env, env_init, env_setup_vm, env_alloc and env_run;
-- env_free is in Free, and the ELF loader in Loader.
pub mod Ids
pub mod Free
pub mod Unused
pub mod Loader
use jos.Base.{
  ℕ, zero, suc, ◌+◌, ◌*◌, ◌/◌, ◌%◌, ◌^◌, Bool, true, false, not, ◌||◌, Option, none, some, add32,
  leb, ◌==◌, if◌then◌else◌, update, has, bit_or,
}
use jos.Mmu.{pdx, pgaddr, pte_addr, pte_p, pte_u, uvpt, utop, ustacktop}
use jos.Errors.{Ret, ret, fail, e_no_mem, e_no_free_env}
use jos.Phys.{Phys, Action, page2pa, page_alloc, page_decref, pa2page, kaddr, add_ref, store}
use jos.PageTable.{page_remove}
use jos.Kernel.{
  Run, PushRegs, Trapframe, env_free, env_runnable, env_running, Env, Kernel, ok, running, panic, M,
  ◌>>=◌, ◌>>◌, pure, modify, after_phys, on_phys, cur_dir, set_env, set_status, is_status,
}

abbrev pub nenv : ℕ
nenv = 1024

abbrev pub envx : ℕ → ℕ
envx envid = envid % 1024

abbrev pub is_cur : Kernel → ℕ → Bool
is_cur k e = elim k.curenv [ none ↦ false | some c ↦ c == e ]

-- What envid2env returns: -E_BAD_ENV, or 0 and `*env_store`.
pub data Found : Type 0 where
  bad_env : Found
  found : Option ℕ → Found

-- `checkperm && e != curenv && e->env_parent_id != curenv->env_id`; `none` follows a null `curenv`.
abbrev pub may_not : Kernel → ℕ → Bool → Option Bool
may_not k e checkperm =
    if checkperm
    then elim k.curenv [
      | none ↦ none
      | some c ↦
          some (if c == e then false else not ((k.envs e).env_parent_id == (k.envs c).env_id))
    ]
    else some false

unfoldable pub envid2env : ℕ → Bool → M Found
envid2env envid checkperm k =
    if envid == 0
    then ok (found k.curenv) k
    else (let e = envx envid in
        if is_status (k.envs e).env_status env_free || not ((k.envs e).env_id == envid)
        then ok bad_env k
        else elim (may_not k e checkperm) [
          | none ↦ panic
          | some refused ↦ if refused then ok bad_env k else ok (found (some e)) k
        ])

-- `for (i = NENV - 1; i >= 0; i--)`, with `n` rounds left.
unfoldable pub init_envs : ℕ → Kernel → Kernel
init_envs zero k = k
init_envs (suc n) k = init_envs n (record k {
  envs =
      update k.envs n
        (record (k.envs n) { env_id = 0; env_link = k.env_free_list; env_status = env_free });
  env_free_list = some n;
})

-- env_init_percpu only loads segment registers.
unfoldable pub env_init : Kernel → Kernel
unfolding init_envs
env_init k = init_envs nenv (record k { env_free_list = none })

-- The new page directory: a copy of `kern_pgdir` that maps itself at UVPT.
unfoldable pub setup_pgdir : ℕ → Action (Option ℕ)
unfolding page_alloc kaddr
setup_pgdir kern_pgdir s = elim (page_alloc true s) [
  | none ↦ none
  | some (r, s1) ↦ elim r [
    | none ↦ some (none, s1)
    | some p ↦ elim (kaddr (page2pa p) (add_ref p s1)) [
      | none ↦ none
      | some (d, s2) ↦
          let s3 = record s2 { words = update s2.words d (s2.words kern_pgdir) } in
          some (some d, store d (pdx uvpt) (bit_or (bit_or (page2pa d) pte_p) pte_u) s3)
    ]
  ]
]

unfoldable pub env_setup_vm : ℕ → M Ret
unfolding setup_pgdir
env_setup_vm e = do
  r ← λ k. after_phys k (setup_pgdir k.kern_pgdir k.phys)
  elim r [
    | none ↦ pure (fail e_no_mem)
    | some d ↦ modify (λ k. set_env e (record (k.envs e) { env_pgdir = some d }) k) >> pure (ret 0)
  ]

-- `(env_id + (1 << ENVGENSHIFT)) & ~(NENV - 1)`; a generation that is not positive as an int32_t
-- starts again at `1 << ENVGENSHIFT`.
unfoldable pub next_id : ℕ → ℕ → ℕ
next_id old e =
    let g = add32 old 4096 / 1024 * 1024 in bit_or (if g == 0 || leb (2 ^ 31) g then 4096 else g) e

abbrev pub no_regs : PushRegs
no_regs = record {
  reg_edi = 0;
  reg_esi = 0;
  reg_ebp = 0;
  reg_oesp = 0;
  reg_ebx = 0;
  reg_edx = 0;
  reg_ecx = 0;
  reg_eax = 0;
}

-- The selectors GD_UD | 3 and GD_UT | 3, and FL_IF.
abbrev pub first_frame : Trapframe
first_frame = record {
  tf_regs = no_regs;
  tf_es = 0x23;
  tf_ds = 0x23;
  tf_trapno = 0;
  tf_err = 0;
  tf_eip = 0;
  tf_cs = 0x1b;
  tf_eflags = 0x200;
  tf_esp = ustacktop;
  tf_ss = 0x23;
}

abbrev pub new_env : ℕ → ℕ → Env → Env
new_env e parent_id v = record v {
  env_id = next_id v.env_id e;
  env_parent_id = parent_id;
  env_type = 0;
  env_status = env_runnable;
  env_runs = 0;
  env_tf = first_frame;
  env_pgfault_upcall = 0;
  env_ipc_recving = false;
}

-- On success the new entry is already in its place.
unfoldable pub commit_env : ℕ → ℕ → Ret → M (Ret × Option ℕ)
commit_env e parent_id (fail err) k = ok (fail err, none) k
commit_env e parent_id (ret n) k =
    ok (ret 0, some e)
      (record k {
        envs = update k.envs e (new_env e parent_id (k.envs e));
        env_free_list = (k.envs e).env_link;
      })

-- The second result is `*newenv_store`.
unfoldable pub env_alloc : ℕ → M (Ret × Option ℕ)
unfolding env_setup_vm commit_env
env_alloc parent_id k = elim k.env_free_list [
  | none ↦ ok (fail e_no_free_env, none) k
  | some e ↦ (do r ← env_setup_vm e; commit_env e parent_id r) k
]

-- The last part of env_run, for a CPU that holds the lock: lcr3, unlock_kernel and env_pop_tf, which
-- notes the CPU's number.
abbrev pub enter : ℕ → ℕ → Kernel → Kernel
enter e d k = record k {
  cr3 = d;
  locked = false;
  envs = update k.envs e (record (k.envs e) { env_cpunum = k.cpunum });
}

-- `curenv` goes back to ENV_RUNNABLE if it is ENV_RUNNING.
abbrev pub put_back : Kernel → Kernel
put_back k = elim k.curenv [
  | none ↦ k
  | some c ↦ if is_status (k.envs c).env_status env_running then set_status c env_runnable k else k
]

abbrev pub make_current : ℕ → Kernel → Kernel
make_current e k0 =
    let k = put_back k0 in
    record k {
      curenv = some e;
      envs = update k.envs e (record (k.envs e) {
        env_status = env_running;
        env_runs = ((k.envs e).env_runs + 1) % 2 ^ 32;
      });
    }

-- The test at the start of spin_unlock (kern/spinlock.c), which panics where `holding` fails.
abbrev pub unlock_to : Run (Unit {0}) → Kernel → Run (Unit {0})
unlock_to r k = if k.locked then r else panic

unfoldable pub env_run : ℕ → M (Unit {0})
env_run e k0 =
    let k = make_current e k0 in
    elim (k.envs e).env_pgdir [ none ↦ panic | some d ↦ unlock_to (running (enter e d k)) k ]
