-- ===== src/Sched/Order.antt =====
-- The choice of sched_yield (kern/sched.c): the first runnable environment, going round.
use jos.Base.{
  ℕ, zero, suc, ◌+◌, ◌-◌, ◌%◌, ◌<◌, ◌≡◌, refl, sym, ap, ◌∙◌, ◌⊎◌, inl, inr, Bool, true, false,
  Option, none, some, Bool-cases, if◌then◌else◌, arith,
}
use mathlib.Core.Bool.{false≢true}
use jos.Kernel.{
  halted, CpuStatus, env_runnable, env_running, Env, Kernel, running, panic, is_status,
}
use jos.Env.{nenv, env_run, enter, make_current, unlock_to}
use jos.Sched.{
  any_alive, still_running, sched_halt, find_runnable, search_start, sched_yield, chosen_or_idle,
}

module _ (start : ℕ) (envs : ℕ → Env) where
  abbrev pub runnable_at : ℕ → Bool
  runnable_at i = is_status (envs ((start + i) % nenv)).env_status env_runnable

  -- The choice among the offsets from `i` on.
  pub record Chosen (n i e : ℕ) : Type 0 where
    pub offset : ℕ
    pub below : offset < n
    pub slot : e ≡ (start + (i + offset)) % nenv
    pub is_runnable : is_status (envs e).env_status env_runnable ≡ true
    pub first : (j : ℕ) → j < offset → runnable_at (i + j) ≡ false

  -- Every offset below `n` from `i` on is not runnable.
  abbrev pub Idle : ℕ → ℕ → Type 0
  Idle n i = (j : ℕ) → j < n → runnable_at (i + j) ≡ false

  Idle-from : (n i : ℕ) → runnable_at i ≡ false → Idle n (i + 1) → Idle (suc n) i
  Idle-from n i no_one rest zero h = ap runnable_at (omega arith) ∙ no_one
  Idle-from n i no_one rest (suc j) h = ap runnable_at (omega arith) ∙ rest j (omega arith)

  here : (n i : ℕ) → runnable_at i ≡ true → Chosen (suc n) i ((start + i) % nenv)
  here n i yes_one = record {
    offset = 0;
    below = omega arith;
    slot = omega arith;
    is_runnable = yes_one;
    first = λ j h. absurd (omega arith);
  }

  later : (n i e : ℕ) → runnable_at i ≡ false → Chosen n (i + 1) e → Chosen (suc n) i e
  later n i e no_one c = record {
    offset = suc c.offset;
    below = omega (arith, c.below);
    slot = omega (arith, c.slot);
    is_runnable = c.is_runnable;
    first = Idle-from c.offset i no_one c.first;
  }

  -- The loop of sched_yield finds the first runnable environment, in circular order, among the `n`
  -- from the offset `i` on, or none of them is runnable.
  pub find_runnable-cases :
      (n i : ℕ)
      → ((find_runnable n i start envs ≡ none) × Idle n i)
        ⊎ ((e : ℕ) × (find_runnable n i start envs ≡ some e) × Chosen n i e)
  unfolding find_runnable
  find_runnable-cases zero i = inl (refl, λ j h. absurd (omega arith))
  find_runnable-cases (suc n) i = elim (Bool-cases (runnable_at i)) [
    | inl e ↦ inr ((start + i) % nenv, rw (e, find_runnable) refl, here n i e)
    | inr e ↦ elim (find_runnable-cases n (i + 1)) [
      | inl (f, idle) ↦ inl (rw (e, find_runnable) f, Idle-from n i e idle)
      | inr (x, f, c) ↦ inr (x, rw (e, find_runnable) f, later n i x e c)
    ]
  ]

-- env_run of an environment with a page directory, on a CPU that holds the lock.
pub env_run-running :
    (k : Kernel) (e d : ℕ)
    → k.locked ≡ true
    → (k.envs e).env_pgdir ≡ some d
    → env_run e k ≡ running (enter e d (make_current e k))
unfolding env_run
env_run-running k e d held h =
    let same : ((make_current e k).envs e).env_pgdir ≡ some d = ground arith in
    let still : (make_current e k).locked ≡ true = ground arith in
    ap
      (λ (p : Option ℕ). elim p [
        | none ↦ panic
        | some q ↦ unlock_to (running (enter e q (make_current e k))) (make_current e k)
      ])
      same
    ∙ ap (λ b. if b then running (enter e d (make_current e k)) else panic) still

-- A slot is met by the loop at some offset.
offset_of : (start i : ℕ) → i < 1024 → (j : ℕ) × (j < 1024) × ((start + (0 + j)) % 1024 ≡ i)
offset_of start i h = ((i + 1024 - start % 1024) % 1024, omega arith, omega arith)

module _ (k : Kernel) where
  -- If the CPU holds the kernel lock, some environment is runnable, and the runnable ones have page
  -- directories, sched_yield runs
  -- the first runnable one in circular order after the current environment: it becomes `curenv`
  -- and ENV_RUNNING, its directory is loaded, and the kernel lock is released.
  pub sched_yield-first :
      (i : ℕ)
      → k.locked ≡ true
      → i < nenv
      → is_status (k.envs i).env_status env_runnable ≡ true
      → ((e : ℕ)
          → is_status (k.envs e).env_status env_runnable ≡ true
          → (d : ℕ) × ((k.envs e).env_pgdir ≡ some d))
      → (e : ℕ) × (k' : Kernel) × Chosen (search_start k) k.envs nenv 0 e
        × (sched_yield k ≡ running k')
        × (k'.curenv ≡ some e)
        × ((k'.envs e).env_status ≡ env_running)
        × ((k.envs e).env_pgdir ≡ some k'.cr3)
        × (k'.locked ≡ false)
  unfolding sched_yield
  sched_yield-first i held lt ready dirs =
      elim (find_runnable-cases (search_start k) k.envs nenv 0) [
        | inl (_, idle) ↦
            let (j, below, at_i) = offset_of (search_start k) i lt in
            absurd (
              false≢true (
                sym (idle j below)
                ∙ ap (λ (n : ℕ). is_status (k.envs n).env_status env_runnable) at_i
                ∙ ready))
        | inr (e, f, c) ↦
            let (d, h) = dirs e c.is_runnable in
            (
              e,
              enter e d (make_current e k),
              c,
              ap (chosen_or_idle k) f ∙ env_run-running k e d held h,
              refl,
              ground arith,
              h,
              refl,
            )
      ]

-- If the CPU holds the kernel lock, no environment is runnable, the one of this CPU is not running, and some environment is
-- running or dying elsewhere, sched_yield halts the CPU: without an environment, on the kernel's
-- page directory, with the lock released and no environment changed.
pub sched_yield-halts :
    (k : Kernel)
    → k.locked ≡ true
    → Idle (search_start k) k.envs nenv 0
    → still_running k ≡ none
    → any_alive nenv k.envs ≡ true
    → (k' : Kernel) × (sched_yield k ≡ halted k')
      × (k'.curenv ≡ none)
      × (k'.cr3 ≡ k.kern_pgdir)
      × (k'.cpu_status ≡ CpuStatus.cpu_halted)
      × (k'.locked ≡ false)
      × (k'.envs ≡ k.envs)
unfolding sched_yield sched_halt
sched_yield-halts k held idle no_cur alive =
    elim (find_runnable-cases (search_start k) k.envs nenv 0) [
      | inl (none_found, _) ↦ (
        halted_state,
        ap (chosen_or_idle k) none_found
            ∙ ap (λ (o : Option ℕ). elim o [ some e ↦ env_run e k | none ↦ sched_halt k ]) no_cur
            ∙ rw (alive, held) refl,
        refl,
        refl,
        refl,
        refl,
        refl,
      )
      | inr (e, f, c) ↦ absurd (
          false≢true (
            sym (idle c.offset c.below)
            ∙ ap (λ (n : ℕ). is_status (k.envs n).env_status env_runnable) (sym c.slot)
            ∙ c.is_runnable))
    ]
  where
    halted_state : Kernel
    halted_state = record k {
      curenv = none;
      cr3 = k.kern_pgdir;
      cpu_status = CpuStatus.cpu_halted;
      locked = false;
    }
