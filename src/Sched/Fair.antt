-- ===== src/Sched/Fair.antt =====
-- How often sched_yield (kern/sched.c) passes over an environment that could run.
use jos.Base.{
  ℕ, suc, ◌+◌, ◌-◌, ◌%◌, ◌<◌, ◌≤◌, ◌≡◌, ◌≢◌, refl, sym, ap, ◌∙◌, inl, inr, true, Option, none, some,
  Bool-cases, ltb, ltb→lt, arith,
}
use mathlib.Core.Bool.{false≢true}
use jos.Kernel.{Kernel, Run, ok, running, halted, in_monitor, panic, env_runnable, is_status}
use jos.Env.{nenv, envx}
use jos.Sched.{search_start, sched_yield}
use jos.Sched.Order.{Chosen, sched_yield-first}

-- The CPU holds the kernel lock, `i` is runnable, and the runnable environments have page directories.
pub record IsReady (i : ℕ) (k : Kernel) : Type 0 where
  pub held : k.locked ≡ true
  pub slot : i < nenv
  pub runnable : is_status (k.envs i).env_status env_runnable ≡ true
  pub dirs :
      (e : ℕ)
      → is_status (k.envs e).env_status env_runnable ≡ true
      → (d : ℕ) × ((k.envs e).env_pgdir ≡ some d)

-- The environment that runs in `k` is the one that gives up the CPU in `k'`, and its id names its slot.
pub record Resumes (k k' : Kernel) : Type 0 where
  pub same_env : k'.curenv ≡ k.curenv
  pub own_slot : (e : ℕ) → k'.curenv ≡ some e → envx (k'.envs e).env_id ≡ e

-- A sequence of calls of sched_yield on one CPU, the last of them yet to come, in each of which `i` is
-- ready and which run other environments: `n` of them. Between two calls anything may happen to the
-- kernel's state but that `i` is no longer ready, that the CPU has another current environment or none,
-- or that the id of the current one names another slot.
pub data Waits (i : ℕ) : ℕ → Kernel → Type 0 where
  next : (k : Kernel) → IsReady i k → Waits i 0 k
  passed :
      (n : ℕ) (k run k' : Kernel)
      → IsReady i k
      → sched_yield k ≡ running run
      → run.curenv ≢ some i
      → Resumes run k'
      → Waits i n k'
      → Waits i (suc n) k

-- How many slots are before `i` in the search.
distance : ℕ → Kernel → ℕ
distance i k = (i + 1024 - search_start k % 1024) % 1024

current : Run (Unit {0}) → Option ℕ
current (running k) = k.curenv
current (ok a k) = none
current (halted k) = none
current (in_monitor k) = none
current panic = none

-- The slot that is chosen is at most as far as `i`, and less far if it is another.
round_trip : (start i : ℕ) → i < 1024 → (start + (0 + (i + 1024 - start % 1024) % 1024)) % 1024 ≡ i
round_trip start i h = omega arith

not_behind :
    (i e : ℕ) (k : Kernel)
    → IsReady i k
    → Chosen (search_start k) k.envs nenv 0 e
    → e ≢ i
    → (offset : ℕ) × (offset < distance i k) × (e ≡ (search_start k + offset) % nenv)
unfolding distance
not_behind i e k ready c other =
    let n = distance i k in
    let at_i : (search_start k + (0 + n)) % 1024 ≡ i = round_trip (search_start k) i ready.slot in
    let slot : e ≡ (search_start k + c.offset) % nenv =
      c.slot ∙ ap (λ j. (search_start k + j) % nenv) (omega arith) in
    elim (Bool-cases (ltb c.offset n)) [
      | inl lt ↦ (c.offset, ltb→lt _ _ lt, slot)
      | inr ge ↦ elim (Bool-cases (ltb n c.offset)) [
        | inl behind ↦ absurd (
            false≢true (
              sym (c.first n (ltb→lt _ _ behind))
              ∙ ap (λ (m : ℕ). is_status (k.envs m).env_status env_runnable) at_i
              ∙ ready.runnable))
        | inr at_it ↦
            let equal : c.offset ≡ n = ground arith in
            absurd (other (c.slot ∙ ap (λ j. (search_start k + (0 + j)) % nenv) equal ∙ at_i))
      ]
    ]

-- The distances after a slot that is met before `i`.
step_nearer :
    (start i e offset : ℕ)
    → i < 1024
    → offset < (i + 1024 - start % 1024) % 1024
    → e ≡ (start + offset) % 1024
    → (i + 1024 - (e + 1) % 1024) % 1024 < (i + 1024 - start % 1024) % 1024
step_nearer start i e offset h l at_e = omega arith

nearer :
    (i e : ℕ) (k k' : Kernel)
    → IsReady i k
    → Chosen (search_start k) k.envs nenv 0 e
    → e ≢ i
    → k'.curenv ≡ some e
    → envx (k'.envs e).env_id ≡ e
    → distance i k' < distance i k
unfolding distance
nearer i e k k' ready c other cur own =
    let (offset, lt, at_e) = not_behind i e k ready c other in
    let start : search_start k' ≡ e + 1 = rw (cur, own) refl in
    rw start (step_nearer (search_start k) i e offset ready.slot lt at_e)

Waits-distance : (i n : ℕ) (k : Kernel) → Waits i n k → n ≤ distance i k
unfolding current
Waits-distance i _ _ (Waits.next k ready) = omega arith
Waits-distance i _ _ (Waits.passed m k run k' ready runs other resumed rest) =
    let (e, ran, chosen, first, cur, _, _, _) =
      sched_yield-first k i ready.held ready.slot ready.runnable ready.dirs in
    let run_cur : run.curenv ≡ some e = ap current (sym runs ∙ first) ∙ cur in
    let not_i : e ≢ i = λ same. other (run_cur ∙ ap some same) in
    let cur' : k'.curenv ≡ some e = resumed.same_env ∙ run_cur in
    let less = nearer i e k k' ready chosen not_i cur' (resumed.own_slot e cur') in
    omega (arith, Waits-distance i m k' rest, less)

-- In any sequence of calls of sched_yield on one CPU that holds the kernel lock, in which an environment
-- stays runnable and the runnable ones have page directories, it is not the one that is run, and each
-- environment that is run is still the current one at the next call and has an id of its own slot, there
-- are fewer than NENV calls: the environment is passed over at most 1023 times in a row.
pub Waits-fair : (i n : ℕ) (k : Kernel) → Waits i n k → n < nenv
unfolding distance
Waits-fair i n k w = omega (arith, Waits-distance i n k w)
