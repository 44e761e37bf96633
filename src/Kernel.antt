-- ===== src/Kernel.antt =====
-- The state of the kernel that the system calls share: `struct Env` and `struct Trapframe` of
-- inc/env.h and inc/trap.h, the globals of kern/env.c, and the fields of `thiscpu` (kern/cpu.h).
--
-- A `struct Env *` into `envs` is the index of the entry; `envid_t` values are 32-bit patterns.
use jos.Base.{ℕ, Bool, true, false, Option, none, some, List, update, ◌≡◌, ap}
use jos.Errors.{Ret}
use jos.Phys.{Phys, Action}
use jos.Console.{Cons}

pub record PushRegs : Type 0 where
  pub reg_edi : ℕ
  pub reg_esi : ℕ
  pub reg_ebp : ℕ
  pub reg_oesp : ℕ
  pub reg_ebx : ℕ
  pub reg_edx : ℕ
  pub reg_ecx : ℕ
  pub reg_eax : ℕ

pub record Trapframe : Type 0 where
  pub tf_regs : PushRegs
  pub tf_es : ℕ
  pub tf_ds : ℕ
  pub tf_trapno : ℕ
  pub tf_err : ℕ
  pub tf_eip : ℕ
  pub tf_cs : ℕ
  pub tf_eflags : ℕ
  pub tf_esp : ℕ
  pub tf_ss : ℕ

pub data Status : Type 0 where
  env_free env_dying env_runnable env_running env_not_runnable : Status

pub record Env : Type 0 where
  pub env_tf : Trapframe
  pub env_link : Option ℕ
  pub env_id : ℕ
  pub env_parent_id : ℕ
  pub env_type : ℕ
  pub env_status : Status
  pub env_runs : ℕ
  pub env_cpunum : ℕ
  -- `none` is NULL
  pub env_pgdir : Option ℕ
  pub env_pgfault_upcall : ℕ
  pub env_ipc_recving : Bool
  pub env_ipc_dstva : ℕ
  pub env_ipc_value : ℕ
  pub env_ipc_from : ℕ
  pub env_ipc_perm : ℕ

pub data CpuStatus : Type 0 where
  cpu_unused cpu_started cpu_halted : CpuStatus

pub record Kernel : Type 0 where
  pub phys : Phys
  pub envs : ℕ → Env
  pub env_free_list : Option ℕ
  pub kern_pgdir : ℕ
  -- this CPU: its environment, page directory, status and number
  pub curenv : Option ℕ
  pub cr3 : ℕ
  pub cpu_status : CpuStatus
  pub cpunum : ℕ
  -- whether this CPU holds the kernel lock
  pub locked : Bool
  -- the console: its buffer, what the devices hold, and the strings printed by sys_cputs
  pub cons : Cons
  pub serial_in : List ℕ
  pub kbd_in : List ℕ
  pub printed : List (ℕ × ℕ)

-- How a call ends: it returns, or this CPU runs `curenv`, or halts, or stays in the monitor, or the
-- kernel panics or follows a null pointer.
pub data Run (A : Type 0) : Type 0 where
  ok : A → Kernel → Run A
  running : Kernel → Run A
  halted : Kernel → Run A
  in_monitor : Kernel → Run A
  panic : Run A

abbrev pub M : Type 0 → Type 0
M A = Kernel → Run A

abbrev pub and_then : {A B : Type 0} → Run A → (A → M B) → Run B
and_then (ok a k) f = f a k
and_then (running k) f = running k
and_then (halted k) f = halted k
and_then (in_monitor k) f = in_monitor k
and_then panic f = panic

infixl 5 ◌>>=◌ ◌>>◌
abbrev pub ◌>>=◌ : {A B : Type 0} → M A → (A → M B) → M B
◌>>=◌ m f k = and_then (m k) f

abbrev pub ◌>>◌ : {A B : Type 0} → M A → M B → M B
m >> n = m >>= λ _. n

-- What follows a call that returns.
pub run_ok :
    {A B : Type 0} {r : Run A} {a : A} {k : Kernel} (f : A → M B)
    → r ≡ ok a k
    → and_then r f ≡ f a k
run_ok f e = ap (λ r. and_then r f) e

abbrev pub pure : {A : Type 0} → A → M A
pure a k = ok a k

abbrev pub modify : (Kernel → Kernel) → M (Unit {0})
modify f k = ok tt (f k)

-- A function of kern/pmap.c, called with the current `curenv`.
abbrev pub after_phys : {A : Type 0} → Kernel → Option (A × Phys) → Run A
after_phys k none = panic
after_phys k (some (a, s)) = ok a (record k { phys = s })

abbrev pub on_phys : {A : Type 0} → Action A → M A
on_phys m k = after_phys k (m k.phys)

pub phys_ok :
    {A B : Type 0} {r : Option (A × Phys)} {a : A} {t : Phys} (f : A → M B) (k : Kernel)
    → r ≡ some (a, t)
    → and_then (after_phys k r) f ≡ f a (record k { phys = t })
phys_ok f k e = ap (λ r. and_then (after_phys k r) f) e

abbrev pub cur_dir : Kernel → Option (Option ℕ)
cur_dir k = elim k.curenv [ none ↦ none | some e ↦ some (k.envs e).env_pgdir ]

abbrev pub set_env : ℕ → Env → Kernel → Kernel
set_env e v k = record k { envs = update k.envs e v }

abbrev pub set_status : ℕ → Status → Kernel → Kernel
set_status e st k = set_env e (record (k.envs e) { env_status = st }) k

-- A pointer that the code follows without a test.
abbrev pub deref : {A : Type 0} → Option A → (A → M Ret) → M Ret
deref none f k = panic
deref (some a) f k = f a k

pub deref_ok :
    {A : Type 0} {o : Option A} {a : A} (f : A → M Ret) (k : Kernel)
    → o ≡ some a
    → deref o f k ≡ f a k
deref_ok f k e = ap (λ o. deref o f k) e

-- `curenv == e`, and tests on `env_status`
abbrev pub is_status : Status → Status → Bool
is_status env_free env_free = true
is_status env_dying env_dying = true
is_status env_runnable env_runnable = true
is_status env_running env_running = true
is_status env_not_runnable env_not_runnable = true
is_status _ _ = false
