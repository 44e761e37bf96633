-- ===== src/Startup.antt =====
-- boot_aps and mp_main of kern/init.c, with the code of kern/mpentry.S between them, as the steps
-- between which another CPU can act. Each CPU runs on its own; `ncpu` and the number `me` of the CPU
-- that boots are those of mp_init, and `percpu_kstacks` is the address of the array. The copy of the
-- entry code, and what mp_main sets up for its own CPU before it announces itself, are left out.
pub mod Invariant
pub mod Stacks
pub mod Panic
use jos.Base.{ℕ, suc, ◌+◌, ◌*◌, ◌<◌, ◌≡◌, ◌≢◌, Bool, true, false, ◌==◌, if◌then◌else◌, update}
use jos.Mmu.{kstksize}
use jos.Kernel.{CpuStatus}
use jos.Kernel.CpuStatus.{cpu_unused, cpu_started, cpu_halted}

-- Where the boot CPU is: at the test of the loop of boot_aps, for the CPU with this index; in the loop
-- that waits for it; past boot_aps and sched_yield, which gives the kernel lock up.
pub data BootPc : Type 0 where
  looking waiting : ℕ → BootPc
  over : BootPc

-- Where another CPU is: halted; in mpentry.S before it loads `mpentry_kstack`; on that stack, before
-- mp_main sets `cpu_status`; in lock_kernel; past its first sched_yield.
pub data ApPc : Type 0 where
  off entering : ApPc
  on_stack locking scheduled : ℕ → ApPc

pub record Machine : Type 0 where
  pub boot : BootPc
  pub mpentry_kstack : ℕ
  pub ap : ℕ → ApPc
  pub cpu_status : ℕ → CpuStatus
  -- whether the boot CPU still has the kernel lock
  pub boot_locked : Bool

-- A CPU takes note of STARTUP only when it is halted.
abbrev pub wake : ApPc → ApPc
wake off = entering
wake pc = pc

-- `percpu_kstacks[c - cpus] + KSTKSIZE`
abbrev pub stack_top : ℕ → ℕ → ℕ
stack_top percpu_kstacks c = percpu_kstacks + c * kstksize + kstksize

module _ (percpu_kstacks ncpu me : ℕ) where
  -- `mpentry_kstack = ...; lapic_startap(c->cpu_id, PADDR(code))`
  abbrev pub start_cpu : ℕ → Machine → Machine
  start_cpu c s = record s {
    boot = waiting c;
    mpentry_kstack = stack_top percpu_kstacks c;
    ap = update s.ap c (wake (s.ap c));
  }

  pub data Step : Machine → Machine → Type 0 where
    -- `if (c == cpus + cpunum()) continue`
    skips :
        (s : Machine) (c : ℕ)
        → s.boot ≡ looking c
        → c < ncpu
        → c ≡ me
        → Step s (record s { boot = looking (c + 1) })
    starts : (s : Machine) (c : ℕ) → s.boot ≡ looking c → c < ncpu → c ≢ me → Step s (start_cpu c s)
    -- `while(c->cpu_status != CPU_STARTED)` ends.
    sees :
        (s : Machine) (c : ℕ)
        → s.boot ≡ waiting c
        → s.cpu_status c ≡ cpu_started
        → Step s (record s { boot = looking (c + 1) })
    finishes :
        (s : Machine)
        → s.boot ≡ looking ncpu
        → Step s (record s { boot = over; boot_locked = false })
    -- `movl mpentry_kstack, %esp`
    loads :
        (s : Machine) (c : ℕ)
        → s.ap c ≡ entering
        → Step s (record s { ap = update s.ap c (on_stack s.mpentry_kstack) })
    -- `xchg(&thiscpu->cpu_status, CPU_STARTED)`
    announces :
        (s : Machine) (c sp : ℕ)
        → s.ap c ≡ on_stack sp
        → Step s (record s {
          ap = update s.ap c (locking sp);
          cpu_status = update s.cpu_status c cpu_started;
        })
    -- lock_kernel and sched_yield, which runs an environment or halts the CPU.
    schedules :
        (s : Machine) (c sp : ℕ) (halts : Bool)
        → s.ap c ≡ locking sp
        → s.boot_locked ≡ false
        → Step s (record s {
          ap = update s.ap c (scheduled sp);
          cpu_status = update s.cpu_status c (if halts then cpu_halted else s.cpu_status c);
        })

  -- i386_init takes the kernel lock and calls boot_aps.
  unfoldable pub booted : Machine
  booted = record {
    boot = looking 0;
    mpentry_kstack = 0;
    ap = λ c. off;
    cpu_status = λ c. if c == me then cpu_started else cpu_unused;
    boot_locked = true;
  }

  pub data Reach : Machine → Type 0 where
    start : Reach booted
    later : (s s' : Machine) → Reach s → Step s s' → Reach s'
