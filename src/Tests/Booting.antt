-- ===== src/Tests/Booting.antt =====
-- An example for boot_aps: CPU 0 boots CPU 1, and then CPU 2 up to its stack.
use jos.Base.{
  ℕ, ◌+◌, ◌*◌, ◌≡◌, ◌≤◌, ◌⊎◌, refl, ◌==◌, ◌<◌, ◌≢◌, true, some, if◌then◌else◌, update, arith,
}
use jos.Mmu.{kstksize}
use jos.Kernel.CpuStatus.{cpu_unused, cpu_started}
use jos.Startup.{
  looking, over, off, on_stack, locking, Machine, stack_top, start_cpu, Step, booted, Reach,
}
use jos.Startup.Invariant.{stack_of, is_up}
use jos.Startup.Stacks.{boot_aps-stacks, boot_aps-progress}

abbrev base : ℕ
base = 0xf023_0000

abbrev passed : Machine
passed = record {
  boot = looking 1;
  mpentry_kstack = 0;
  ap = λ c. off;
  cpu_status = λ c. if c == 0 then cpu_started else cpu_unused;
  boot_locked = true;
}

abbrev one_started : Machine
one_started = start_cpu base 3 0 1 passed

abbrev one_loaded : Machine
one_loaded = record one_started { ap = update one_started.ap 1 (on_stack (stack_top base 1)) }

abbrev one_up : Machine
one_up = record one_loaded {
  ap = update one_loaded.ap 1 (locking (stack_top base 1));
  cpu_status = update one_loaded.cpu_status 1 cpu_started;
}

abbrev one_seen : Machine
one_seen = record one_up { boot = looking 2 }

abbrev two_started : Machine
two_started = start_cpu base 3 0 2 one_seen

abbrev two_loaded : Machine
two_loaded = record two_started { ap = update two_started.ap 2 (on_stack (stack_top base 2)) }

booted-passed : Step base 3 0 (booted base 3 0) passed
unfolding booted
booted-passed = Step.skips (booted base 3 0) 0 refl (omega arith) refl

one-Reach : Reach base 3 0 one_seen
one-Reach =
    Reach.later one_up one_seen
      (Reach.later one_loaded one_up
        (Reach.later one_started one_loaded
          (Reach.later passed one_started
            (Reach.later (booted base 3 0) passed Reach.start booted-passed)
            (Step.starts passed 1 refl (omega arith) (ground arith)))
          (Step.loads one_started 1 refl))
        (Step.announces one_loaded 1 (stack_top base 1) refl))
      (Step.sees one_up 1 refl refl)

two-Reach : Reach base 3 0 two_loaded
two-Reach =
    Reach.later two_started two_loaded
      (Reach.later one_seen two_started one-Reach
        (Step.starts one_seen 2 refl (omega arith) (ground arith)))
      (Step.loads two_started 2 refl)

boot_aps-stacks_example :
    (stack_top base 1 ≡ base + 1 * kstksize + kstksize)
    × ((d sq : ℕ)
        → stack_of (two_loaded.ap d) ≡ some sq
        → 1 ≢ d
        → (stack_top base 1 + kstksize ≤ sq) ⊎ (sq + kstksize ≤ stack_top base 1))
boot_aps-stacks_example = boot_aps-stacks base 3 0 two_loaded 1 (stack_top base 1) two-Reach refl

boot_aps-progress_example :
    ((two_loaded.boot ≡ over) × ((c : ℕ) → c < 3 → c ≢ 0 → is_up (two_loaded.ap c) ≡ true))
    ⊎ ((s' : Machine) × Step base 3 0 two_loaded s')
boot_aps-progress_example = boot_aps-progress base 3 0 two_loaded two-Reach
