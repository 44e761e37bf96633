-- ===== src/Trap/Breakpoint.antt =====
-- What trap (kern/trap.c) does for `int3`, given the gate that trap_init sets for T_BRKPT.
use jos.Base.{ℕ, ◌≡◌, refl, true, false, List, has}
use jos.Phys.{Phys}
use jos.Kernel.{Trapframe, Kernel, panic}
use jos.Trap.{gate, if_on_entry, trap, was_halted}

-- On a CPU that was not halted, a breakpoint that comes with interrupts enabled, as user
-- environments run, ends in a panic of the kernel.
pub trap-breakpoint :
    (poke : ℕ → List ℕ → Phys → Phys) (fault_va : ℕ) (tf : Trapframe) (k : Kernel)
    → tf.tf_trapno ≡ 3
    → has tf.tf_eflags 0x200 ≡ true
    → was_halted k.cpu_status ≡ false
    → trap poke fault_va tf k ≡ panic
unfolding trap if_on_entry gate
trap-breakpoint poke fault_va tf k number flag awake = rw (awake, number, flag) refl
