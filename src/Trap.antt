-- ===== src/Trap.antt =====
-- kern/trap.c: the interrupt gates of trap_init, page_fault_handler, trap_dispatch and trap.
--
-- Parameters stand for the hardware: `fault_va` for the register CR2, and `poke` for the CPU's
-- stores through the page tables of the running environment.
pub mod Breakpoint
pub mod Printed
use jos.Base.{
  ℕ, ◌+◌, ◌-◌, ◌%◌, Bool, true, false, ◌&&◌, ◌||◌, Option, none, some, List, [], ◌∷◌, leb, ◌==◌,
  if◌then◌else◌, sub32, has,
}
use jos.Mmu.{pg_size, pte_w, uxstacktop}
use jos.Errors.{Ret, eax_of}
use jos.Phys.{Phys}
use jos.Kernel.{
  PushRegs, Trapframe, env_dying, env_running, Kernel, CpuStatus, cpu_started, cpu_halted, ok,
  panic, M, ◌>>=◌, ◌>>◌, pure, modify, set_env, is_status,
}
use jos.Env.{env_run}
use jos.Env.Free.{free_env}
use jos.Sched.{sched_yield, env_destroy}
use jos.Syscall.{user_mem_assert}
use jos.Syscall.Dispatch.{syscall}

-- A gate of `idt`: whether it is a trap gate, which leaves interrupts enabled, and the privilege
-- level from which `int` may name it.
pub record Gate : Type 0 where
  pub istrap : Bool
  pub dpl : ℕ

-- The SETGATE calls of trap_init, by vector.
unfoldable pub gate : ℕ → Option Gate
gate n =
    if n == 3
    then some (record { istrap = true; dpl = 3 })
    else if n == 48
    then some (record { istrap = false; dpl = 3 })
    else if n == 9 || n == 15
    then none
    else if leb n 19
    then some (record { istrap = false; dpl = 0 })
    else if leb 32 n && leb n 47
    then some (record { istrap = false; dpl = 0 })
    else none

-- Whether FL_IF is set when the handler starts: an interrupt gate clears it.
unfoldable pub if_on_entry : Trapframe → Bool
if_on_entry tf = elim (gate tf.tf_trapno) [
  | none ↦ false
  | some g ↦ g.istrap && has tf.tf_eflags 0x200
]

-- spin_lock on `kernel_lock` panics if this CPU holds it; waiting for another CPU is not shown.
unfoldable pub lock_kernel : M (Unit {0})
lock_kernel k = if k.locked then panic else ok tt (record k { locked = true })

-- The words of `struct UTrapframe`, in order.
unfoldable pub utrapframe : ℕ → Trapframe → List ℕ
utrapframe fault_va tf =
    fault_va ∷ tf.tf_err ∷ r.reg_edi ∷ r.reg_esi ∷ r.reg_ebp ∷ r.reg_oesp ∷ r.reg_ebx ∷ r.reg_edx
    ∷ r.reg_ecx ∷ r.reg_eax ∷ tf.tf_eip ∷ tf.tf_eflags ∷ tf.tf_esp ∷ []
  where
    r : PushRegs
    r = tf.tf_regs

-- sizeof(struct UTrapframe)
abbrev pub utf_size : ℕ
utf_size = 52

-- Where the frame goes: below the last one, with a word to spare, or at the stack's top.
unfoldable pub utf_addr_of : ℕ → ℕ
utf_addr_of esp =
    if leb (uxstacktop - pg_size) esp && leb esp (uxstacktop - 1)
    then sub32 (sub32 esp utf_size) 4
    else uxstacktop - utf_size

abbrev pub was_halted : CpuStatus → Bool
was_halted cpu_halted = true
was_halted _ = false

module _ (poke : ℕ → List ℕ → Phys → Phys) (fault_va : ℕ) where
  -- `tf` is `&curenv->env_tf`, of the environment `c`.
  abbrev pub start_upcall : ℕ → ℕ → Trapframe → Kernel → Kernel
  start_upcall c at_addr tf k =
      let v = k.envs c in
      set_env c
        (record v { env_tf = record tf { tf_eip = v.env_pgfault_upcall; tf_esp = at_addr } })
        (record k { phys = poke at_addr (utrapframe fault_va tf) k.phys })

  unfoldable pub page_fault_handler : Trapframe → M (Unit {0})
  page_fault_handler tf k0 = if tf.tf_cs % 4 == 0 then panic else elim k0.curenv [
    | none ↦ panic
    | some c ↦
        ((λ k. if (k.envs c).env_pgfault_upcall == 0 then env_destroy c k else ok tt k)
            >> user_mem_assert c (utf_addr_of tf.tf_esp) utf_size pte_w
            >> modify (start_upcall c (utf_addr_of tf.tf_esp) tf)
            >> env_run c)
          k0
  ]

  -- `tf->tf_regs.reg_eax = ret`, where `tf` is the environment's own frame
  abbrev pub return_to : Option ℕ → Ret → M (Unit {0})
  return_to none r = pure tt
  return_to (some c) r = modify λ k.
      let v = k.envs c in
      let f = v.env_tf in
      set_env c
        (record v { env_tf = record f { tf_regs = record (f.tf_regs) { reg_eax = eax_of r } } }) k

  -- `own` is the environment whose `env_tf` the frame is, if the trap came from user mode. The
  -- kernel monitor (T_BRKPT) and the printing of frames do not change this state.
  unfoldable pub trap_dispatch : Option ℕ → Trapframe → M (Unit {0})
  trap_dispatch own tf =
      if tf.tf_trapno == 14
      then page_fault_handler tf
      else if tf.tf_trapno == 3
      then pure tt
      else if tf.tf_trapno == 48
      then (syscall tf.tf_regs.reg_eax tf.tf_regs.reg_edx tf.tf_regs.reg_ecx tf.tf_regs.reg_ebx
            tf.tf_regs.reg_edi tf.tf_regs.reg_esi
          >>= return_to own)
      else if tf.tf_trapno == 32 + 7
      then pure tt
      else if tf.tf_trapno == 32 + 0
      then sched_yield
      else if tf.tf_cs == 0x08
      then (λ k. panic)
      else (λ k. elim k.curenv [ none ↦ panic | some c ↦ env_destroy c k ])

  -- The zombie test and the copy of the frame, for a trap from user mode.
  unfoldable pub enter_from_user : Trapframe → M (Option ℕ)
  enter_from_user tf = lock_kernel >> λ k. elim k.curenv [
    | none ↦ panic
    | some c ↦
        if is_status (k.envs c).env_status env_dying
        then (free_env c >> modify (λ j. record j { curenv = none }) >> sched_yield >> pure none) k
        else ok (some c) (set_env c (record (k.envs c) { env_tf = tf }) k)
  ]

  -- `if (curenv && curenv->env_status == ENV_RUNNING) env_run(curenv); else sched_yield();`
  abbrev pub leave_trap : M (Unit {0})
  leave_trap k = elim k.curenv [
    | none ↦ sched_yield k
    | some c ↦ if is_status (k.envs c).env_status env_running then env_run c k else sched_yield k
  ]

  -- No CPU has called panic().
  unfoldable pub trap : Trapframe → M (Unit {0})
  trap tf = do
    λ k.
        (if was_halted k.cpu_status then lock_kernel else pure tt)
          (record k { cpu_status = cpu_started })
    (if if_on_entry tf then (λ k. panic) else pure tt)
    own ← (if tf.tf_cs % 4 == 3 then enter_from_user tf else pure none)
    trap_dispatch own tf
    leave_trap
