-- ===== src/Startup/Stacks.antt =====
-- The stacks on which boot_aps and mp_main of kern/init.c start the other CPUs, and that they all start.
use jos.Base.{
  ◌⊎◌, inl, inr, ◌==◌, ==→eq, ltb, ltb→lt, Bool-cases, ℕ, ◌+◌, ◌*◌, ◌<◌, ◌≤◌, ◌≡◌, ◌≢◌, refl, true,
  some, arith,
}
use jos.Mmu.{kstksize}
use jos.Startup.{
  BootPc, looking, waiting, over, ApPc, off, entering, on_stack, locking, scheduled, Machine, Step,
  Reach,
}
use jos.Startup.Invariant.{stack_of, is_up, IsSound, Reach-IsSound}

BootPc-cases :
    (b : BootPc) → (b ≡ over) ⊎ (((c : ℕ) × (b ≡ looking c)) ⊎ ((c : ℕ) × (b ≡ waiting c)))
BootPc-cases over = inl refl
BootPc-cases (looking c) = inr (inl (c, refl))
BootPc-cases (waiting c) = inr (inr (c, refl))

ApPc-cases :
    (a : ApPc)
    → (a ≡ off)
      ⊎ ((a ≡ entering)
          ⊎ (((sp : ℕ) × (a ≡ on_stack sp))
              ⊎ (((sp : ℕ) × (a ≡ locking sp)) ⊎ ((sp : ℕ) × (a ≡ scheduled sp)))))
ApPc-cases off = inl refl
ApPc-cases entering = inr (inl refl)
ApPc-cases (on_stack sp) = inr (inr (inl (sp, refl)))
ApPc-cases (locking sp) = inr (inr (inr (inl (sp, refl))))
ApPc-cases (scheduled sp) = inr (inr (inr (inr (sp, refl))))

module _ (percpu_kstacks ncpu me : ℕ) where
  -- In every state that the CPUs can reach, each CPU that has loaded `mpentry_kstack` is on the stack
  -- of its own index, and this stack, of KSTKSIZE bytes below its top, does not overlap the one of any
  -- other such CPU.
  pub boot_aps-stacks :
      (s : Machine) (c sp : ℕ)
      → Reach percpu_kstacks ncpu me s
      → stack_of (s.ap c) ≡ some sp
      → (sp ≡ percpu_kstacks + c * kstksize + kstksize)
        × ((d sq : ℕ)
            → stack_of (s.ap d) ≡ some sq
            → c ≢ d
            → (sp + kstksize ≤ sq) ⊎ (sq + kstksize ≤ sp))
  boot_aps-stacks s c sp r on_c =
      let v = Reach-IsSound percpu_kstacks ncpu me s r in
      let at_c = v.stacks c sp on_c in
      (
        at_c,
        λ d sq on_d differ.
            let at_d = v.stacks d sq on_d in
            elim (Bool-cases (ltb c d)) [
              | inl y ↦ inl (omega (arith, at_c, at_d, ltb→lt c d y))
              | inr f ↦ inr (ground arith)
            ],
      )

  looks :
      {s : Machine} (c : ℕ)
      → s.boot ≡ looking c
      → IsSound percpu_kstacks ncpu me s
      → (s' : Machine) × Step percpu_kstacks ncpu me s s'
  looks {s} c at v = elim (Bool-cases (ltb c ncpu)) [
    | inr f ↦ (_, Step.finishes s (ground (arith, v.bound)))
    | inl y ↦ elim (Bool-cases (c == me)) [
      | inl own ↦ (_, Step.skips s c at (ltb→lt c ncpu y) (==→eq c me own))
      | inr other ↦ (_, Step.starts s c at (ltb→lt c ncpu y) (ground arith))
    ]
  ]

  waits :
      {s : Machine} (c : ℕ)
      → s.boot ≡ waiting c
      → IsSound percpu_kstacks ncpu me s
      → (s' : Machine) × Step percpu_kstacks ncpu me s s'
  waits {s} c at v = elim (ApPc-cases (s.ap c)) [
    | inl is_off ↦ absurd (v.woken c at is_off)
    | inr (inl enters) ↦ (_, Step.loads s c enters)
    | inr (inr (inl (sp, stacked))) ↦ (_, Step.announces s c sp stacked)
    | inr (inr (inr (inl (sp, locks)))) ↦ (_, Step.sees s c at (v.status c (rw locks refl)))
    | inr (inr (inr (inr (sp, runs)))) ↦ absurd (ground (arith, v.unscheduled c, v.lock))
  ]

  -- Some CPU can always take a step until boot_aps is over, and then every CPU of the table but the
  -- one that boots has announced itself.
  pub boot_aps-progress :
      (s : Machine)
      → Reach percpu_kstacks ncpu me s
      → ((s.boot ≡ over) × ((c : ℕ) → c < ncpu → c ≢ me → is_up (s.ap c) ≡ true))
        ⊎ ((s' : Machine) × Step percpu_kstacks ncpu me s s')
  boot_aps-progress s r =
      let v = Reach-IsSound percpu_kstacks ncpu me s r in
      elim (BootPc-cases s.boot) [
        | inl e ↦ inl (e, λ c lt n. ground (arith, v.up c))
        | inr (inl (c, e)) ↦ inr (looks c e v)
        | inr (inr (c, e)) ↦ inr (waits c e v)
      ]
