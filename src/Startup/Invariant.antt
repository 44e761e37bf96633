-- ===== src/Startup/Invariant.antt =====
-- The invariant of boot_aps and mp_main of kern/init.c.
use jos.Base.{ℕ, ◌+◌, ◌<◌, ◌≤◌, ◌≡◌, ◌≢◌, refl, Bool, true, false, Option, none, some, arith}
use jos.Kernel.CpuStatus.{cpu_started}
use jos.Startup.{
  BootPc, looking, waiting, over, ApPc, off, entering, on_stack, locking, scheduled, Machine,
  stack_top, Step, booted, Reach,
}

-- The stack that a CPU is on.
abbrev pub stack_of : ApPc → Option ℕ
stack_of off = none
stack_of entering = none
stack_of (on_stack sp) = some sp
stack_of (locking sp) = some sp
stack_of (scheduled sp) = some sp

-- A CPU that has announced itself.
abbrev pub is_up : ApPc → Bool
is_up (locking sp) = true
is_up (scheduled sp) = true
is_up _ = false

abbrev pub is_scheduled : ApPc → Bool
is_scheduled (scheduled sp) = true
is_scheduled _ = false

abbrev pub is_locking : ApPc → Bool
is_locking (locking sp) = true
is_locking _ = false

module _ (percpu_kstacks ncpu me : ℕ) where
  -- How many CPUs boot_aps has dealt with, the one it waits for included.
  abbrev pub frontier : BootPc → ℕ
  frontier (looking c) = c
  frontier (waiting c) = c + 1
  frontier over = ncpu

  pub record IsSound (s : Machine) : Type 0 where
    pub stacks : (c sp : ℕ) → stack_of (s.ap c) ≡ some sp → sp ≡ stack_top percpu_kstacks c
    pub entering_now :
        (c : ℕ)
        → s.ap c ≡ entering
        → (s.boot ≡ waiting c) × (s.mpentry_kstack ≡ stack_top percpu_kstacks c)
    pub not_yet : (c : ℕ) → frontier s.boot ≤ c → s.ap c ≡ off
    pub woken : (c : ℕ) → s.boot ≡ waiting c → s.ap c ≢ off
    pub up : (c : ℕ) → c < frontier s.boot → c ≢ me → s.boot ≢ waiting c → is_up (s.ap c) ≡ true
    pub lock : s.boot ≢ over → s.boot_locked ≡ true
    pub unscheduled : (c : ℕ) → s.boot_locked ≡ true → is_scheduled (s.ap c) ≡ false
    pub status : (c : ℕ) → is_locking (s.ap c) ≡ true → s.cpu_status c ≡ cpu_started
    pub announced : (c : ℕ) → c ≢ me → s.cpu_status c ≡ cpu_started → is_up (s.ap c) ≡ true
    pub other : (c : ℕ) → s.boot ≡ waiting c → c ≢ me
    pub bound : frontier s.boot ≤ ncpu

  booted-IsSound : IsSound (booted percpu_kstacks ncpu me)
  unfolding booted
  booted-IsSound = record {
    stacks = λ c sp e. ground arith;
    entering_now = λ c e. ground arith;
    not_yet = λ c h. refl;
    woken = λ c e. ground arith;
    up = λ c h. absurd (omega (arith, h));
    lock = λ h. refl;
    unscheduled = λ c h. refl;
    status = λ c h. ground arith;
    announced = λ c n h. ground arith;
    other = λ c h. ground arith;
    bound = omega arith;
  }

  Step-IsSound : (s s' : Machine) → Step percpu_kstacks ncpu me s s' → IsSound s → IsSound s'
  Step-IsSound s _ (Step.skips _ c at lt own) v = record {
    stacks = v.stacks;
    entering_now = λ d e. ground (arith, v.entering_now d e);
    not_yet = λ d h. ground (arith, v.not_yet d);
    woken = λ d e. ground arith;
    up = λ d h n w. ground (arith, v.up d);
    lock = λ h. ground (arith, v.lock);
    unscheduled = v.unscheduled;
    status = v.status;
    announced = v.announced;
    other = λ d h. ground arith;
    bound = ground (arith, v.bound);
  }
  Step-IsSound s _ (Step.starts _ c at lt other) v = record {
    stacks = λ d sp e. ground (arith, v.stacks d sp, v.not_yet c);
    entering_now = λ d e. ground (arith, v.entering_now d, v.not_yet c);
    not_yet = λ d h. ground (arith, v.not_yet d);
    woken = λ d e. ground (arith, v.not_yet d);
    up = λ d h n w. ground (arith, v.up d);
    lock = λ h. ground (arith, v.lock);
    unscheduled = λ d h. ground (arith, v.unscheduled d, v.not_yet c);
    status = λ d h. ground (arith, v.status d, v.not_yet c);
    announced = λ d n h. ground (arith, v.announced d, v.not_yet c);
    other = λ d h. ground arith;
    bound = ground (arith, v.bound);
  }
  Step-IsSound s _ (Step.sees _ c at started) v = record {
    stacks = v.stacks;
    entering_now = λ d e. ground (arith, v.entering_now d e, v.announced c (v.other c at) started);
    not_yet = λ d h. ground (arith, v.not_yet d);
    woken = λ d e. ground arith;
    up = λ d h n w. ground (arith, v.up d, v.announced c (v.other c at) started);
    lock = λ h. ground (arith, v.lock);
    unscheduled = v.unscheduled;
    status = v.status;
    announced = v.announced;
    other = λ d h. ground arith;
    bound = ground (arith, v.bound);
  }
  Step-IsSound s _ (Step.finishes _ at) v = record {
    stacks = v.stacks;
    entering_now = λ d e. ground (arith, v.entering_now d);
    not_yet = λ d h. ground (arith, v.not_yet d);
    woken = λ d e. ground arith;
    up = λ d h n w. ground (arith, v.up d);
    lock = λ h. ground arith;
    unscheduled = λ d h. ground arith;
    status = v.status;
    announced = v.announced;
    other = λ d h. ground arith;
    bound = ground (arith, v.bound);
  }
  Step-IsSound s _ (Step.loads _ c at) v = record {
    stacks = λ d sp e. ground (arith, v.stacks d sp, v.entering_now c at);
    entering_now = λ d e. ground (arith, v.entering_now d);
    not_yet = λ d h. ground (arith, v.not_yet d);
    woken = λ d e. ground (arith, v.woken d);
    up = λ d h n w. ground (arith, v.up d);
    lock = v.lock;
    unscheduled = λ d h. ground (arith, v.unscheduled d);
    status = λ d h. ground (arith, v.status d);
    announced = λ d n h. ground (arith, v.announced d, v.announced c);
    other = v.other;
    bound = v.bound;
  }
  Step-IsSound s _ (Step.announces _ c sp at) v = record {
    stacks = λ d q e. ground (arith, v.stacks d q, v.stacks c sp);
    entering_now = λ d e. ground (arith, v.entering_now d);
    not_yet = λ d h. ground (arith, v.not_yet d);
    woken = λ d e. ground (arith, v.woken d);
    up = λ d h n w. ground (arith, v.up d);
    lock = v.lock;
    unscheduled = λ d h. ground (arith, v.unscheduled d);
    status = λ d h. ground (arith, v.status d);
    announced = λ d n h. ground (arith, v.announced d, v.announced c);
    other = v.other;
    bound = v.bound;
  }
  Step-IsSound s _ (Step.schedules _ c sp halts at open_lock) v = record {
    stacks = λ d q e. ground (arith, v.stacks d q, v.stacks c sp);
    entering_now = λ d e. ground (arith, v.entering_now d);
    not_yet = λ d h. ground (arith, v.not_yet d);
    woken = λ d e. ground (arith, v.woken d);
    up = λ d h n w. ground (arith, v.up d);
    lock = v.lock;
    unscheduled = λ d h. ground arith;
    status = λ d h. ground (arith, v.status d);
    announced = λ d n h. ground (arith, v.announced d, v.announced c);
    other = v.other;
    bound = v.bound;
  }

  pub Reach-IsSound : (s : Machine) → Reach percpu_kstacks ncpu me s → IsSound s
  Reach-IsSound _ Reach.start = booted-IsSound
  Reach-IsSound _ (Reach.later s s' r t) = Step-IsSound s s' t (Reach-IsSound s r)
