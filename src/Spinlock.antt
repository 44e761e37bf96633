-- ===== src/Spinlock.antt =====
-- kern/spinlock.c: spin_lock and spin_unlock on one lock by any number of CPUs, as interleavings of
-- the steps between which another CPU can act. The build has DEBUG_SPINLOCK; the recorded call
-- chain `pcs` is not modelled.
pub mod Exclusion
use jos.Base.{ℕ, Bool, true, false, ◌&&◌, Option, none, some, ◌==◌, if◌then◌else◌, update}

-- `locked` and `cpu` of the lock.
pub record Lock : Type 0 where
  pub locked : Bool
  pub cpu : Option ℕ

-- Where a CPU is: outside; in the test of spin_lock, between its two reads of the lock; in the loop on
-- xchg; past it, before `lk->cpu = thiscpu`; inside; in the test of spin_unlock, between its two reads;
-- past it; past `lk->cpu = 0`, before the last xchg; in panic().
pub data Pc : Type 0 where
  outside asking spinning won inside confirming leaving cleared dead : Pc

pub record System : Type 0 where
  pub lock : Lock
  pub pc : ℕ → Pc

-- __spin_initlock
unfoldable pub spin_initlock : Lock
spin_initlock = record { locked = false; cpu = none }

-- The second operand of `lock->locked && lock->cpu == thiscpu` in `holding`, which is read after the
-- first and only if that is true.
unfoldable pub names_cpu : ℕ → Lock → Bool
names_cpu c l = elim l.cpu [ none ↦ false | some d ↦ d == c ]

abbrev pub move : ℕ → Pc → Lock → System → System
move c p l s = record { lock = l; pc = update s.pc c p }

-- The next step of CPU `c`. Outside, it calls spin_lock; inside, it calls spin_unlock.
unfoldable pub advance_from : Pc → ℕ → System → System
unfolding names_cpu
advance_from outside c s = move c (if s.lock.locked then asking else spinning) s.lock s
advance_from asking c s = move c (if names_cpu c s.lock then dead else spinning) s.lock s
advance_from spinning c s =
    move c (if s.lock.locked then spinning else won) (record (s.lock) { locked = true }) s
advance_from won c s = move c inside (record (s.lock) { cpu = some c }) s
advance_from inside c s = move c (if s.lock.locked then confirming else dead) s.lock s
advance_from confirming c s = move c (if names_cpu c s.lock then leaving else dead) s.lock s
advance_from leaving c s = move c cleared (record (s.lock) { cpu = none }) s
advance_from cleared c s = move c outside (record (s.lock) { locked = false }) s
advance_from dead c s = s

unfoldable pub advance : ℕ → System → System
unfolding advance_from
advance c s = advance_from (s.pc c) c s

pub data Reach : System → Type 0 where
  start : Reach (record { lock = spin_initlock; pc = λ c. outside })
  later : {s : System} → Reach s → (c : ℕ) → Reach (advance c s)
