-- ===== src/Spinlock/Exclusion.antt =====
-- Mutual exclusion of the spin lock of kern/spinlock.c, for any number of CPUs and any schedule.
use jos.Base.{ℕ, ◌≡◌, refl, sym, ◌∙◌, inl, inr, Bool-cases, Bool, true, false, some, arith}
use mathlib.Core.Bool.{false≢true}
use jos.Spinlock.{
  Pc, outside, won, inside, confirming, leaving, cleared, dead, System, names_cpu, advance_from,
  advance, spin_initlock, Reach, start, later,
}

-- From the xchg that takes the lock to the one that gives it back.
abbrev pub has_lock : Pc → Bool
has_lock won = true
has_lock inside = true
has_lock confirming = true
has_lock leaving = true
has_lock cleared = true
has_lock _ = false

-- While `lk->cpu` names the CPU.
abbrev pub is_owner : Pc → Bool
is_owner inside = true
is_owner confirming = true
is_owner leaving = true
is_owner _ = false

abbrev pub is_dead : Pc → Bool
is_dead dead = true
is_dead _ = false

pub record IsSound (s : System) : Type 0 where
  pub free : s.lock.locked ≡ false → (i : ℕ) → has_lock (s.pc i) ≡ false
  pub unique : (i j : ℕ) → has_lock (s.pc i) ≡ true → has_lock (s.pc j) ≡ true → i ≡ j
  pub owner : (i : ℕ) → is_owner (s.pc i) ≡ true → s.lock.cpu ≡ some i
  pub owned : (i : ℕ) → s.lock.cpu ≡ some i → is_owner (s.pc i) ≡ true
  pub alive : (i : ℕ) → is_dead (s.pc i) ≡ false

-- A CPU past its xchg finds the lock taken.
taken : {s : System} → IsSound s → (i : ℕ) → has_lock (s.pc i) ≡ true → s.lock.locked ≡ true
taken {s} v i h = elim (Bool-cases s.lock.locked) [
  | inl yes_locked ↦ yes_locked
  | inr open_lock ↦ absurd (false≢true (sym (v.free open_lock i) ∙ h))
]

free_after :
    (p : Pc) (c : ℕ) (s : System)
    → s.pc c ≡ p
    → IsSound s
    → (advance_from p c s).lock.locked ≡ false
    → (i : ℕ) → has_lock ((advance_from p c s).pc i) ≡ false
unfolding advance_from names_cpu
free_after outside c s e v = λ h i. grind (arith, v.free, v.unique i c, v.owned, v.owner)
free_after _ c s e v = λ h i. grind (arith, v.free, v.unique i c, v.owned, v.owner)

unique_after :
    (p : Pc) (c : ℕ) (s : System)
    → s.pc c ≡ p
    → IsSound s
    → (i j : ℕ) → has_lock ((advance_from p c s).pc i) ≡ true
    → has_lock ((advance_from p c s).pc j) ≡ true
    → i ≡ j
unfolding advance_from names_cpu
unique_after outside c s e v =
    λ i j a b. ground (arith, v.unique i j, v.unique i c, v.unique c j, taken v i, taken v j)
unique_after _ c s e v =
    λ i j a b. ground (arith, v.unique i j, v.unique i c, v.unique c j, taken v i, taken v j)

owner_after :
    (p : Pc) (c : ℕ) (s : System)
    → s.pc c ≡ p
    → IsSound s
    → (i : ℕ) → is_owner ((advance_from p c s).pc i) ≡ true
    → (advance_from p c s).lock.cpu ≡ some i
unfolding advance_from names_cpu
owner_after outside c s e v = λ i a. ground (arith, v.owner i, v.owner c, v.unique i c)
owner_after _ c s e v = λ i a. ground (arith, v.owner i, v.owner c, v.unique i c)

owned_after :
    (p : Pc) (c : ℕ) (s : System)
    → s.pc c ≡ p
    → IsSound s
    → (i : ℕ) → (advance_from p c s).lock.cpu ≡ some i
    → is_owner ((advance_from p c s).pc i) ≡ true
unfolding advance_from names_cpu
owned_after outside c s e v =
    λ i a. ground (arith, v.owned i, v.owned c, v.unique i c, v.owner c, taken v c)
owned_after _ c s e v =
    λ i a. ground (arith, v.owned i, v.owned c, v.unique i c, v.owner c, taken v c)

alive_after :
    (p : Pc) (c : ℕ) (s : System)
    → s.pc c ≡ p
    → IsSound s
    → (i : ℕ) → is_dead ((advance_from p c s).pc i) ≡ false
unfolding advance_from names_cpu
alive_after outside c s e v =
    λ i. ground (arith, v.alive i, v.alive c, v.owner c, v.owned c, taken v c)
alive_after _ c s e v = λ i. ground (arith, v.alive i, v.alive c, v.owner c, v.owned c, taken v c)

step-IsSound : (p : Pc) (c : ℕ) (s : System) → s.pc c ≡ p → IsSound s → IsSound (advance_from p c s)
step-IsSound p c s e v = record {
  free = free_after p c s e v;
  unique = unique_after p c s e v;
  owner = owner_after p c s e v;
  owned = owned_after p c s e v;
  alive = alive_after p c s e v;
}

advance-IsSound : (c : ℕ) {s : System} → IsSound s → IsSound (advance c s)
unfolding advance
advance-IsSound c {s} v = step-IsSound (s.pc c) c s refl v

Reach-IsSound : {s : System} → Reach s → IsSound s
unfolding spin_initlock
Reach-IsSound start = record {
  free = λ h i. refl;
  unique = λ i j p q. absurd (false≢true p);
  owner = λ i p. absurd (false≢true p);
  owned = λ i p. cc;
  alive = λ i. refl;
}
Reach-IsSound (later r c) = advance-IsSound c (Reach-IsSound r)

-- In every state that some interleaving of the CPUs' steps reaches, at most one CPU is between the
-- xchg that takes the lock and the one that gives it back, and no CPU has panicked.
pub mutual_exclusion :
    {s : System}
    → Reach s
    → ((i j : ℕ) → has_lock (s.pc i) ≡ true → has_lock (s.pc j) ≡ true → i ≡ j)
      × ((i : ℕ) → is_dead (s.pc i) ≡ false)
mutual_exclusion r = let v = Reach-IsSound r in (v.unique, v.alive)
