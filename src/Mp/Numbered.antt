-- ===== src/Mp/Numbered.antt =====
-- The processors that mp_init takes.
use jos.Base.{
  ℕ, zero, suc, ◌+◌, ◌≤◌, ◌<◌, ◌≡◌, inl, inr, true, Option, none, some, Bool-cases, leb, ◌==◌,
  read16, read32, arith,
}
use jos.Mp.{PhysMemory, Mp, add_processor, read_entries, mpconfig, settle_on, mp_init}

-- At most eight CPUs, each with its own index as its id; CPU 0 has the id 0 in any case, and the boot
-- CPU is one of the eight or the place behind them.
pub record Numbered (s : Mp) : Type 0 where
  pub few : s.ncpu ≤ 8
  pub own_id : (i : ℕ) → i < s.ncpu → s.cpu_id i ≡ i
  pub first : s.cpu_id 0 ≡ 0
  pub boot : s.bootcpu ≤ 8

add_processor-Numbered :
    (p : ℕ) (m : PhysMemory) (s : Mp) → Numbered s → Numbered (add_processor p m s)
unfolding add_processor
add_processor-Numbered p m s h = record {
  few = ground (arith, h.few);
  own_id = λ i l. ground (arith, h.own_id i);
  first = ground (arith, h.first);
  boot = ground (arith, h.few, h.boot);
}

read_entries-Numbered :
    (n p : ℕ) (m : PhysMemory) (s : Mp) → Numbered s → Numbered (read_entries n p m s)
unfolding read_entries
read_entries-Numbered zero p m s h = h
read_entries-Numbered (suc n) p m s h = elim (Bool-cases (m.byte p == 0)) [
  | inl processor ↦
      rw (read_entries, processor)
        (read_entries-Numbered n (p + 20) m (add_processor p m s) (add_processor-Numbered p m s h))
  | inr other ↦ elim (Bool-cases (leb (m.byte p) 4)) [
    | inl known ↦ rw (read_entries, other, known) (read_entries-Numbered n (p + 8) m s h)
    | inr unknown ↦
        rw (read_entries, other, unknown)
          (record { few = h.few; own_id = h.own_id; first = h.first; boot = h.boot })
  ]
]

-- A predicate on a result that is there.
abbrev pub Returns : (Mp → Type 0) → Option Mp → Type 0
Returns P none = Unit
Returns P (some s) = P s

settle_on-Numbered : (m : PhysMemory) (mp : ℕ) (s : Mp) → Numbered s → Numbered (settle_on m mp s)
settle_on-Numbered m mp s h = elim (Bool-cases s.ismp) [
  | inl several ↦ rw several (elim (Bool-cases (m.byte (mp + 12) == 0)) [
    | inl off ↦ rw off (record { few = h.few; own_id = h.own_id; first = h.first; boot = h.boot })
    | inr on ↦ rw on (record { few = h.few; own_id = h.own_id; first = h.first; boot = h.boot })
  ])
  | inr one ↦ rw one (record {
    few = omega arith;
    own_id = λ i l. (let zeroth : i ≡ 0 = omega arith in rw zeroth h.first);
    first = h.first;
    boot = h.boot;
  })
]

-- Whatever the memory holds: from no CPU, or from CPUs that are numbered so already, when mp_init
-- returns there are at most eight CPUs, each with its own index as its id, CPU 0 has the id 0, and
-- the boot CPU has an index of at most 8.
pub mp_init-Numbered : (m : PhysMemory) (s : Mp) → Numbered s → Returns Numbered (mp_init m s)
unfolding mp_init
mp_init-Numbered m s h =
    let none_yet : Numbered (record s { bootcpu = 0 }) = record {
      few = h.few;
      own_id = h.own_id;
      first = h.first;
      boot = omega arith;
    } in
    elim (mpconfig m)
      as (λ t. Returns Numbered (elim t [
        | none ↦ none
        | some none ↦ some (record s { bootcpu = 0 })
        | some (some (conf, mp)) ↦ some (
            settle_on m mp (
              read_entries (read16 m.byte (conf + 34)) (conf + 44) m
                (record s { bootcpu = 0; ismp = true; lapicaddr = read32 m.byte (conf + 36) })))
      ])) [
        | none ↦ tt
        | some none ↦ none_yet
        | some (some (conf, mp)) ↦ settle_on-Numbered m mp _ (
            read_entries-Numbered (read16 m.byte (conf + 34)) (conf + 44) m _
              (record { few = h.few; own_id = h.own_id; first = h.first; boot = omega arith }))
      ]
