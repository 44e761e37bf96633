-- ===== src/Descriptor/Stacks.antt =====
-- The kernel stacks that traps use are those that mem_init_mp of kern/pmap.c maps.
use jos.Base.{ℕ, zero, suc, ◌+◌, ◌≤◌, ◌≡◌, refl, none, some, sub32, bit_or, ap, ◌∙◌, Option, arith}
use jos.Mmu.{kstksize, kstkgap, pte_w, pte_p}
use jos.Phys.{Phys, Action}
use jos.PageTable.Regions.{boot_map_region, map_stacks, mem_init_mp, ncpu}
use jos.Descriptor.{esp0_of}

-- For each CPU from `i` on, the KSTKSIZE bytes below its ESP0, mapped at its own stack.
unfoldable pub map_below : ℕ → ℕ → ℕ → (ℕ → ℕ) → Action (Unit {0})
map_below zero i d stacks s = some (tt, s)
map_below (suc n) i d stacks s =
    elim (boot_map_region d (sub32 (esp0_of i) kstksize) kstksize (stacks i) (bit_or pte_w pte_p)
      s) [ none ↦ none | some (_, s') ↦ map_below n (i + 1) d stacks s' ]

map_stacks-below :
    (n i d : ℕ) (stacks : ℕ → ℕ) (s : Phys)
    → i + n ≤ 8
    → map_stacks n i d stacks (sub32 (esp0_of i) kstksize) s ≡ map_below n i d stacks s
unfolding map_stacks map_below
map_stacks-below zero i d stacks s le = refl
map_stacks-below (suc n) i d stacks s le =
    let next : sub32 (sub32 (esp0_of i) kstksize) (kstksize + kstkgap)
        ≡ sub32 (esp0_of (i + 1)) kstksize =
      omega (arith, le) in
    let step : (s' : Phys)
        → map_stacks n (i + 1) d stacks (sub32 (sub32 (esp0_of i) kstksize) (kstksize + kstkgap)) s'
          ≡ map_below n (i + 1) d stacks s' =
      λ s'.
        ap (λ (a : ℕ). map_stacks n (i + 1) d stacks a s') next
        ∙ map_stacks-below n (i + 1) d stacks s' (omega (arith, le)) in
    same_rest
      (boot_map_region d (sub32 (esp0_of i) kstksize) kstksize (stacks i) (bit_or pte_w pte_p) s)
      step
  where
    same_rest :
        {f g : Phys → Option (Unit {0} × Phys)} (r : Option (Unit {0} × Phys))
        → ((s' : Phys) → f s' ≡ g s')
        → elim r as (λ x. Option (Unit {0} × Phys)) [ none ↦ none | some (_, s') ↦ f s' ]
          ≡ elim r as (λ x. Option (Unit {0} × Phys)) [ none ↦ none | some (_, s') ↦ g s' ]
    same_rest none h = refl
    same_rest (some (_, s')) h = h s'

-- The regions that mem_init_mp maps are, CPU by CPU, the KSTKSIZE bytes below the stack pointer that
-- trap_init_percpu gives the CPU for its traps, each at the CPU's own stack.
pub mem_init_mp-below :
    (d : ℕ) (stacks : ℕ → ℕ) (s : Phys) → mem_init_mp d stacks s ≡ map_below ncpu 0 d stacks s
unfolding mem_init_mp
mem_init_mp-below d stacks s = map_stacks-below 8 0 d stacks s (omega arith)
