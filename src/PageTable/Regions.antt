-- ===== src/PageTable/Regions.antt =====
-- boot_map_region, mem_init_mp and mmio_map_region of kern/pmap.c: static mappings, which leave the
-- reference counts of the mapped pages alone.
use jos.Base.{
  ℕ, zero, suc, ◌+◌, ◌*◌, true, Option, none, some, add32, sub32, round_up, ltb, if◌then◌else◌,
  bit_or,
}
use jos.Mmu.{pg_size, pgnum, pte_p, pte_w, pte_pwt, pte_pcd, kstacktop, kstksize, kstkgap, mmiolim}
use jos.Phys.{Action, ◌>>=◌, ◌>>◌, pure, store}
use jos.PageTable.{pgdir_walk}

-- `*pgtable_entry_ptr = entry`; the write through NULL is a fault.
unfoldable pub write_walked : Option (ℕ × ℕ) → ℕ → Action (Unit {0})
write_walked none entry s = none
write_walked (some (t, i)) entry s = some (tt, store t i entry s)

-- The rounds `i .. i + n` of the loop.
unfoldable pub map_pages : ℕ → ℕ → ℕ → ℕ → ℕ → ℕ → Action (Unit {0})
unfolding write_walked
map_pages zero i pgdir va pa perm s = some (tt, s)
map_pages (suc n) i pgdir va pa perm s =
    elim ((do
      w ← pgdir_walk pgdir (add32 va (i * pg_size)) true
      write_walked w (bit_or (bit_or (add32 pa (i * pg_size)) perm) pte_p))
      s) [ none ↦ none | some (_, s') ↦ map_pages n (i + 1) pgdir va pa perm s' ]

unfoldable pub boot_map_region : ℕ → ℕ → ℕ → ℕ → ℕ → Action (Unit {0})
boot_map_region pgdir va size pa perm = map_pages (pgnum (round_up size pg_size)) 0 pgdir va pa perm

-- The loop of mem_init_mp over the CPUs; `stacks i` is PADDR(percpu_kstacks[i]).
unfoldable pub map_stacks : ℕ → ℕ → ℕ → (ℕ → ℕ) → ℕ → Action (Unit {0})
map_stacks zero i kern_pgdir stacks kstacktop_i s = some (tt, s)
map_stacks (suc n) i kern_pgdir stacks kstacktop_i s =
    elim (boot_map_region kern_pgdir kstacktop_i kstksize (stacks i) (bit_or pte_w pte_p) s) [
      | none ↦ none
      | some (_, s') ↦
          map_stacks n (i + 1) kern_pgdir stacks (sub32 kstacktop_i (kstksize + kstkgap)) s'
    ]

abbrev pub ncpu : ℕ
ncpu = 8

unfoldable pub mem_init_mp : ℕ → (ℕ → ℕ) → Action (Unit {0})
unfolding map_stacks
mem_init_mp kern_pgdir stacks = map_stacks ncpu 0 kern_pgdir stacks (sub32 kstacktop kstksize)

-- `base` is the static variable: the result holds the address returned and the new `base`.
unfoldable pub mmio_map_region : ℕ → ℕ → ℕ → ℕ → Action (ℕ × ℕ)
mmio_map_region kern_pgdir base pa size =
    let mmio_size = round_up size pg_size in
    if ltb mmiolim (add32 base mmio_size)
    then (λ s. none)
    else (boot_map_region kern_pgdir base mmio_size pa (bit_or (bit_or pte_pcd pte_pwt) pte_w)
        >> pure (base, add32 base mmio_size))
