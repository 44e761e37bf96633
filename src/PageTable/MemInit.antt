-- ===== src/PageTable/MemInit.antt =====
-- mem_init of kern/pmap.c: the first memory of the kernel and its page directory. The arrays `pages`
-- and `envs` are given their addresses; what they hold is not in the words of physical memory here.
-- Its calls of the self-tests, which panic or do nothing, are left out; they are in SelfTest.
use jos.Base.{
  ℕ, ◌-◌, ◌*◌, ◌%◌, ◌==◌, true, false, [], Option, none, some, bit_and, bit_or, sub32, word,
}
use jos.Mmu.{
  pg_size, pt_size, pgnum, pdx, pte_p, pte_w, pte_u, uvpt, upages, uenvs, kernbase, kstacktop,
  kstksize,
}
use jos.Phys.{Phys, Action, ◌>>◌, store}
use jos.Phys.Boot.{i386_detect_memory, boot_alloc, page_init}
use jos.PageTable.Regions.{boot_map_region, mem_init_mp}

-- What mem_init leaves: physical memory, `kern_pgdir` as a page, the addresses of `pages` and `envs`,
-- and the registers CR3 and CR0.
pub record KernelMemory : Type 0 where
  pub phys : Phys
  pub kern_pgdir : ℕ
  pub pages_at : ℕ
  pub envs_at : ℕ
  pub cr3 : ℕ
  pub cr0 : ℕ

-- sizeof(struct PageInfo), and sizeof(struct Env) * NENV
abbrev pub page_info_size : ℕ
page_info_size = 8

abbrev pub env_size : ℕ
env_size = 124 * 1024

-- PADDR, for an address above KERNBASE
abbrev pub paddr : ℕ → ℕ
paddr kva = sub32 kva kernbase

-- Memory with nothing mapped and no page on the list, but the directory mapped into itself.
unfoldable pub with_directory : ℕ → ℕ → (ℕ → ℕ → ℕ) → Phys
with_directory npages d words =
    store d (pdx uvpt) (bit_or (bit_or (d * pg_size) pte_u) pte_p) (record {
      npages = npages;
      pages = λ p. record { pp_link = none; pp_ref = 0 };
      free_list = none;
      words = λ q i. elim (q == d) [ true ↦ 0 | false ↦ words q i ];
      flushed = [];
    })

-- The static mappings of the kernel. `bootstack` and `stacks` are physical addresses.
unfoldable pub map_kernel : ℕ → ℕ → ℕ → ℕ → ℕ → (ℕ → ℕ) → Action (Unit {0})
unfolding boot_map_region mem_init_mp
map_kernel d size pages_pa envs_pa bootstack stacks =
    boot_map_region d upages size pages_pa (bit_or pte_u pte_p)
    >> boot_map_region d uenvs pt_size envs_pa pte_u
    >> boot_map_region d (kstacktop - kstksize) kstksize bootstack (bit_or pte_w pte_p)
    >> boot_map_region d kernbase (0xffff_ffff - kernbase) 0 (bit_or pte_w pte_p)
    >> mem_init_mp d stacks

-- CR0_PE|CR0_PG|CR0_AM|CR0_WP|CR0_NE|CR0_MP are set, CR0_TS|CR0_EM are cleared.
abbrev pub set_flags : ℕ → ℕ
set_flags cr0 = let w = bit_or cr0 0x8005_0023 in w - bit_and w 0xC

-- The three calls of boot_alloc, from the end of the kernel's image: the directory, `pages`, `envs`,
-- and what boot_alloc(0) returns after them.
unfoldable pub first_memory : ℕ → ℕ → Option (ℕ × ℕ × ℕ × ℕ)
unfolding boot_alloc
first_memory kernel_end npages = elim (boot_alloc kernel_end npages 0 pg_size) [
  | none ↦ none
  | some (pgdir, next1) ↦
      elim (boot_alloc kernel_end npages next1 (page_info_size * npages % word)) [
        | none ↦ none
        | some (pages_at, next2) ↦ elim (boot_alloc kernel_end npages next2 env_size) [
          | none ↦ none
          | some (envs_at, next3) ↦ some (pgdir, pages_at, envs_at, next3)
        ]
      ]
]

unfoldable pub mem_init : (ℕ → ℕ) → ℕ → ℕ → (ℕ → ℕ) → ℕ → (ℕ → ℕ → ℕ) → Option KernelMemory
unfolding with_directory map_kernel first_memory
mem_init cmos kernel_end bootstack stacks cr0 words =
    let (npages, base) = i386_detect_memory cmos in
    elim (first_memory kernel_end npages) [
      | none ↦ none
      | some (pgdir, pages_at, envs_at, nextfree) ↦
          let d = pgnum (paddr pgdir) in
          let s = page_init base nextfree (with_directory npages d words) in
          elim (map_kernel d (page_info_size * npages % word) (paddr pages_at) (paddr envs_at)
            bootstack stacks s) [
              | none ↦ none
              | some (_, s') ↦ some (record {
                phys = s';
                kern_pgdir = d;
                pages_at = pages_at;
                envs_at = envs_at;
                cr3 = d;
                cr0 = set_flags cr0;
              })
            ]
    ]
