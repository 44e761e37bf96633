-- ===== src/Env/Free.antt =====
-- env_free of kern/env.c, here free_env.
use jos.Base.{ℕ, zero, suc, ◌+◌, Option, none, some, if◌then◌else◌, update, has}
use jos.Mmu.{pdx, pgaddr, pte_addr, pte_p, utop}
use jos.Phys.{Phys, Action, page2pa, page_decref, pa2page, kaddr, store}
use jos.PageTable.{page_remove}
use jos.Kernel.{env_free, panic, M, ◌>>◌, modify, on_phys, cur_dir, set_env}
use jos.Env.{is_cur}

-- The loops of env_free, with `n` rounds left.
module _ (cur : Option (Option ℕ)) where
  unfoldable pub unmap_table : ℕ → ℕ → ℕ → ℕ → ℕ → Phys → Option Phys
  unmap_table zero pteno pgdir pdeno t s = some s
  unmap_table (suc n) pteno pgdir pdeno t s =
      elim (if has (s.words t pteno) pte_p
        then page_remove cur pgdir (pgaddr pdeno pteno 0) s
        else some (tt, s)) [
          | none ↦ none
          | some (_, s') ↦ unmap_table n (pteno + 1) pgdir pdeno t s'
        ]

  -- One present page table: its mappings, its directory entry, its page.
  unfoldable pub drop_table : ℕ → ℕ → Phys → Option Phys
  unfolding unmap_table page_decref pa2page kaddr
  drop_table pgdir pdeno s0 =
      let pa = pte_addr (s0.words pgdir pdeno) in
      elim (kaddr pa s0) [
        | none ↦ none
        | some (t, s) ↦ elim (unmap_table 1024 0 pgdir pdeno t s) [
          | none ↦ none
          | some s1 ↦ elim (pa2page pa (store pgdir pdeno 0 s1)) [
            | none ↦ none
            | some (p, s2) ↦ elim (page_decref p s2) [ none ↦ none | some (_, s3) ↦ some s3 ]
          ]
        ]
      ]

  unfoldable pub unmap_tables : ℕ → ℕ → ℕ → Phys → Option Phys
  unfolding drop_table
  unmap_tables zero pdeno pgdir s = some s
  unmap_tables (suc n) pdeno pgdir s =
      elim (if has (s.words pgdir pdeno) pte_p then drop_table pgdir pdeno s else some s) [
        | none ↦ none
        | some s' ↦ unmap_tables n (pdeno + 1) pgdir s'
      ]

  -- The user part of the address space, then the page directory itself.
  unfoldable pub free_memory : ℕ → Action (Unit {0})
  unfolding unmap_tables page_decref
  free_memory pgdir s = elim (unmap_tables (pdx utop) 0 pgdir s) [
    | none ↦ none
    | some s1 ↦ elim (pa2page (page2pa pgdir) s1) [ none ↦ none | some (p, s2) ↦ page_decref p s2 ]
  ]

-- `k` is the state with the kernel's page directory loaded, if `e` is `curenv`.
unfoldable pub release_memory : ℕ → M (Unit {0})
unfolding free_memory
release_memory e k = elim (k.envs e).env_pgdir [
  | none ↦ panic
  | some d ↦
      (on_phys (free_memory (cur_dir k) d)
          >> modify (λ k'. set_env e (record (k'.envs e) { env_pgdir = none }) k'))
        k
]

unfoldable pub free_env : ℕ → M (Unit {0})
unfolding release_memory
free_env e = do
  modify (λ k. if is_cur k e then record k { cr3 = k.kern_pgdir } else k)
  release_memory e
  modify (λ k. record k {
    envs =
        update k.envs e (record (k.envs e) { env_status = env_free; env_link = k.env_free_list });
    env_free_list = some e;
  })
