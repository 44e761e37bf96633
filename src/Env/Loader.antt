-- ===== src/Env/Loader.antt =====
-- The ELF loader of kern/env.c: region_alloc, load_icode and env_create. The image is its bytes;
-- `put_bytes` stands for the processor's stores at a virtual address through the directory that is
-- loaded.
use jos.Base.{
  ℕ, zero, suc, ◌+◌, ◌-◌, ◌/◌, false, Option, none, some, List, not, ◌==◌, if◌then◌else◌, replicate,
  bytes, add32, sub32, round_down, round_up,
}
use jos.Elf.{
  elf_magic, e_magic, e_entry, e_phoff, e_phnum, proghdr_size, p_type, p_offset, p_va, p_filesz,
  p_memsz, elf_prog_load,
}
use jos.Mmu.{pg_size, pte_w, pte_u, ustacktop}
use jos.Errors.{Ret, ret, fail}
use jos.Phys.{Phys, Action, page_alloc}
use jos.PageTable.{page_insert}
use jos.Kernel.{M, ok, panic, ◌>>=◌, ◌>>◌, pure, modify, on_phys, cur_dir, set_env}
use jos.Env.{env_alloc}

module _ (cur : Option (Option ℕ)) (pgdir : ℕ) where
  -- Where page_insert fails, region_alloc panics.
  abbrev pub or_panic : Option (Ret × Phys) → Option (Unit {0} × Phys)
  or_panic none = none
  or_panic (some (fail err, s)) = none
  or_panic (some (ret n, s)) = if n == 0 then some (tt, s) else none

  -- The rounds of region_alloc that are left.
  unfoldable pub alloc_pages : ℕ → ℕ → Action (Unit {0})
  alloc_pages zero begin s = some (tt, s)
  alloc_pages (suc n) begin s = elim (page_alloc false s) [
    | none ↦ none
    | some (none, s') ↦ none
    | some (some p, s') ↦ elim (or_panic (page_insert cur pgdir p begin (pte_w + pte_u) s')) [
      | none ↦ none
      | some (_, s'') ↦ alloc_pages n (add32 begin pg_size) s''
    ]
  ]

  -- Both ends are multiples of the page size.
  unfoldable pub region_alloc : ℕ → ℕ → Action (Unit {0})
  unfolding alloc_pages
  region_alloc va len =
      let begin = round_down va pg_size in
      let end = round_up (add32 va len) pg_size in alloc_pages ((end - begin) / pg_size) begin

module _ (put_bytes : ℕ → List ℕ → Phys → Phys) (binary : ℕ → ℕ) where
  -- One program header, at `ph` in the image.
  unfoldable pub load_segment : ℕ → ℕ → M (Unit {0})
  unfolding region_alloc
  load_segment pgdir ph k =
      if p_type binary ph == elf_prog_load
      then (on_phys (region_alloc (cur_dir k) pgdir (p_va binary ph) (p_memsz binary ph))
            >> modify (λ k'. record k' {
              phys =
                  put_bytes (add32 (p_va binary ph) (p_filesz binary ph))
                    (replicate (sub32 (p_memsz binary ph) (p_filesz binary ph)) 0)
                    (put_bytes (p_va binary ph)
                      (bytes binary (p_offset binary ph) (p_filesz binary ph)) k'.phys);
            }))
          k
      else ok tt k

  -- The headers that are left.
  unfoldable pub load_segments : ℕ → ℕ → ℕ → M (Unit {0})
  unfolding load_segment
  load_segments pgdir zero ph = pure tt
  load_segments pgdir (suc n) ph =
      load_segment pgdir ph >> load_segments pgdir n (ph + proghdr_size)

  unfoldable pub load_into : ℕ → ℕ → M (Unit {0})
  unfolding load_segments region_alloc
  load_into e pgdir = do
    modify (λ k. record k { cr3 = pgdir })
    load_segments pgdir (e_phnum binary 0) (e_phoff binary 0)
    modify (λ k.
        set_env e
          (record (k.envs e) { env_tf = record (k.envs e).env_tf { tf_eip = e_entry binary 0 } }) k)
    modify (λ k. record k { cr3 = k.kern_pgdir })
    λ k. on_phys (region_alloc (cur_dir k) pgdir (ustacktop - pg_size) pg_size) k

  unfoldable pub load_icode : ℕ → M (Unit {0})
  unfolding load_into
  load_icode e k =
      if not (e_magic binary 0 == elf_magic)
      then panic
      else elim (k.envs e).env_pgdir [ none ↦ panic | some d ↦ load_into e d k ]

  -- What env_create does with the answer of env_alloc.
  unfoldable pub load_new : ℕ → Ret × Option ℕ → M (Unit {0})
  unfolding load_icode
  load_new type (ret zero, some e) = do
    load_icode e
    modify (λ k. set_env e (record (k.envs e) { env_type = type }) k)
  load_new type _ = λ k. panic

  unfoldable pub env_create : ℕ → M (Unit {0})
  unfolding load_new
  env_create type = env_alloc 0 >>= load_new type
