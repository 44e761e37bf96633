-- ===== src/User/Fork/Cow.antt =====
-- duppage of lib/fork.c on a page that can be written, or is copy-on-write already.
use jos.Base.{
  ℕ, ◌+◌, ◌*◌, ◌/◌, ◌%◌, ◌<◌, ◌≡◌, ◌≢◌, inl, refl, ap, sym, ◌∙◌, true, false, ◌||◌, Option, some,
  has, bit_or, bit_or-high, bit_or-halves, bit_or-zero, arith,
}
use jos.Mmu.{pdx, ptx, pte_p, pte_w}
use jos.Phys.{Phys}
use jos.PageTable.Walk.{pde_of, pte_of}
use jos.PageTable.Map.{
  HasTable, table, Maps, new_pte, page_lookup-entry, page_insert-fresh, page_insert-same,
}
use jos.Kernel.{Kernel, ok, run_ok, cur_dir}
use jos.Env.{found, envid2env}
use jos.Syscall.Isolation.{envid2env_self}
use jos.Syscall.Memory.{bad_va}
use jos.Syscall.Memory.Mapped.{sys_page_map_lem}
use jos.User.Fork.{pte_cow, done, dir_of, duppage, uvpt}

-- The flags PTE_COW | PTE_U | PTE_P.
abbrev pub cow : ℕ
cow = 0x805

-- Two directories that share neither a page table for the address nor a page of their own.
pub record AreApart (s : Phys) (d e va : ℕ) : Type 0 where
  pub dirs : d ≢ e
  pub tables : table s d va ≢ table s e va
  pub left : table s d va ≢ e
  pub right : table s e va ≢ d

-- page_insert in one directory does not touch the other.
module _ {s t : Phys} {d e va pp : ℕ} (apart : AreApart s d e va) (ht : HasTable s d va)
    (he : HasTable s e va) {cur : Option (Option ℕ)} {fits : cow < 4096}
    (maps : Maps he cur pp cow fits t) where
  other-pde : pde_of t d va ≡ pde_of s d va
  other-pde = maps.only_here d (pdx va) apart.dirs (inl (λ q. apart.right (sym q)))

  other-pte : pte_of t d va ≡ pte_of s d va
  other-pte =
      ap (λ (w : ℕ). t.words (w / 4096) (ptx va)) other-pde
      ∙ maps.only_here (table s d va) (ptx va) apart.left (inl apart.tables)

  apart_later : AreApart t e d va
  apart_later = record {
    dirs = λ q. apart.dirs (sym q);
    tables = λ q. apart.tables (sym (sym maps.same_table ∙ q ∙ ap (λ (w : ℕ). w / 4096) other-pde));
    left = λ q. apart.right (sym maps.same_table ∙ q);
    right = λ q. apart.left (sym (ap (λ (w : ℕ). w / 4096) other-pde) ∙ q);
  }

  other-HasTable : HasTable t d va
  other-HasTable = record {
    present = ap (λ (w : ℕ). has w pte_p) other-pde ∙ ht.present;
    in_range = omega (arith, other-pde, maps.memory, ht.in_range);
    apart = λ q. ht.apart (sym (ap (λ (w : ℕ). w / 4096) other-pde) ∙ q);
  }

cow-new_pte : (p : ℕ) → new_pte p cow ≡ p * 4096 + cow
cow-new_pte p =
    let low : bit_or (p * 4096) cow ≡ p * 4096 + cow = bit_or-high 12 p cow (omega arith) in
    rw low (omega (arith, bit_or-halves (p * 4096 + cow) 1, bit_or-zero ((p * 4096 + cow) / 2)))

module _ (k : Kernel) (c d e2 d2 envid : ℕ) (cur : k.curenv ≡ some c)
    (dir : (k.envs c).env_pgdir ≡ some d) (dir2 : (k.envs e2).env_pgdir ≡ some d2)
    (target : envid2env envid true k ≡ ok (found (some e2)) k) where
  -- What uvpt reads is the caller's entry.
  uvpt-pte_of : (pn : ℕ) → pn < 0x10_0000 → uvpt k pn ≡ pte_of k.phys d (pn * 4096)
  uvpt-pte_of pn lt =
      let dir_is : dir_of k ≡ d = rw (cur, dir) refl in
      let index : pn / 1024 ≡ pdx (pn * 4096) = omega arith in
      let entry : pn % 1024 ≡ ptx (pn * 4096) = omega arith in
      ap (λ (q : ℕ). k.phys.words (k.phys.words q (pn / 1024) / 4096) (pn % 1024)) dir_is
      ∙ ap (λ (i : ℕ). k.phys.words (k.phys.words d i / 4096) (pn % 1024)) index
      ∙ ap (λ (i : ℕ). k.phys.words (pde_of k.phys d (pn * 4096) / 4096) i) entry

  -- duppage of the page `pn`, which is mapped in the caller with PTE_W or PTE_COW, to an environment
  -- that envid2env finds for the caller. The page tables for the page are there in both directories,
  -- which are apart, nothing is mapped there in the child, the address is below UTOP, and the page's
  -- count is neither 0 nor above 2 ^ 16 - 2. duppage succeeds; afterwards both entries map that page
  -- with the flags PTE_COW | PTE_U | PTE_P and so without PTE_W, and its count has gone up by one.
  pub duppage-cow :
      (pn : ℕ)
      → bad_va (pn * 4096) ≡ false
      → HasTable k.phys d (pn * 4096)
      → HasTable k.phys d2 (pn * 4096)
      → AreApart k.phys d d2 (pn * 4096)
      → pte_of k.phys d (pn * 4096) / 4096 < k.phys.npages
      → has (pte_of k.phys d (pn * 4096)) pte_p ≡ true
      → (has (pte_of k.phys d (pn * 4096)) pte_w || has (pte_of k.phys d (pn * 4096)) pte_cow)
        ≡ true
      → has (pte_of k.phys d2 (pn * 4096)) pte_p ≡ false
      → 0 < (k.phys.pages (pte_of k.phys d (pn * 4096) / 4096)).pp_ref
      → (k.phys.pages (pte_of k.phys d (pn * 4096) / 4096)).pp_ref < 0xffff
      → (k' : Kernel) × (duppage envid pn k ≡ ok done k')
        × (pte_of k'.phys d (pn * 4096) ≡ pte_of k.phys d (pn * 4096) / 4096 * 4096 + cow)
        × (pte_of k'.phys d2 (pn * 4096) ≡ pte_of k.phys d (pn * 4096) / 4096 * 4096 + cow)
        × ((k'.phys.pages (pte_of k.phys d (pn * 4096) / 4096)).pp_ref
            ≡ (k.phys.pages (pte_of k.phys d (pn * 4096) / 4096)).pp_ref + 1)
  unfolding duppage
  duppage-cow pn ok_va hd he apart in_range present shared fresh pos lt =
      let addr = pn * 4096 in
      let p = pte_of k.phys d addr / 4096 in
      let (t, in_child, maps, count, _) =
        page_insert-fresh he (cur_dir k) p cow (omega arith) fresh in
      let k1 = record k { phys = t } in
      let child =
        sys_page_map_lem k c d cur dir e2 d2 dir2 t p addr addr cow refl in_child envid _ _ target
          ok_va ok_va refl (page_lookup-entry hd in_range) in
      let hd1 = other-HasTable apart hd he maps in
      let kept = other-pte apart hd he maps in
      let frame : pte_of t d addr / 4096 ≡ p = ap (λ (w : ℕ). w / 4096) kept in
      let counted : (t.pages (pte_of t d addr / 4096)).pp_ref ≡ (k.phys.pages p).pp_ref + 1 =
        ap (λ q. (t.pages q).pp_ref) frame ∙ count ∙ omega (arith, lt) in
      let (u, in_parent, maps', count', _) =
        page_insert-same hd1 (cur_dir k1) (pte_of t d addr / 4096) cow (omega arith)
          (ap (λ (w : ℕ). has w pte_p) kept ∙ present) refl (omega (arith, counted))
          (omega (arith, counted, lt)) in
      let parent =
        sys_page_map_lem k1 c d cur dir c d dir u (pte_of t d addr / 4096) addr addr cow refl
          in_parent 0 _ _ (envid2env_self k1 true ∙ ap (λ e. ok (found e) k1) cur) ok_va ok_va refl
          (page_lookup-entry hd1 (omega (arith, frame, maps.memory, in_range))) in
      let test = uvpt-pte_of pn (ground arith) in
      let both : (has (uvpt k pn) pte_w || has (uvpt k pn) pte_cow) ≡ true =
        ap (λ (w : ℕ). has w pte_w || has w pte_cow) test ∙ shared in
      (
        record k { phys = u },
        rw both (run_ok _ (run_ok _ child) ∙ run_ok _ parent),
        maps'.entry ∙ ap (λ q. new_pte q cow) frame ∙ cow-new_pte p,
        other-pte (apart_later apart hd he maps) maps.has_table hd1 maps'
            ∙ maps.entry
            ∙ cow-new_pte p,
        sym (ap (λ q. (u.pages q).pp_ref) frame) ∙ count' ∙ counted,
      )
