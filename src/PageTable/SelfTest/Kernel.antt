-- ===== src/PageTable/SelfTest/Kernel.antt =====
-- check_kern_pgdir, check_page_free_list and check_page_installed_pgdir of kern/pmap.c. The messages are
-- not modelled.
use jos.Base.{
  ℕ, zero, suc, ◌+◌, ◌-◌, ◌*◌, ◌/◌, Bool, true, false, not, ◌&&◌, ◌||◌, Option, none, some, List,
  [], ◌∷◌, ◌++◌, ltb, leb, ◌==◌, if◌then◌else◌, has, round_up, add32, sub32, update,
}
use jos.Mmu.{
  pg_size, pgnum, pdx, pte_p, pte_w, uvpt, upages, uenvs, kernbase, kstacktop, kstksize, kstkgap,
  mmiobase, iophysmem, extphysmem, mpentry_paddr,
}
use jos.Phys.{PageInfo, Action, ◌>>=◌, ◌>>◌, assert, load, store, page2pa, page_free}
use jos.Phys.SelfTest.{must_alloc, fill_page}
use jos.PageTable.{page_insert, page_remove}
use jos.PageTable.Regions.{ncpu}
use jos.PageTable.MemInit.{page_info_size, env_size}
use jos.PageTable.SelfTest.{check_va2pa, maps_to, has_refs, table_is, clear_pde, clear_refs}

-- `for (i = 0; i < n; i += PGSIZE) assert(check_va2pa(pgdir, va + i) == pa + i)`, with the rounds left.
unfoldable pub check_range : ℕ → ℕ → ℕ → ℕ → Action (Unit {0})
check_range zero d va pa s = some (tt, s)
check_range (suc n) d va pa s = elim (maps_to d va pa s) [
  | none ↦ none
  | some (_, s') ↦ check_range n d (add32 va pg_size) (add32 pa pg_size) s'
]

-- The same, for addresses that map nothing.
unfoldable pub check_gap : ℕ → ℕ → ℕ → Action (Unit {0})
check_gap zero d va s = some (tt, s)
check_gap (suc n) d va s = elim (maps_to d va 0xffff_ffff s) [
  | none ↦ none
  | some (_, s') ↦ check_gap n d (add32 va pg_size) s'
]

-- The loop over the CPUs' stacks; `stacks n` is PADDR(percpu_kstacks[n]).
unfoldable pub check_stacks : ℕ → ℕ → ℕ → (ℕ → ℕ) → Action (Unit {0})
unfolding check_range check_gap
check_stacks zero n d stacks s = some (tt, s)
check_stacks (suc left) n d stacks s =
    let base = sub32 kstacktop ((kstksize + kstkgap) * (n + 1)) in
    elim ((check_range (kstksize / pg_size) d (add32 base kstkgap) (stacks n)
        >> check_gap (kstkgap / pg_size) d base)
      s) [ none ↦ none | some (_, s') ↦ check_stacks left (n + 1) d stacks s' ]

-- The cases of the switch.
abbrev pub is_mapped_slot : ℕ → Bool
is_mapped_slot i =
    i == pdx uvpt
    || (i == pdx (kstacktop - 1) || (i == pdx upages || (i == pdx uenvs || i == pdx mmiobase)))

abbrev pub good_pde : ℕ → ℕ → Bool
good_pde i pde =
    if is_mapped_slot i
    then has pde pte_p
    else if leb (pdx kernbase) i
    then has pde pte_p && has pde pte_w
    else pde == 0

unfoldable pub good_pdes : ℕ → ℕ → (ℕ → ℕ) → Bool
good_pdes zero i dir = true
good_pdes (suc n) i dir = let rest = good_pdes n (i + 1) dir in good_pde i (dir i) && rest

unfoldable pub check_kern_pgdir : ℕ → ℕ → ℕ → (ℕ → ℕ) → Action (Unit {0})
unfolding check_stacks good_pdes
check_kern_pgdir d pages_pa envs_pa stacks s =
    (check_range (round_up (s.npages * page_info_size) pg_size / pg_size) d upages pages_pa
        >> check_range (round_up env_size pg_size / pg_size) d uenvs envs_pa
        >> check_range s.npages d kernbase 0
        >> check_stacks ncpu 0 d stacks
        >> λ t. assert (good_pdes 1024 0 (t.words d)) t)
      s

-- The free list split by address, both parts in their order: the low pages first. A loop along the
-- list has as many rounds as `n` allows.
unfoldable pub split_list : ℕ → ℕ → (ℕ → PageInfo) → Option ℕ → Option (List ℕ × List ℕ)
split_list zero limit f h = none
split_list (suc n) limit f none = some ([], [])
split_list (suc n) limit f (some p) = elim (split_list n limit f (f p).pp_link) [
  | none ↦ none
  | some (low, high) ↦
      some (if leb limit (pdx (page2pa p)) then (low, p ∷ high) else (p ∷ low, high))
]

-- The links that make the list `xs` end in `last`.
unfoldable pub link_up : List ℕ → (ℕ → PageInfo) → Option ℕ × (ℕ → PageInfo)
link_up [] f = (none, f)
link_up (p ∷ rest) f =
    let (h, g) = link_up rest f in
    (some p, update g p (record { pp_link = h; pp_ref = (g p).pp_ref }))

-- The assertions on one page of the list; `first_free` is what boot_alloc(0) returns, as a physical
-- address.
abbrev pub may_be_free : ℕ → ℕ → ℕ → Bool
may_be_free npages first_free p =
    ltb p npages
    && (not (page2pa p == 0)
        && (not (page2pa p == iophysmem)
            && (not (page2pa p == extphysmem - pg_size)
                && (not (page2pa p == extphysmem)
                    && ((ltb (page2pa p) extphysmem || leb first_free (page2pa p))
                        && not (page2pa p == mpentry_paddr))))))

-- `memset(page2kva(pp), 0x97, 128)`: the first 32 words.
abbrev pub scribble : ℕ → ℕ → (ℕ → ℕ → ℕ) → ℕ → ℕ → ℕ
scribble limit p words q i =
    if ltb (pdx (page2pa p)) limit && (q == p && ltb i 32) then 0x9797_9797 else words q i

unfoldable pub scribble_all : ℕ → List ℕ → (ℕ → ℕ → ℕ) → ℕ → ℕ → ℕ
scribble_all limit [] words = words
scribble_all limit (p ∷ rest) words = scribble_all limit rest (scribble limit p words)

-- Whether all pages of the list may be there, and how many are below and above EXTPHYSMEM.
unfoldable pub count_parts : ℕ → ℕ → List ℕ → Bool × ℕ × ℕ
count_parts npages first_free [] = (true, 0, 0)
count_parts npages first_free (p ∷ rest) =
    let (good, base, ext) = count_parts npages first_free rest in
    (
      may_be_free npages first_free p && good,
      if ltb (page2pa p) extphysmem then base + 1 else base,
      if ltb (page2pa p) extphysmem then ext else ext + 1,
    )

unfoldable pub check_page_free_list : ℕ → ℕ → Bool → Action (Unit {0})
unfolding split_list link_up count_parts scribble_all
check_page_free_list rounds first_free only_low_memory s =
    let limit = if only_low_memory then 1 else 1024 in
    elim (split_list rounds limit s.pages s.free_list) [
      | none ↦ none
      | some (low, high) ↦
          let (h, f) =
            if only_low_memory then link_up (low ++ high) s.pages else (s.free_list, s.pages) in
          let (good, base, ext) = count_parts s.npages first_free (low ++ high) in
          (assert (good && (ltb 0 base && ltb 0 ext))) (record s {
            free_list = h;
            pages = f;
            words = scribble_all limit (low ++ high) s.words;
          })
    ]

-- A load and a store through the installed tables, at an address that they map.
abbrev pub virtual_load : ℕ → ℕ → Action ℕ
virtual_load d va = check_va2pa d va >>= λ pa s. some (load (pgnum pa) 0 s, s)

abbrev pub virtual_store : ℕ → ℕ → ℕ → Action (Unit {0})
virtual_store d va w = check_va2pa d va >>= λ pa s. some (tt, store (pgnum pa) 0 w s)

unfoldable pub check_page_installed_pgdir : ℕ → Action (Unit {0})
check_page_installed_pgdir d = do
  p ← must_alloc false
  q ← must_alloc false
  r ← must_alloc false
  page_free p
  fill_page q 0x0101_0101
  fill_page r 0x0202_0202
  page_insert none d q pg_size pte_w
  has_refs q 1
  v ← virtual_load d pg_size
  assert (v == 0x0101_0101)
  page_insert none d r pg_size pte_w
  w ← virtual_load d pg_size
  assert (w == 0x0202_0202)
  has_refs r 1
  has_refs q 0
  virtual_store d pg_size 0x0303_0303
  (λ s. assert (load r 0 s == 0x0303_0303) s)
  page_remove none d pg_size
  has_refs r 0
  table_is d p
  clear_pde d 0
  has_refs p 1
  clear_refs p
  page_free p
