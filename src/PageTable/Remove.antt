-- ===== src/PageTable/Remove.antt =====
-- page_decref and page_remove of kern/pmap.c: counts, the free list and the cleared entry.
use jos.Base.{
  ℕ, ◌+◌, ◌/◌, ◌^◌, ◌<◌, ◌≡◌, refl, ap, ◌∙◌, Option, none, some, List, true, ◌∷◌, NotIn, ◌==◌,
  arith,
}
use mathlib.Core.Path.{subst}
use jos.Mmu.{pdx, ptx}
use jos.Phys.{Phys, page_decref, drop_ref, store}
use jos.Phys.FreeList.{IsFreeList, IsFreeList-same, Chain-update, unused-update}
use jos.Phys.Alloc.{freed, page_free-freed, freed-IsFreeList}
use jos.PageTable.{page_remove}
use jos.PageTable.Walk.{pde_of, pte_of}
use jos.PageTable.Map.{
  HasTable, table, removed, page_remove-entry, tlb_words, tlb_pages, tlb_npages, tlb_free,
}

module _ (s : Phys) (p : ℕ) where
  decref_keep :
      1 < (s.pages p).pp_ref
      → (s.pages p).pp_ref < 2 ^ 16
      → page_decref p s ≡ some (tt, drop_ref p s)
  unfolding page_decref
  decref_keep more lt = ground arith

  decref_last :
      (s.pages p).pp_ref ≡ 1
      → (s.pages p).pp_link ≡ none
      → page_decref p s ≡ some (tt, freed p (drop_ref p s))
  unfolding page_decref
  decref_last one link =
      let zero_now : (((drop_ref p s).pages p).pp_ref == 0) ≡ true = ground arith in
      rw zero_now (page_free-freed p (drop_ref p s) (ground arith) (ground arith))

  drop_ref-IsFreeList : {xs : List ℕ} → IsFreeList s xs → NotIn p xs → IsFreeList (drop_ref p s) xs
  drop_ref-IsFreeList {xs} free out = record {
    chain = Chain-update s.pages p _ s.free_list xs out free.chain;
    distinct = free.distinct;
    unused = unused-update s.pages p _ s.npages xs out free.unused;
  }

module _ {s : Phys} {d va : ℕ} (ht : HasTable s d va) (cur : Option (Option ℕ)) where
  abbrev pub old_page : ℕ
  old_page = pte_of s d va / 4096

  abbrev wiped : Phys → Phys
  wiped t = store (table s d va) (ptx va) 0 t

  -- Clearing the entry keeps the free list, and leaves the entry 0.
  removed-IsFreeList : {t : Phys} {xs : List ℕ} → IsFreeList t xs → IsFreeList (removed ht cur t) xs
  removed-IsFreeList {t} {xs} free =
      IsFreeList-same {s = wiped t} (tlb_pages cur d va (wiped t)) (tlb_free cur d va (wiped t))
        (tlb_npages cur d va (wiped t))
        (record { chain = free.chain; distinct = free.distinct; unused = free.unused })

  removed-entry : (t : Phys) → t.words ≡ s.words → pte_of (removed ht cur t) d va ≡ 0
  removed-entry t same =
      let at_dir : t.words d (pdx va) ≡ pde_of s d va = ap (λ w. w d (pdx va)) same in
      let dir : (wiped t).words d (pdx va) ≡ pde_of s d va = ground (arith, ht.apart) in
      ap (λ w. w (w d (pdx va) / 4096) (ptx va)) (tlb_words cur d va (wiped t))
      ∙ ap (λ (e : ℕ). (wiped t).words (e / 4096) (ptx va)) dir
      ∙ ground arith

  -- page_remove where the page table is there and the entry names a page of memory, not free, with
  -- 2 to 65535 references: the count goes down by one, the entry is 0, and the free list is what
  -- it was.
  pub page_remove-shared :
      {xs : List ℕ}
      → IsFreeList s xs
      → NotIn old_page xs
      → old_page < s.npages
      → 1 < (s.pages old_page).pp_ref
      → (s.pages old_page).pp_ref < 2 ^ 16
      → (t : Phys) × (page_remove cur d va s ≡ some (tt, t))
        × IsFreeList t xs
        × ((t.pages old_page).pp_ref + 1 ≡ (s.pages old_page).pp_ref)
        × (pte_of t d va ≡ 0)
  page_remove-shared free out lt more small = (
    removed ht cur (drop_ref old_page s),
    page_remove-entry ht cur lt (decref_keep s old_page more small),
    removed-IsFreeList (drop_ref-IsFreeList s old_page free out),
    ground
        (arith, ap (λ g. (g old_page).pp_ref) (tlb_pages cur d va (wiped (drop_ref old_page s)))),
    removed-entry _ refl,
  )

  -- page_remove where the page table is there and the entry names a page of memory, not free and
  -- not linked, with one reference: the page goes to the head of the free list, and the entry is
  -- 0.
  pub page_remove-last :
      {xs : List ℕ}
      → IsFreeList s xs
      → NotIn old_page xs
      → old_page < s.npages
      → (s.pages old_page).pp_ref ≡ 1
      → (s.pages old_page).pp_link ≡ none
      → (t : Phys) × (page_remove cur d va s ≡ some (tt, t))
        × IsFreeList t (old_page ∷ xs)
        × (pte_of t d va ≡ 0)
  page_remove-last free out lt one link = (
    removed ht cur (freed old_page (drop_ref old_page s)),
    page_remove-entry ht cur lt (decref_last s old_page one link),
    removed-IsFreeList
        (freed-IsFreeList (drop_ref-IsFreeList s old_page free out) old_page out lt (ground arith)),
    removed-entry _ refl,
  )

  -- page_remove at an address whose page table is there and whose entry is 0: it takes page 0 for
  -- the mapped page, and where page 0 has the count 1 that page_init gives it, puts it on the free
  -- list.
  pub page_remove-unmapped :
      {xs : List ℕ}
      → IsFreeList s xs
      → NotIn 0 xs
      → 0 < s.npages
      → pte_of s d va ≡ 0
      → s.pages 0 ≡ record { pp_link = none; pp_ref = 1 }
      → (t : Phys) × (page_remove cur d va s ≡ some (tt, t)) × IsFreeList t (0 ∷ xs)
  page_remove-unmapped {xs} free out pos empty first =
      let zeroth : old_page ≡ 0 = omega (arith, empty) in
      let (t, e, l, _) =
        page_remove-last (free) (rw zeroth out) (rw zeroth pos) (rw (zeroth, first) refl)
          (rw (zeroth, first) refl) in
      (t, e, subst (λ (q : ℕ). IsFreeList t (q ∷ xs)) zeroth l)
