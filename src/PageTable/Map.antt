-- ===== src/PageTable/Map.antt =====
-- page_insert, page_lookup and page_remove of kern/pmap.c at an address whose page table is there.
use jos.Base.{
  ℕ, ◌+◌, ◌*◌, ◌/◌, ◌%◌, ◌^◌, ◌<◌, ◌≡◌, ◌≢◌, ◌⊎◌, inl, inr, refl, ap, sym, ◌∙◌, true, false, Option,
  some, has, bit_or, eq→==, bit_and-one, bit_or-frame, bit_or-flags, arith,
}
use jos.Mmu.{pdx, ptx, pte_p}
use jos.Errors.{ret}
use jos.Phys.{Phys, page_decref, bind_ok, drop_ref, store}
use jos.Phys.Alloc.{pa2page-page}
use jos.PageTable.{page_lookup, page_insert, page_remove, unmap_old, write_entry, tlb_invalidate}
use jos.PageTable.Walk.{pde_of, pte_of, walk_present}

-- The entry that page_insert writes.
abbrev pub new_pte : ℕ → ℕ → ℕ
new_pte pp perm = bit_or (bit_or (pp * 4096) perm) 1

new_pte-frame : (pp perm : ℕ) → perm < 4096 → new_pte pp perm / 4096 ≡ pp
new_pte-frame pp perm h =
    omega (
      arith,
      bit_or-frame (bit_or (pp * 4096) perm) 1 (omega arith),
      bit_or-frame (pp * 4096) perm h,
    )

pub has_or_present : (w perm : ℕ) → has w pte_p ≡ true → has (bit_or w perm) pte_p ≡ true
has_or_present w perm h =
    ground (arith, bit_and-one w, bit_and-one (bit_or w perm), (bit_or-flags w perm).0)

-- Only the record of flushed addresses changes.
pub tlb_words :
    (cur : Option (Option ℕ)) (d va : ℕ) (s : Phys) → (tlb_invalidate cur d va s).words ≡ s.words
unfolding tlb_invalidate
tlb_words cur d va s = ground arith

pub tlb_pages :
    (cur : Option (Option ℕ)) (d va : ℕ) (s : Phys) → (tlb_invalidate cur d va s).pages ≡ s.pages
unfolding tlb_invalidate
tlb_pages cur d va s = ground arith

pub tlb_npages :
    (cur : Option (Option ℕ)) (d va : ℕ) (s : Phys) → (tlb_invalidate cur d va s).npages ≡ s.npages
unfolding tlb_invalidate
tlb_npages cur d va s = ground arith

pub tlb_free :
    (cur : Option (Option ℕ)) (d va : ℕ) (s : Phys)
    → (tlb_invalidate cur d va s).free_list ≡ s.free_list
unfolding tlb_invalidate
tlb_free cur d va s = ground arith

module _ (s : Phys) (d va : ℕ) where
  abbrev pub table : ℕ
  table = pde_of s d va / 4096

  -- The page table is present, lies in memory and is not the directory itself.
  pub record HasTable : Type 0 where
    pub present : has (pde_of s d va) pte_p ≡ true
    pub in_range : table < s.npages
    pub apart : table ≢ d

module _ {s : Phys} {d va : ℕ} (ht : HasTable s d va) where
  -- page_lookup finds a page exactly as the entry says, present or not.
  pub page_lookup-entry :
      pte_of s d va / 4096 < s.npages
      → page_lookup d va s ≡ some (some (pte_of s d va / 4096, table s d va, ptx va), s)
  unfolding page_lookup
  page_lookup-entry lt =
      bind_ok _ (walk_present s d va false ht.present ht.in_range)
      ∙ bind_ok _ (pa2page-page (pte_of s d va / 4096) s lt)

  module _ (cur : Option (Option ℕ)) (pp perm : ℕ) (fits : perm < 4096) where
    abbrev pub written : Phys → Phys
    written u = write_entry d pp va perm (table s d va) (ptx va) u

    insert_walked :
        (u : Phys)
        → unmap_old cur d pp va (pte_of s d va) s ≡ some (tt, u)
        → page_insert cur d pp va perm s ≡ some (ret 0, written u)
    unfolding page_insert
    insert_walked u e = bind_ok _ (walk_present s d va true ht.present ht.in_range) ∙ bind_ok _ e

    -- An entry that is not present is simply written.
    pub insert_fresh :
        has (pte_of s d va) pte_p ≡ false → page_insert cur d pp va perm s ≡ some (ret 0, written s)
    insert_fresh e = insert_walked s (unfold unmap_old in rw e)

    written-pde :
        (u : Phys) → u.words ≡ s.words → pde_of (written u) d va ≡ bit_or (pde_of s d va) perm
    written-pde u e =
        let at_dir : u.words d (pdx va) ≡ pde_of s d va = ap (λ w. w d (pdx va)) e in
        ground (arith, ht.apart, at_dir)

    written-pte : (u : Phys) → u.words ≡ s.words → pte_of (written u) d va ≡ new_pte pp perm
    written-pte u e =
        let frame : pde_of (written u) d va / 4096 ≡ table s d va =
          ap (λ (w : ℕ). w / 4096) (written-pde u e) ∙ bit_or-frame (pde_of s d va) perm fits in
        ap (λ (t : ℕ). (written u).words t (ptx va)) frame ∙ ground (arith, ht.apart)

    written-table : (u : Phys) → u.words ≡ s.words → table (written u) d va ≡ table s d va
    written-table u e =
        ap (λ (w : ℕ). w / 4096) (written-pde u e) ∙ bit_or-frame (pde_of s d va) perm fits

    -- The new entry leads back to the page.
    written-HasTable :
        (u : Phys) → u.words ≡ s.words → u.npages ≡ s.npages → HasTable (written u) d va
    written-HasTable u e n =
        let pde = written-pde u e in
        let frame = written-table u e in
        record {
          present = rw pde (has_or_present (pde_of s d va) perm ht.present);
          in_range = omega (arith, frame, n, ht.in_range);
          apart = λ q. ht.apart (sym frame ∙ q);
        }

    -- What page_insert promises of its result `t`.
    pub record Maps (t : Phys) : Type 0 where
      pub has_table : HasTable t d va
      pub memory : t.npages ≡ s.npages
      pub same_table : table t d va ≡ table s d va
      pub entry : pte_of t d va ≡ new_pte pp perm
      pub page : pte_of t d va / 4096 ≡ pp
      pub only_here :
          (q i : ℕ) → q ≢ d → (q ≢ table s d va) ⊎ (i ≢ ptx va) → t.words q i ≡ s.words q i
      pub dir_flags : (i : ℕ) → i ≢ pdx va → t.words d i ≡ s.words d i
      pub others : (q : ℕ) → q ≢ pp → t.pages q ≡ s.pages q

    written-Maps :
        (u : Phys)
        → u.words ≡ s.words
        → u.npages ≡ s.npages
        → ((q : ℕ) → q ≢ pp → u.pages q ≡ s.pages q)
        → Maps (written u)
    written-Maps u e n o = record {
      has_table = written-HasTable u e n;
      memory = n;
      same_table = written-table u e;
      entry = written-pte u e;
      page = ap (λ (w : ℕ). w / 4096) (written-pte u e) ∙ new_pte-frame pp perm fits;
      only_here = λ q i nd h.
          let same : u.words q i ≡ s.words q i = ap (λ w. w q i) e in
          elim h [ inl a ↦ ground arith | inr b ↦ ground arith ];
      dir_flags = λ i h.
          let same : u.words d i ≡ s.words d i = ap (λ w. w d i) e in ground (arith, ht.apart);
      others = λ q h. ground (arith, o q h);
    }

    -- page_insert where the page table is there, in memory and not the directory, the entry is not
    -- present, and `perm` is below 4096: it succeeds; the address then maps the page with the
    -- flags `perm`; no word changes but the entry and, in its flags, the directory entry; the
    -- page's count goes up by one, modulo 2 ^ 16, and no other count and no list changes.
    pub page_insert-fresh :
        has (pte_of s d va) pte_p ≡ false
        → (t : Phys) × (page_insert cur d pp va perm s ≡ some (ret 0, t))
          × Maps t
          × ((t.pages pp).pp_ref ≡ ((s.pages pp).pp_ref + 1) % 2 ^ 16)
          × (t.free_list ≡ s.free_list)
    page_insert-fresh e =
        (written s, insert_fresh e, written-Maps s refl refl (λ q h. refl), ground arith, refl)

    -- page_insert, under the same conditions on the page table and `perm`, of the page that is
    -- already mapped there, with a count of at least 1: the flags change, and the count and the
    -- free list do not.
    pub page_insert-same :
        has (pte_of s d va) pte_p ≡ true
        → pte_of s d va / 4096 ≡ pp
        → 0 < (s.pages pp).pp_ref
        → (s.pages pp).pp_ref < 2 ^ 16
        → (t : Phys) × (page_insert cur d pp va perm s ≡ some (ret 0, t))
          × Maps t
          × ((t.pages pp).pp_ref ≡ (s.pages pp).pp_ref)
          × (t.free_list ≡ s.free_list)
    page_insert-same e f pos lt = (
      written kept,
      insert_walked kept (unfold unmap_old in rw (e, eq→== _ _ (ap (λ (w : ℕ). w * 4096) f)) refl),
      written-Maps kept (tlb_words cur d va s) (tlb_npages cur d va s)
          (λ q h. ground (arith, ap (λ g. g q) (tlb_pages cur d va s))),
      ground (arith, ap (λ g. (g pp).pp_ref) (tlb_pages cur d va s)),
      tlb_free cur d va s,
    )
      where
        kept : Phys
        kept = drop_ref pp (tlb_invalidate cur d va s)

-- The rest of this file: page_remove.
module _ {s : Phys} {d va : ℕ} (ht : HasTable s d va) (cur : Option (Option ℕ)) where
  abbrev pub removed : Phys → Phys
  removed t = tlb_invalidate cur d va (store (table s d va) (ptx va) 0 t)

  pub page_remove-entry :
      {t : Phys}
      → pte_of s d va / 4096 < s.npages
      → page_decref (pte_of s d va / 4096) s ≡ some (tt, t)
      → page_remove cur d va s ≡ some (tt, removed t)
  unfolding page_remove
  page_remove-entry lt e = bind_ok _ (page_lookup-entry ht lt) ∙ bind_ok _ e
