-- ===== src/PageTable/Insert.antt =====
-- page_insert of kern/pmap.c at an address that maps nothing, with the `create` branch of pgdir_walk.
use jos.Base.{
  ℕ, ◌+◌, ◌*◌, ◌%◌, ◌^◌, ◌<◌, ◌≡◌, ◌≢◌, ◌⊎◌, false, Option, some, List, NotIn, has, bit_or,
}
use jos.Mmu.{pdx, ptx, pte_p, pte_w, pte_u}
use jos.Errors.{ret}
use jos.Phys.{Phys, add_ref, store}
use jos.Phys.FreeList.{IsFreeList, Chain-same, unused-same}
use jos.PageTable.{page_insert}
use jos.PageTable.Walk.{pde_of, pte_of}
use jos.PageTable.Map.{HasTable, table, new_pte, Maps}

-- The free list does not see what page_insert does to a page outside it.
pub inserted-IsFreeList :
    {t u : Phys} {p : ℕ} {xs : List ℕ}
    → NotIn p xs
    → ((q : ℕ) → q ≢ p → u.pages q ≡ t.pages q)
    → u.free_list ≡ t.free_list
    → u.npages ≡ t.npages
    → IsFreeList t xs
    → IsFreeList u xs
inserted-IsFreeList {t} {u} {p} {xs} out same head size free = record {
  chain = rw head (Chain-same p same t.free_list xs out free.chain);
  distinct = free.distinct;
  unused = rw size (unused-same p same t.npages xs out free.unused);
}

-- The directory entry of a new page table on page `q`.
abbrev table_pde : ℕ → ℕ
table_pde q = bit_or (bit_or (bit_or (q * 4096) pte_u) pte_w) pte_p

-- The state in which pgdir_walk leaves a new page table on page `q`, which page_alloc hands out in `u`.
module _ (u : Phys) (d va q : ℕ) where
  abbrev with_table : Phys
  with_table = store d (pdx va) (table_pde q) (add_ref q u)

-- No page is mapped at the address: its page table is there, and the entry is not present, or there is
-- no page table.
abbrev pub IsUnmapped : Phys → ℕ → ℕ → Type 0
IsUnmapped s d va =
    (HasTable s d va × (has (pte_of s d va) pte_p ≡ false)) ⊎ (has (pde_of s d va) pte_p ≡ false)

module _ (s : Phys) (cur : Option (Option ℕ)) (d va pp perm : ℕ) (fits : perm < 4096) where
  -- page_insert with the page table there: only the entry, the flags of the directory entry and the
  -- count of the page change.
  pub record Inserted (t : Phys) : Type 0 where
    pub has_table : HasTable s d va
    pub result : page_insert cur d pp va perm s ≡ some (ret 0, t)
    pub maps : Maps has_table cur pp perm fits t
    pub count : (t.pages pp).pp_ref ≡ ((s.pages pp).pp_ref + 1) % 2 ^ 16
    pub free : t.free_list ≡ s.free_list

  -- page_insert with a new page table on page `q`, after which the free pages are `rest`.
  pub record Created (q : ℕ) (rest : List ℕ) (t : Phys) : Type 0 where
    pub absent : has (pde_of s d va) pte_p ≡ false
    pub result : page_insert cur d pp va perm s ≡ some (ret 0, t)
    pub has_table : HasTable t d va
    pub on_page : table t d va ≡ q
    pub entry : pte_of t d va ≡ new_pte pp perm
    pub empty : (i : ℕ) → i ≢ ptx va → t.words q i ≡ 0
    pub dir : (i : ℕ) → i ≢ pdx va → t.words d i ≡ s.words d i
    pub other_words : (r i : ℕ) → r ≢ d → r ≢ q → t.words r i ≡ s.words r i
    pub table_count : (t.pages q).pp_ref ≡ 1
    pub count : (t.pages pp).pp_ref ≡ ((s.pages pp).pp_ref + 1) % 2 ^ 16
    pub other_pages : (r : ℕ) → r ≢ q → r ≢ pp → t.pages r ≡ s.pages r
    pub free : IsFreeList t rest
