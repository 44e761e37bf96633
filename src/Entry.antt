-- ===== src/Entry.antt =====
-- kern/entrypgdir.c: the page directory and the page table with which kern/entry.S turns paging on,
-- and what the processor makes of them. `table_page` is the number of the page that has the table.
pub mod Translate
use jos.Base.{
  ℕ, ◌+◌, ◌*◌, ◌/◌, ◌%◌, ◌^◌, Bool, true, false, Option, none, some, ◌&&◌, not, ltb, ◌==◌,
  if◌then◌else◌, has, bit_or,
}
use jos.Mmu.{pte_p, pte_w, pdx, ptx, kernbase}

-- Entry `i` is `i << 12 | PTE_P | PTE_W`.
unfoldable pub entry_pgtable : ℕ → ℕ
entry_pgtable i = if ltb i 1024 then bit_or (bit_or (i * 4096) pte_p) pte_w else 0

unfoldable pub entry_pgdir : ℕ → ℕ → ℕ
entry_pgdir table_page i =
    if i == 0
    then table_page * 4096 + pte_p
    else if i == kernbase / 2 ^ 22
    then table_page * 4096 + pte_p + pte_w
    else 0

-- The physical address of `va` under a directory, with memory as the words of each page, and whether
-- it may be written; none where there is a fault.
unfoldable pub translate : (ℕ → ℕ → ℕ) → (ℕ → ℕ) → ℕ → Option (ℕ × Bool)
translate words dir va =
    let pde = dir (pdx va) in
    let pte = words (pde / 4096) (ptx va) in
    if has pde pte_p && has pte pte_p
    then some (pte / 4096 * 4096 + va % 4096, has pde pte_w && has pte pte_w)
    else none

-- Memory with the table in its page.
abbrev pub entry_words : ℕ → ℕ → ℕ → ℕ
entry_words table_page q i = if q == table_page then entry_pgtable i else 0
