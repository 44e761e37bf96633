-- ===== src/PageTable/Walk.antt =====
-- What pgdir_walk, page_lookup and the directory tell of an address.
use jos.Base.{ℕ, ◌/◌, ◌<◌, ◌≡◌, Bool, true, false, none, some, has}
use jos.Mmu.{pdx, ptx, pte_p}
use jos.Phys.{Phys, bind_ok}
use jos.Phys.Alloc.{kaddr-page}
use jos.PageTable.{pgdir_walk}

-- Each present entry of the directory names a page of memory.
abbrev pub IsDir : Phys → ℕ → Type 0
IsDir s d = (n : ℕ) → has (s.words d n) pte_p ≡ true → s.words d n / 4096 < s.npages

abbrev pub pde_of : Phys → ℕ → ℕ → ℕ
pde_of s d va = s.words d (pdx va)

-- The entry for an address whose page table is there.
abbrev pub pte_of : Phys → ℕ → ℕ → ℕ
pte_of s d va = s.words (pde_of s d va / 4096) (ptx va)

pub walk_present :
    (s : Phys) (d va : ℕ) (create : Bool)
    → has (pde_of s d va) pte_p ≡ true
    → pde_of s d va / 4096 < s.npages
    → pgdir_walk d va create s ≡ some (some (pde_of s d va / 4096, ptx va), s)
unfolding pgdir_walk
walk_present s d va create p lt = rw p (bind_ok _ (kaddr-page (pde_of s d va / 4096) s lt))

pub walk_absent :
    (s : Phys) (d va : ℕ)
    → has (pde_of s d va) pte_p ≡ false
    → pgdir_walk d va false s ≡ some (none, s)
unfolding pgdir_walk
walk_absent s d va p = rw p
