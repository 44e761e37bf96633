-- ===== src/PageTable/UserMem.antt =====
-- user_mem_check of kern/pmap.c. Its result is the address that it leaves in `user_mem_check_addr`
-- where it returns -E_FAULT, and `none` where it returns 0.
pub mod Range
use jos.Base.{
  ℕ, zero, suc, ◌+◌, ◌-◌, ◌/◌, Bool, true, false, not, ◌||◌, Option, none, some, add32, round_up,
  round_down, ltb, leb, ◌==◌, if◌then◌else◌, has, bit_and,
}
use jos.Mmu.{pg_size, pte_p, ulim}
use jos.Phys.{Phys, Action, load}
use jos.PageTable.{pgdir_walk}

-- `pte == NULL || i >= ULIM || (*pte & PTE_P) == 0 || (*pte & perm) != perm`
unfoldable pub is_denied : Option (ℕ × ℕ) → ℕ → ℕ → Phys → Bool
is_denied none i perm s = true
is_denied (some (t, k)) i perm s =
    leb ulim i || not (has (load t k s) pte_p) || not (bit_and (load t k s) perm == perm)

-- One round, after the walk: the error, or the rounds that are left.
abbrev pub check_page :
    ℕ → ℕ → ℕ → Action (Option ℕ) → Option (Option (ℕ × ℕ) × Phys) → Option (Option ℕ × Phys)
check_page i va perm rest none = none
check_page i va perm rest (some (pte, s)) =
    if is_denied pte i perm s then some (some (if ltb i va then va else i), s) else rest s

-- The loop over the page addresses from `i` on, for the rounds that are left.
unfoldable pub check_pages : ℕ → ℕ → ℕ → ℕ → ℕ → Action (Option ℕ)
check_pages zero i pgdir va perm s = some (none, s)
check_pages (suc n) i pgdir va perm s =
    check_page i va perm (check_pages n (i + 4096) pgdir va perm) (pgdir_walk pgdir i false s)

-- Both ends are multiples of the page size, so `for (i = begin; i < end; i += PGSIZE)` makes
-- `(end - begin) / PGSIZE` rounds, none if `end <= begin`.
unfoldable pub user_mem_check : ℕ → ℕ → ℕ → ℕ → Action (Option ℕ)
user_mem_check pgdir va len perm =
    let begin = round_down va pg_size in
    let end = round_up (add32 va len) pg_size in
    check_pages ((end - begin) / 4096) begin pgdir va perm
