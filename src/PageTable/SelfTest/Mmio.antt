-- ===== src/PageTable/SelfTest/Mmio.antt =====
-- The end of check_page of kern/pmap.c: mmio_map_region. `base` is the static variable of that function.
use jos.Base.{ℕ, ◌%◌, ◌&&◌, none, some, ltb, leb, ◌==◌, true, false, bit_or, add32}
use jos.Mmu.{pg_size, pte_w, pte_u, pte_pwt, pte_pcd, mmiobase, mmiolim}
use jos.Phys.{Action, ◌>>=◌, ◌>>◌, pure, assert, store}
use jos.PageTable.{pgdir_walk}
use jos.PageTable.Regions.{mmio_map_region}
use jos.PageTable.SelfTest.{check_page_tables, maps_to, entry_has}

-- `*pgdir_walk(kern_pgdir, va, 0) = 0`
abbrev pub clear_entry : ℕ → ℕ → Action (Unit {0})
clear_entry d va =
    pgdir_walk d va false >>= λ w s. elim w [ none ↦ none | some (t, i) ↦ some (tt, store t i 0 s) ]

abbrev pub in_mmio : ℕ → Action (Unit {0})
in_mmio mm = assert (leb mmiobase mm && ltb (add32 mm 8096) mmiolim)

-- The new `base`.
unfoldable pub check_mmio : ℕ → ℕ → Action ℕ
check_mmio d base = do
  (mm1, base1) ← mmio_map_region d base 0 4097
  (mm2, base2) ← mmio_map_region d base1 0 4096
  in_mmio mm1
  in_mmio mm2
  assert (mm1 % pg_size == 0 && mm2 % pg_size == 0)
  assert (leb (add32 mm1 8096) mm2)
  maps_to d mm1 0
  maps_to d (add32 mm1 pg_size) pg_size
  maps_to d mm2 0
  maps_to d (add32 mm2 pg_size) 0xffff_ffff
  entry_has d mm1 (bit_or (bit_or pte_w pte_pwt) pte_pcd) true
  entry_has d mm1 pte_u false
  clear_entry d mm1
  clear_entry d (add32 mm1 pg_size)
  clear_entry d mm2
  pure base2

unfoldable pub check_page : ℕ → ℕ → Action ℕ
unfolding check_page_tables check_mmio
check_page d base = check_page_tables d >> check_mmio d base
