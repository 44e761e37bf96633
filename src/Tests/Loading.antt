-- ===== src/Tests/Loading.antt =====
-- Examples for the boot loader and the entry page table.
use jos.Base.{ℕ, ◌+◌, ◌-◌, ◌/◌, ◌%◌, ◌^◌, ◌≤◌, ◌<◌, ◌≡◌, refl, false, true, some, none, arith}
use jos.Mmu.{kernbase}
use jos.Boot.{selected, readseg}
use jos.Boot.Segment.{readseg-loads}
use jos.Entry.{entry_pgdir, entry_words, translate}
use jos.Entry.Translate.{translate-entry}

-- A drive whose bytes are the sums of what selects them.
abbrev drive : ℕ → ℕ → ℕ
drive registers j = registers + j

readseg-loads_example :
    (mem' : ℕ → ℕ) × (readseg drive 0x10_0010 1000 0x1010 (λ a. 0) ≡ some mem')
    × ((j : ℕ)
        → j < 1000
        → mem' (0x10_0010 + j) ≡ drive (selected ((0x1010 + j) / 512 + 1)) ((0x1010 + j) % 512))
    × ((a : ℕ) → a < 0x10_0000 → mem' a ≡ 0)
    × ((a : ℕ) → 0x10_0010 + 1000 + 511 ≤ a → mem' a ≡ 0)
readseg-loads_example =
    readseg-loads drive 0x10_0010 1000 0x1010 (λ a. 0) (omega arith) (omega arith) refl

translate-entry_example :
    (0x1234 < 2 ^ 22 → translate (entry_words 274) (entry_pgdir 274) 0x1234 ≡ some (0x1234, false))
    × (kernbase ≤ 0x1234
        → 0x1234 < kernbase + 2 ^ 22
        → translate (entry_words 274) (entry_pgdir 274) 0x1234 ≡ some (0x1234 - kernbase, true))
    × (2 ^ 22 ≤ 0x1234
        → 0x1234 < kernbase
        → translate (entry_words 274) (entry_pgdir 274) 0x1234 ≡ none)
    × (kernbase + 2 ^ 22 ≤ 0x1234 → translate (entry_words 274) (entry_pgdir 274) 0x1234 ≡ none)
translate-entry_example = translate-entry 274 0x1234 (omega arith)
