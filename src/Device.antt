-- ===== src/Device.antt =====
-- Port and memory-mapped I/O of kern/: what each function writes, in order. What a device answers is
-- a parameter.
pub mod Lapic
pub mod Pic
pub mod Clock
use jos.Base.{ℕ, Option, none, some, List, [], ◌∷◌, ◌==◌, if◌then◌else◌}

-- `outb(port, value)`; `lapic[index] = value`; a store to a 16-bit word at a physical address; the
-- call mmio_map_region(pa, size).
pub data Io : Type 0 where
  outb lapic_write store16 map_region : ℕ → ℕ → Io

-- The values written to a port, in order.
abbrev pub out_values : ℕ → List Io → List ℕ
out_values port [] = []
out_values port (outb p v ∷ rest) =
    let others = out_values port rest in if p == port then v ∷ others else others
out_values port (_ ∷ rest) = out_values port rest
