-- ===== src/Device/Clock.antt =====
-- kern/kclock.c: the NVRAM of the clock. `inb` is what a port answers after the writes.
use jos.Base.{ℕ, ◌+◌, ◌%◌, List, [], ◌∷◌}
use jos.Device.{Io, outb}

abbrev pub io_rtc : ℕ
io_rtc = 0x70

-- The port takes a byte.
unfoldable pub mc146818_read : (List Io → ℕ → ℕ) → ℕ → List Io × ℕ
mc146818_read inb reg =
    let written = outb io_rtc (reg % 256) ∷ [] in (written, inb written (io_rtc + 1))

unfoldable pub mc146818_write : ℕ → ℕ → List Io
mc146818_write reg datum = outb io_rtc (reg % 256) ∷ outb (io_rtc + 1) (datum % 256) ∷ []
