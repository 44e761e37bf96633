-- ===== src/Device/Pic.antt =====
-- kern/picirq.c: the two 8259A interrupt controllers.
use jos.Base.{
  ℕ, zero, suc, ◌+◌, ◌/◌, ◌%◌, ◌^◌, Bool, true, false, not, List, [], ◌∷◌, ◌++◌, ◌==◌,
  if◌then◌else◌,
}
use jos.Device.{Io, outb}

abbrev pub io_pic1 : ℕ
io_pic1 = 0x20

abbrev pub io_pic2 : ℕ
io_pic2 = 0xA0

abbrev pub irq_slave : ℕ
irq_slave = 2

abbrev pub irq_offset : ℕ
irq_offset = 32

-- `irq_mask_8259A` and `didinit`
pub record Pic : Type 0 where
  pub irq_mask_8259a : ℕ
  pub didinit : Bool

-- `0xFFFF & ~(1<<IRQ_SLAVE)`
unfoldable pub pic_at_start : Pic
pic_at_start = record { irq_mask_8259a = 0xfffb; didinit = false }

-- The numbers that the loop prints, with `n` rounds left.
unfoldable pub enabled_from : ℕ → ℕ → ℕ → List ℕ
enabled_from zero i mask = []
enabled_from (suc n) i mask =
    let rest = enabled_from n (i + 1) mask in if mask / 2 ^ i % 2 == 0 then i ∷ rest else rest

-- The state, the writes, and the interrupts that are printed as enabled.
unfoldable pub irq_setmask_8259a : ℕ → Pic → Pic × List Io × List ℕ
unfolding enabled_from
irq_setmask_8259a mask s0 =
    let s = record s0 { irq_mask_8259a = mask } in
    if not s.didinit then (s, [], []) else (
      s,
      outb (io_pic1 + 1) (mask % 256) ∷ outb (io_pic2 + 1) (mask / 256 % 256) ∷ [],
      enabled_from 16 0 mask,
    )

-- What pic_init writes before it sets the mask.
unfoldable pub set_up : List Io
set_up =
    outb (io_pic1 + 1) 0xFF
    ∷ outb (io_pic2 + 1) 0xFF
    ∷ outb io_pic1 0x11
    ∷ outb (io_pic1 + 1) irq_offset
    ∷ outb (io_pic1 + 1) (2 ^ irq_slave)
    ∷ outb (io_pic1 + 1) 0x3
    ∷ outb io_pic2 0x11
    ∷ outb (io_pic2 + 1) (irq_offset + 8)
    ∷ outb (io_pic2 + 1) irq_slave
    ∷ outb (io_pic2 + 1) 0x01
    ∷ outb io_pic1 0x68
    ∷ outb io_pic1 0x0a
    ∷ outb io_pic2 0x68
    ∷ outb io_pic2 0x0a
    ∷ []

unfoldable pub pic_init : Pic → Pic × List Io × List ℕ
unfolding irq_setmask_8259a set_up
pic_init s0 =
    let s = record s0 { didinit = true } in
    if s.irq_mask_8259a == 0xFFFF
    then (s, set_up, [])
    else (let (s', writes, printed) = irq_setmask_8259a s.irq_mask_8259a s in
        (s', set_up ++ writes, printed))
