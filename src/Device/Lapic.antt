-- ===== src/Device/Lapic.antt =====
-- kern/lapic.c: the local APIC. Its registers are read through parameters.
pub mod Target
use jos.Base.{
  ℕ, ◌+◌, ◌*◌, ◌/◌, ◌%◌, ◌^◌, Bool, true, false, List, [], ◌∷◌, ◌++◌, ◌==◌, leb, bit_or, has,
  if◌then◌else◌,
}
use jos.Device.{Io, outb, lapic_write, store16, map_region}
use jos.Device.Clock.{io_rtc}
use jos.Device.Pic.{irq_offset}

-- The registers, as indices of words.
abbrev pub tpr : ℕ
tpr = 0x0080 / 4

abbrev pub eoi : ℕ
eoi = 0x00B0 / 4

abbrev pub svr : ℕ
svr = 0x00F0 / 4

abbrev pub esr : ℕ
esr = 0x0280 / 4

abbrev pub icrlo : ℕ
icrlo = 0x0300 / 4

abbrev pub icrhi : ℕ
icrhi = 0x0310 / 4

abbrev pub timer : ℕ
timer = 0x0320 / 4

abbrev pub pcint : ℕ
pcint = 0x0340 / 4

abbrev pub lint0 : ℕ
lint0 = 0x0350 / 4

abbrev pub lint1 : ℕ
lint1 = 0x0360 / 4

abbrev pub error : ℕ
error = 0x0370 / 4

abbrev pub ticr : ℕ
ticr = 0x0380 / 4

abbrev pub tdcr : ℕ
tdcr = 0x03E0 / 4

-- Their bits.
abbrev pub enable : ℕ
enable = 0x100

abbrev pub init : ℕ
init = 0x500

abbrev pub startup : ℕ
startup = 0x600

abbrev pub delivs : ℕ
delivs = 0x1000

abbrev pub assert : ℕ
assert = 0x4000

abbrev pub level : ℕ
level = 0x8000

abbrev pub bcast : ℕ
bcast = 0x8_0000

abbrev pub others : ℕ
others = 0xC_0000

abbrev pub x1 : ℕ
x1 = 0xB

abbrev pub periodic : ℕ
periodic = 0x2_0000

abbrev pub masked : ℕ
masked = 0x1_0000

abbrev pub irq_timer : ℕ
irq_timer = 0

abbrev pub irq_spurious : ℕ
irq_spurious = 7

abbrev pub irq_error : ℕ
irq_error = 19

-- The loop on `lapic[ICRLO] & DELIVS`, on what it reads: whether it ends.
unfoldable pub is_delivered : List ℕ → Bool
is_delivered [] = false
is_delivered (w ∷ rest) = let later = is_delivered rest in if has w delivs then later else true

-- What lapic_init writes before it waits. The bits of these values do not overlap, so `|` is `+`.
unfoldable pub before_wait : ℕ → Bool → ℕ → List Io
before_wait lapicaddr is_bootcpu ver =
    map_region lapicaddr 4096
    ∷ lapic_write svr (enable + (irq_offset + irq_spurious))
    ∷ lapic_write tdcr x1
    ∷ lapic_write timer (periodic + (irq_offset + irq_timer))
    ∷ lapic_write ticr 10000000
    ∷ ((if is_bootcpu then [] else lapic_write lint0 masked ∷ [])
        ++ (lapic_write lint1 masked
            ∷ ((if leb 4 (ver / 2 ^ 16 % 256) then lapic_write pcint masked ∷ [] else [])
                ++ (lapic_write error (irq_offset + irq_error)
                    ∷ lapic_write esr 0
                    ∷ lapic_write esr 0
                    ∷ lapic_write eoi 0
                    ∷ lapic_write icrhi 0
                    ∷ lapic_write icrlo (bcast + init + level)
                    ∷ []))))

-- `lapic` is set from then on unless `lapicaddr` is 0. `polls` has what the wait reads.
unfoldable pub lapic_init : ℕ → Bool → ℕ → List ℕ → List Io
unfolding before_wait is_delivered
lapic_init lapicaddr is_bootcpu ver polls =
    if lapicaddr == 0
    then []
    else before_wait lapicaddr is_bootcpu ver
      ++ (if is_delivered polls then lapic_write tpr 0 ∷ [] else [])

-- `id` is the register ID; `is_mapped` is whether `lapic` is set.
unfoldable pub cpunum : Bool → ℕ → ℕ
cpunum is_mapped id = if is_mapped then id / 2 ^ 24 else 0

unfoldable pub lapic_eoi : Bool → List Io
lapic_eoi is_mapped = if is_mapped then lapic_write eoi 0 ∷ [] else []

-- One round of the loop of lapic_startap; the shift of the int wraps at 2 ^ 32.
abbrev pub send_startup : ℕ → ℕ → List Io
send_startup apicid addr =
    lapic_write icrhi (apicid * 2 ^ 24 % 2 ^ 32)
    ∷ lapic_write icrlo (bit_or startup (addr / 2 ^ 12))
    ∷ []

-- The warm reset vector is at `0x40 << 4 | 0x67`. microdelay does nothing.
unfoldable pub lapic_startap : ℕ → ℕ → List Io
lapic_startap apicid addr =
    outb io_rtc 0xF
    ∷ outb (io_rtc + 1) 0x0A
    ∷ store16 0x467 0
    ∷ store16 0x469 (addr / 2 ^ 4 % 2 ^ 16)
    ∷ lapic_write icrhi (apicid * 2 ^ 24 % 2 ^ 32)
    ∷ lapic_write icrlo (init + level + assert)
    ∷ lapic_write icrlo (init + level)
    ∷ (send_startup apicid addr ++ send_startup apicid addr)

-- The wait that follows only reads.
unfoldable pub lapic_ipi : ℕ → List Io
lapic_ipi vector = lapic_write icrlo (bit_or others vector) ∷ []
