-- ===== src/Descriptor/Decoded.antt =====
-- What the processor reads in the descriptors of inc/mmu.h.
use jos.Base.{ℕ, ◌+◌, ◌*◌, ◌^◌, ◌<◌, ◌≡◌, Bool, word, arith}
use jos.Descriptor.{Segdesc, Gatedesc, seg, seg16, setgate}

abbrev pub base_of : Segdesc → ℕ
base_of d = d.sd_base_31_24 * 2 ^ 24 + d.sd_base_23_16 * 2 ^ 16 + d.sd_base_15_0

-- The last offset in the segment, in bytes.
abbrev pub limit_of : Segdesc → ℕ
limit_of d = (d.sd_lim_19_16 * 2 ^ 16 + d.sd_lim_15_0) * (1 + d.sd_g * 4095) + d.sd_g * 4095

abbrev pub offset_of : Gatedesc → ℕ
offset_of g = g.gd_off_31_16 * 2 ^ 16 + g.gd_off_15_0

-- From the descriptor that SEG or SEG16 makes the base comes back, and the limit, for SEG up to the end
-- of its page and for SEG16 below 2 ^ 20; from the one of SETGATE the handler's address comes back.
pub descriptors-decode :
    (type base lim dpl sel : ℕ) (istrap : Bool)
    → base < word
    → lim < 2 ^ 20
    → (base_of (seg type base (lim * 4096) dpl) ≡ base)
      × (limit_of (seg type base (lim * 4096) dpl) ≡ lim * 4096 + 4095)
      × (base_of (seg16 type base lim dpl) ≡ base)
      × (limit_of (seg16 type base lim dpl) ≡ lim)
      × (offset_of (setgate istrap sel base dpl) ≡ base)
unfolding seg seg16 setgate
descriptors-decode type base lim dpl sel istrap fits small =
    (omega arith, omega arith, omega arith, omega arith, omega arith)
