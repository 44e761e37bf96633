-- ===== src/Device/Lapic/Target.antt =====
-- Which CPU lapic_startap of kern/lapic.c starts, and where.
use jos.Base.{
  ℕ, ◌+◌, ◌*◌, ◌/◌, ◌%◌, ◌^◌, ◌<◌, ◌≡◌, ◌∙◌, refl, true, ap, List, [], ◌∷◌, ◌&&◌, ◌==◌, bit_or,
  bit_or-high, if◌then◌else◌, arith,
}
use jos.Device.{Io, lapic_write}
use jos.Device.Lapic.{icrhi, icrlo, startup, lapic_startap}

-- What the local APIC makes of the writes: one of ICRHI sets the destination, one of ICRLO with the
-- delivery mode 6 starts the CPU with that id at the page that its low byte names.
unfoldable pub started : ℕ → List Io → List (ℕ × ℕ)
started dest [] = []
started dest (lapic_write r v ∷ rest) =
    let other = started dest rest in
    let aimed = started (v / 2 ^ 24) rest in
    if r == icrhi
    then aimed
    else if r == icrlo && (v / 2 ^ 8 % 8 == 6)
    then (dest, v % 2 ^ 8 * 4096) ∷ other
    else other
started dest (_ ∷ rest) = started dest rest

-- For an id of eight bits and the address of a page below 1 MB, lapic_startap starts that CPU there,
-- and no other, twice, whatever the destination was before.
pub lapic_startap-target :
    (dest apicid page : ℕ)
    → apicid < 256
    → page < 256
    → started dest (lapic_startap apicid (page * 4096))
      ≡ (apicid, page * 4096) ∷ (apicid, page * 4096) ∷ []
unfolding started lapic_startap
lapic_startap-target dest apicid page id_fits page_fits =
    let command : bit_or startup (page * 4096 / 2 ^ 12) ≡ 0x600 + page =
      ap (bit_or startup) (omega arith) ∙ bit_or-high 8 6 page page_fits in
    let own : apicid * 2 ^ 24 % 2 ^ 32 / 2 ^ 24 ≡ apicid = omega arith in
    let mode : (((0x600 + page) / 2 ^ 8 % 8) == 6) ≡ true = ground arith in
    let place : (0x600 + page) % 2 ^ 8 ≡ page = omega arith in rw (command, own, mode, place) refl
