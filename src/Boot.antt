-- ===== src/Boot.antt =====
-- boot/main.c. Memory is bytes by physical address. The drive is a parameter: the bytes of the
-- sector that four registers select. A loop that runs out of its fuel has no result.
pub mod Segment
use jos.Base.{
  ℕ, zero, suc, ◌+◌, ◌-◌, ◌*◌, ◌/◌, ◌%◌, Option, none, some, ◌&&◌, not, ltb, leb, ◌==◌,
  if◌then◌else◌, add32, bit_or,
}
use jos.Elf.{elf_magic, e_magic, e_entry, e_phoff, e_phnum, proghdr_size, p_offset, p_pa, p_memsz}

abbrev pub sectsize : ℕ
sectsize = 512

-- The registers 0x1F3 to 0x1F6, the lowest first.
unfoldable pub selected : ℕ → ℕ
selected offset = offset % 0x100_0000 + bit_or (offset / 0x100_0000) 0xE0 % 256 * 0x100_0000

unfoldable pub readsect : (ℕ → ℕ → ℕ) → ℕ → ℕ → (ℕ → ℕ) → ℕ → ℕ
readsect drive dst offset mem =
    λ a. if leb dst a && ltb a (dst + sectsize) then drive (selected offset) (a - dst) else mem a

-- The loop of readseg.
unfoldable pub read_sectors : (ℕ → ℕ → ℕ) → ℕ → ℕ → ℕ → ℕ → (ℕ → ℕ) → Option (ℕ → ℕ)
unfolding readsect
read_sectors drive zero pa end_pa offset mem = none
read_sectors drive (suc fuel) pa end_pa offset mem =
    let rest =
      read_sectors drive fuel (add32 pa sectsize) end_pa (add32 offset 1)
        (readsect drive pa offset mem) in
    if ltb pa end_pa then rest else some mem

-- As many rounds as `count` bytes have sectors, and two more, are followed.
unfoldable pub readseg : (ℕ → ℕ → ℕ) → ℕ → ℕ → ℕ → (ℕ → ℕ) → Option (ℕ → ℕ)
unfolding read_sectors
readseg drive pa count offset mem =
    read_sectors drive (count / sectsize + 3) (pa - pa % sectsize) (add32 pa count)
      (offset / sectsize + 1) mem

-- ELFHDR
abbrev pub elfhdr : ℕ
elfhdr = 0x10000

-- The segments that are left, from the program header at `ph` on.
unfoldable pub load_segments : (ℕ → ℕ → ℕ) → ℕ → ℕ → (ℕ → ℕ) → Option (ℕ → ℕ)
unfolding readseg
load_segments drive zero ph mem = some mem
load_segments drive (suc n) ph mem =
    elim (readseg drive (p_pa mem ph) (p_memsz mem ph) (p_offset mem ph) mem) [
      | none ↦ none
      | some mem' ↦ load_segments drive n (add32 ph proghdr_size) mem'
    ]

-- bootmain hangs at `bad`, or jumps to the entry point of the kernel with the memory it has loaded.
pub data Booted : Type 0 where
  bad : Booted
  jump : ℕ → (ℕ → ℕ) → Booted

unfoldable pub bootmain : (ℕ → ℕ → ℕ) → (ℕ → ℕ) → Option Booted
unfolding readseg load_segments
bootmain drive mem0 = elim (readseg drive elfhdr (sectsize * 8) 0 mem0) [
  | none ↦ none
  | some mem ↦
      if not (e_magic mem elfhdr == elf_magic)
      then some bad
      else elim (load_segments drive (e_phnum mem elfhdr) (add32 elfhdr (e_phoff mem elfhdr)) mem) [
        | none ↦ none
        | some mem' ↦ some (jump (e_entry mem' elfhdr) mem')
      ]
]
