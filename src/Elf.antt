-- ===== src/Elf.antt =====
-- inc/elf.h: the fields of the headers, read from a memory of bytes at the address of a header.
use jos.Base.{ℕ, ◌+◌, read16, read32}

abbrev pub elf_magic : ℕ
elf_magic = 0x464C457F

-- `struct Elf`
abbrev pub e_magic : (ℕ → ℕ) → ℕ → ℕ
e_magic byte elf = read32 byte elf

abbrev pub e_entry : (ℕ → ℕ) → ℕ → ℕ
e_entry byte elf = read32 byte (elf + 24)

abbrev pub e_phoff : (ℕ → ℕ) → ℕ → ℕ
e_phoff byte elf = read32 byte (elf + 28)

abbrev pub e_phnum : (ℕ → ℕ) → ℕ → ℕ
e_phnum byte elf = read16 byte (elf + 44)

-- `struct Proghdr`
abbrev pub proghdr_size : ℕ
proghdr_size = 32

abbrev pub p_type : (ℕ → ℕ) → ℕ → ℕ
p_type byte ph = read32 byte ph

abbrev pub p_offset : (ℕ → ℕ) → ℕ → ℕ
p_offset byte ph = read32 byte (ph + 4)

abbrev pub p_va : (ℕ → ℕ) → ℕ → ℕ
p_va byte ph = read32 byte (ph + 8)

abbrev pub p_pa : (ℕ → ℕ) → ℕ → ℕ
p_pa byte ph = read32 byte (ph + 12)

abbrev pub p_filesz : (ℕ → ℕ) → ℕ → ℕ
p_filesz byte ph = read32 byte (ph + 16)

abbrev pub p_memsz : (ℕ → ℕ) → ℕ → ℕ
p_memsz byte ph = read32 byte (ph + 20)

abbrev pub elf_prog_load : ℕ
elf_prog_load = 1
