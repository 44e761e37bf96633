-- ===== src/Mmu.antt =====
-- The address macros and page flags of inc/mmu.h, the address-space layout of inc/memlayout.h.
-- Virtual and physical addresses are numbers below 2 ^ 32.
use jos.Base.{ℕ, ◌+◌, ◌-◌, ◌*◌, ◌/◌, ◌%◌}

abbrev pub pg_size : ℕ
pg_size = 4096

abbrev pub pt_size : ℕ
pt_size = pg_size * 1024

abbrev pub pgnum : ℕ → ℕ
pgnum la = la / 4096

abbrev pub pdx : ℕ → ℕ
pdx la = la / 0x40_0000 % 1024

abbrev pub ptx : ℕ → ℕ
ptx la = la / 4096 % 1024

abbrev pub pgoff : ℕ → ℕ
pgoff la = la % 4096

-- PGADDR: the three parts do not overlap, so `|` is `+`.
abbrev pub pgaddr : ℕ → ℕ → ℕ → ℕ
pgaddr d t o = d * 0x40_0000 + t * 4096 + o

-- PTE_ADDR: an entry without its low twelve bits.
abbrev pub pte_addr : ℕ → ℕ
pte_addr pte = pte / 4096 * 4096

abbrev pub pte_p : ℕ
pte_p = 1

abbrev pub pte_w : ℕ
pte_w = 2

abbrev pub pte_u : ℕ
pte_u = 4

abbrev pub pte_pwt : ℕ
pte_pwt = 8

abbrev pub pte_pcd : ℕ
pte_pcd = 16

abbrev pub pte_avail : ℕ
pte_avail = 0xe00

-- PTE_SYSCALL, and its complement in 32 bits.
abbrev pub pte_syscall : ℕ
pte_syscall = 0xe07

abbrev pub not_pte_syscall : ℕ
not_pte_syscall = 0xffff_ffff - pte_syscall

abbrev pub kernbase : ℕ
kernbase = 0xf000_0000

abbrev pub iophysmem : ℕ
iophysmem = 0x0a_0000

abbrev pub extphysmem : ℕ
extphysmem = 0x10_0000

abbrev pub kstacktop : ℕ
kstacktop = kernbase

abbrev pub kstksize : ℕ
kstksize = 8 * pg_size

abbrev pub kstkgap : ℕ
kstkgap = 8 * pg_size

abbrev pub mmiolim : ℕ
mmiolim = kstacktop - pt_size

abbrev pub mmiobase : ℕ
mmiobase = mmiolim - pt_size

abbrev pub ulim : ℕ
ulim = mmiobase

abbrev pub uvpt : ℕ
uvpt = ulim - pt_size

abbrev pub upages : ℕ
upages = uvpt - pt_size

abbrev pub uenvs : ℕ
uenvs = upages - pt_size

abbrev pub utop : ℕ
utop = uenvs

abbrev pub uxstacktop : ℕ
uxstacktop = utop

abbrev pub ustacktop : ℕ
ustacktop = utop - 2 * pg_size

abbrev pub utemp : ℕ
utemp = pt_size

abbrev pub pftemp : ℕ
pftemp = utemp + pt_size - pg_size

abbrev pub mpentry_paddr : ℕ
mpentry_paddr = 0x7000
