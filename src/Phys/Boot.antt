-- ===== src/Phys/Boot.antt =====
-- Boot-time memory of kern/pmap.c: the size of memory, boot_alloc and page_init.
use jos.Base.{
  ℕ, zero, suc, ◌+◌, ◌*◌, ◌/◌, ◌^◌, ◌&&◌, Option, none, some, ltb, leb, ◌==◌, if◌then◌else◌,
  round_up, add32, sub32, bit_or, update,
}
use jos.Mmu.{pg_size, kernbase, iophysmem, extphysmem, mpentry_paddr}
use jos.Phys.{Phys, set_page}

-- `mc146818_read`, the CMOS, is a parameter.
unfoldable pub nvram_read : (ℕ → ℕ) → ℕ → ℕ
nvram_read cmos r = bit_or (cmos r) (cmos (r + 1) * 2 ^ 8)

-- The registers NVRAM_BASELO and NVRAM_EXTLO of kern/kclock.h.
abbrev pub nvram_baselo : ℕ
nvram_baselo = 0x15

abbrev pub nvram_extlo : ℕ
nvram_extlo = 0x17

-- `npages` and `npages_basemem`
unfoldable pub i386_detect_memory : (ℕ → ℕ) → ℕ × ℕ
unfolding nvram_read
i386_detect_memory cmos =
    let base = nvram_read cmos nvram_baselo * 1024 / pg_size in
    let ext = nvram_read cmos nvram_extlo * 1024 / pg_size in
    (if ext == 0 then base else extphysmem / pg_size + ext, base)

-- `nextfree` is the static variable, 0 before the first call; `kernel_end` is the linker's `end`.
-- The result is the address returned and the new `nextfree`; `none` is the panic.
abbrev pub first_free : ℕ → ℕ → ℕ
first_free kernel_end nextfree = if nextfree == 0 then round_up kernel_end pg_size else nextfree

unfoldable pub boot_alloc : ℕ → ℕ → ℕ → ℕ → Option (ℕ × ℕ)
boot_alloc kernel_end npages nextfree n =
    let f = first_free kernel_end nextfree in
    if ltb 0 n
    then (if ltb (add32 kernbase (npages * pg_size)) f
        then none
        else some (f, round_up (add32 f n) pg_size))
    else some (f, f)

-- `pages[i].pp_ref = 0; pages[i].pp_link = page_free_list; page_free_list = &pages[i]`
abbrev pub push_free : ℕ → Phys → Phys
push_free i s = record s {
  pages = update s.pages i (record { pp_link = s.free_list; pp_ref = 0 });
  free_list = some i;
}

-- One round of the loop of page_init.
unfoldable pub init_page : ℕ → ℕ → ℕ → Phys → Phys
init_page base nextfree i s =
    if i == 0
    then set_page i (record { pp_link = none; pp_ref = 1 }) s
    else if i == mpentry_paddr / pg_size
    then s
    else if ltb i base
    then push_free i s
    else if leb (iophysmem / pg_size) i && ltb i (extphysmem / pg_size)
    then set_page i (record { pp_link = (s.pages i).pp_link; pp_ref = 1 }) s
    else if leb (iophysmem / pg_size) i && ltb i (sub32 nextfree kernbase / pg_size)
    then set_page i (record { pp_link = none; pp_ref = 1 }) s
    else push_free i s

-- `for (i = 0; i < n; i++)`
unfoldable pub init_pages : ℕ → ℕ → ℕ → Phys → Phys
unfolding init_page
init_pages zero base nextfree s = s
init_pages (suc n) base nextfree s = init_page base nextfree n (init_pages n base nextfree s)

-- `nextfree` is what `boot_alloc(0)` returns.
unfoldable pub page_init : ℕ → ℕ → Phys → Phys
page_init base nextfree s = init_pages s.npages base nextfree s
