-- ===== src/Mp.antt =====
-- kern/mpconfig.c: the search for the table of processors that the firmware leaves in memory, and
-- what mp_init reads from it. Memory is bytes by physical address; an address that KADDR refuses is
-- a panic, `none` of the result.
pub mod Numbered
use jos.Base.{
  ℕ, zero, suc, ◌+◌, ◌-◌, ◌*◌, ◌/◌, ◌%◌, Bool, true, false, Option, none, some, List, [], ◌∷◌, not,
  ◌&&◌, ◌||◌, ltb, leb, ◌==◌, if◌then◌else◌, update, has, word, add32, sub32, read16, read32, codes,
}

pub record PhysMemory : Type 0 where
  pub npages : ℕ
  pub byte : ℕ → ℕ

-- KADDR
abbrev pub reachable : PhysMemory → ℕ → Bool
reachable m pa = ltb (pa / 4096) m.npages

-- The result of `sum` has 8 bits.
unfoldable pub sum : PhysMemory → ℕ → ℕ → ℕ
sum m addr zero = 0
sum m addr (suc len) = (m.byte addr + sum m (addr + 1) len) % 256

-- `memcmp(addr, text, 4) == 0`
abbrev pub starts_with : PhysMemory → ℕ → List ℕ → Bool
starts_with m a [] = true
starts_with m a (c ∷ cs) = m.byte a == c && starts_with m (a + 1) cs

-- The rounds of mpsearch1 that are left: a structure has 16 bytes.
unfoldable pub search_mp : ℕ → ℕ → PhysMemory → Option ℕ
unfolding sum
search_mp zero a m = none
search_mp (suc n) a m =
    let rest = search_mp n (a + 16) m in
    if starts_with m a (codes "_MP_") && sum m a 16 == 0 then some a else rest

-- `some none` is NULL.
unfoldable pub mpsearch1 : ℕ → ℕ → PhysMemory → Option (Option ℕ)
unfolding search_mp
mpsearch1 a len m =
    if not (reachable m a) || not (reachable m (add32 a len))
    then none
    else some (search_mp ((len + 15) / 16) a m)

-- `if ((mp = mpsearch1(a, len))) return mp`, and on to the next place.
abbrev pub or_else : Option (Option ℕ) → Option (Option ℕ) → Option (Option ℕ)
or_else none next = none
or_else (some none) next = next
or_else (some (some a)) next = some (some a)

unfoldable pub mpsearch : PhysMemory → Option (Option ℕ)
unfolding mpsearch1
mpsearch m =
    if not (reachable m 0x400)
    then none
    else (let p = read16 m.byte 0x40E in
        or_else
          (if not (p == 0)
            then mpsearch1 (p * 16) 1024 m
            else mpsearch1 (sub32 (read16 m.byte 0x413 * 1024) 1024) 1024 m)
          (mpsearch1 0xF0000 0x10000 m))

-- The tests of mpconfig on the table at `conf`, after its address is known.
unfoldable pub good_table : ℕ → PhysMemory → Bool
unfolding sum
good_table conf m =
    starts_with m conf (codes "PCMP")
    && sum m conf (read16 m.byte (conf + 4)) == 0
    && (m.byte (conf + 6) == 1 || m.byte (conf + 6) == 4)
    && (sum m (conf + read16 m.byte (conf + 4)) (read16 m.byte (conf + 40)) + m.byte (conf + 42))
        % 256
      == 0

-- The table and the pointer structure, `some none` for NULL.
abbrev pub table_of : PhysMemory → ℕ → Option (Option (ℕ × ℕ))
table_of m mp =
    if read32 m.byte (mp + 4) == 0 || not (m.byte (mp + 11) == 0)
    then some none
    else if not (reachable m (read32 m.byte (mp + 4)))
    then none
    else if good_table (read32 m.byte (mp + 4)) m
    then some (some (read32 m.byte (mp + 4), mp))
    else some none

unfoldable pub mpconfig : PhysMemory → Option (Option (ℕ × ℕ))
unfolding mpsearch good_table
mpconfig m = elim (mpsearch m) [
  | none ↦ none
  | some none ↦ some none
  | some (some mp) ↦ table_of m mp
]

-- `cpus`, `bootcpu` as an index, `ismp`, `ncpu`, `lapicaddr`, and whether the interrupt mode register
-- was set.
pub record Mp : Type 0 where
  pub cpu_id : ℕ → ℕ
  pub cpu_status : ℕ → ℕ
  pub bootcpu : ℕ
  pub ismp : Bool
  pub ncpu : ℕ
  pub lapicaddr : ℕ
  pub imcr_set : Bool

abbrev pub ncpu_max : ℕ
ncpu_max = 8

-- The case of MPPROC.
unfoldable pub add_processor : ℕ → PhysMemory → Mp → Mp
add_processor p m s0 =
    let s = if has (m.byte (p + 3)) 2 then record s0 { bootcpu = s0.ncpu } else s0 in
    if ltb s.ncpu ncpu_max
    then record s { cpu_id = update s.cpu_id s.ncpu s.ncpu; ncpu = s.ncpu + 1 }
    else s

-- The rounds of mp_init that are left, from the entry at `p` on.
unfoldable pub read_entries : ℕ → ℕ → PhysMemory → Mp → Mp
unfolding add_processor
read_entries zero p m s = s
read_entries (suc n) p m s =
    let after_processor = read_entries n (p + 20) m (add_processor p m s) in
    let after_other = read_entries n (p + 8) m s in
    if m.byte p == 0
    then after_processor
    else if leb (m.byte p) 4
    then after_other
    else record s { ismp = false }

-- What follows the loop.
abbrev pub settle_on : PhysMemory → ℕ → Mp → Mp
settle_on m mp s0 =
    let s = record s0 { cpu_status = update s0.cpu_status s0.bootcpu 1 } in
    if not s.ismp
    then record s { ncpu = 1; lapicaddr = 0 }
    else if not (m.byte (mp + 12) == 0)
    then record s { imcr_set = true }
    else s

unfoldable pub mp_init : PhysMemory → Mp → Option Mp
unfolding mpconfig read_entries
mp_init m s0 =
    let s = record s0 { bootcpu = 0 } in
    elim (mpconfig m) [
      | none ↦ none
      | some none ↦ some s
      | some (some (conf, mp)) ↦ some (
          settle_on m mp (
            read_entries (read16 m.byte (conf + 34)) (conf + 44) m
              (record s { ismp = true; lapicaddr = read32 m.byte (conf + 36) })))
    ]
