-- ===== src/Str/Mem.antt =====
-- memset and memmove of lib/string.c, as built (ASM is 1): the `rep` instructions, by bytes or by
-- words of four, upwards or downwards. Memory is the byte at each address, and no block wraps
-- round the end of the address space.
pub mod Copy
pub mod Fill
use jos.Base.{ℕ, zero, suc, ◌+◌, ◌-◌, ◌*◌, ◌/◌, ◌%◌, ◌&&◌, ◌==◌, ltb, if◌then◌else◌, update}

abbrev pub Memory : Type 0
Memory = ℕ → ℕ

-- The four bytes at `s`, read before any is written, stored at `d`.
abbrev pub move_word : ℕ → ℕ → Memory → Memory
move_word d s m =
    update (update (update (update m d (m s)) (d + 1) (m (s + 1))) (d + 2) (m (s + 2))) (d + 3)
      (m (s + 3))

-- `cld; rep movsb` and `cld; rep movsl`
unfoldable pub movsb_up : ℕ → ℕ → ℕ → Memory → Memory
movsb_up zero d s m = m
movsb_up (suc n) d s m = movsb_up n (d + 1) (s + 1) (update m d (m s))

unfoldable pub movsl_up : ℕ → ℕ → ℕ → Memory → Memory
movsl_up zero d s m = m
movsl_up (suc n) d s m = movsl_up n (d + 4) (s + 4) (move_word d s m)

-- `std; rep movsb` and `std; rep movsl`: the addresses are those after the blocks that are left.
unfoldable pub movsb_down : ℕ → ℕ → ℕ → Memory → Memory
movsb_down zero d s m = m
movsb_down (suc n) d s m = movsb_down n (d - 1) (s - 1) (update m (d - 1) (m (s - 1)))

unfoldable pub movsl_down : ℕ → ℕ → ℕ → Memory → Memory
movsl_down zero d s m = m
movsl_down (suc n) d s m = movsl_down n (d - 4) (s - 4) (move_word (d - 4) (s - 4) m)

unfoldable pub memmove : ℕ → ℕ → ℕ → Memory → Memory
memmove dst src n m =
    if ltb src dst && ltb dst (src + n)
    then (if (src + n) % 4 == 0 && (dst + n) % 4 == 0 && n % 4 == 0
        then movsl_down (n / 4) (dst + n) (src + n) m
        else movsb_down n (dst + n) (src + n) m)
    else (if src % 4 == 0 && dst % 4 == 0 && n % 4 == 0
        then movsl_up (n / 4) dst src m
        else movsb_up n dst src m)

unfoldable pub memcpy : ℕ → ℕ → ℕ → Memory → Memory
unfolding memmove
memcpy dst src n m = memmove dst src n m

-- `cld; rep stosb` stores the low byte of `c`; `stosl` the word of four such bytes.
unfoldable pub stosb : ℕ → ℕ → ℕ → Memory → Memory
stosb zero d c m = m
stosb (suc n) d c m = stosb n (d + 1) c (update m d (c % 256))

unfoldable pub stosl : ℕ → ℕ → ℕ → Memory → Memory
stosl zero d w m = m
stosl (suc n) d w m = stosl n (d + 4) w (
    update
      (update (update (update m d (w % 256)) (d + 1) (w / 256 % 256)) (d + 2) (w / 0x1_0000 % 256))
      (d + 3) (w / 0x100_0000 % 256))

-- `(c<<24)|(c<<16)|(c<<8)|c` of a byte
abbrev pub spread : ℕ → ℕ
spread c = c * 0x100_0000 + c * 0x1_0000 + c * 256 + c

unfoldable pub memset : ℕ → ℕ → ℕ → Memory → Memory
memset v c n m =
    if n == 0
    then m
    else if v % 4 == 0 && n % 4 == 0
    then stosl (n / 4) v (spread (c % 256)) m
    else stosb n v c m
