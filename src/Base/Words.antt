-- ===== src/Base/Words.antt =====
-- C words of 32 and 16 bits as native numbers; the wrap-around is written out.
use Prim.Native.Nat.{ℕ, ◌+◌, ◌-◌, ◌*◌, ◌%◌, bit_and}
use mathlib.Core.Bool.{Bool, not}
use jos.Base.Tests.{◌==◌}

abbrev pub word : ℕ
word = 0x1_0000_0000

abbrev pub add32 : ℕ → ℕ → ℕ
add32 a b = (a + b) % word

abbrev pub sub32 : ℕ → ℕ → ℕ
sub32 a b = (a + word - b) % word

-- ROUNDDOWN and ROUNDUP of inc/types.h, computed in uint32_t.
unfoldable pub round_down : ℕ → ℕ → ℕ
round_down a n = sub32 a (a % n)

unfoldable pub round_up : ℕ → ℕ → ℕ
unfolding round_down
round_up a n = round_down (sub32 (add32 a n) 1) n

-- `w & flag` as a test.
abbrev pub has : ℕ → ℕ → Bool
has w flag = not (bit_and w flag == 0)

-- The 16-bit and the 32-bit word at an address of a memory of bytes, the low byte first.
abbrev pub read16 : (ℕ → ℕ) → ℕ → ℕ
read16 byte a = byte a + byte (a + 1) * 256

abbrev pub read32 : (ℕ → ℕ) → ℕ → ℕ
read32 byte a = read16 byte a + read16 byte (a + 2) * 65536
