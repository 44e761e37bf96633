-- ===== src/Base/Bits.antt =====
-- `&` and `|` of C at variables: one binary digit at a time.
use Prim.Native.Nat.{
  ℕ, zero, suc, ◌+◌, ◌*◌, ◌/◌, ◌%◌, ◌≤◌, ◌<◌, ◌^◌, min, max, bit_and, bit_or, digits,
  bit_and-bitwise, bit_or-bitwise,
}
use mathlib.Core.Path.{◌≡◌, refl, sym, ap, ◌∙◌}
use native.Mathlib.Nat.{pow-suc}
use native.Mathlib.Omega.{arith}

zero-bit_and : (b : ℕ) → bit_and 0 b ≡ 0
zero-bit_and b = bit_and-bitwise 0 b

zero-bit_or : (b : ℕ) → bit_or 0 b ≡ b
zero-bit_or b = bit_or-bitwise 0 b

-- The recursion behind both operations does not depend on its fuel, once it is enough.
module _ (z : ℕ → ℕ) (f : ℕ → ℕ → ℕ) where
  digits_enough : (n m a b : ℕ) → a ≤ n → a ≤ m → digits z f n a b ≡ digits z f m a b
  digits_enough zero zero a b p q = refl
  digits_enough zero (suc m) zero b p q = refl
  digits_enough zero (suc m) (suc a) b p q = absurd (omega arith)
  digits_enough (suc n) zero zero b p q = refl
  digits_enough (suc n) zero (suc a) b p q = absurd (omega arith)
  digits_enough (suc n) (suc m) zero b p q = refl
  digits_enough (suc n) (suc m) (suc a) b p q =
      ap (λ (t : ℕ). t * 2 + f (suc a % 2) (b % 2))
        (digits_enough n m (suc a / 2) (b / 2) (omega arith) (omega arith))

pub bit_and-halves : (a b : ℕ) → bit_and a b ≡ bit_and (a / 2) (b / 2) * 2 + min (a % 2) (b % 2)
bit_and-halves zero b = omega (arith, zero-bit_and b, zero-bit_and (b / 2))
bit_and-halves (suc a) b = omega (
  arith,
  bit_and-bitwise (suc a) b,
  bit_and-bitwise (suc a / 2) (b / 2),
  digits_enough (λ _. 0) min a (suc a / 2) (suc a / 2) (b / 2) (omega arith) (omega arith),
)

pub bit_or-halves : (a b : ℕ) → bit_or a b ≡ bit_or (a / 2) (b / 2) * 2 + max (a % 2) (b % 2)
bit_or-halves zero b = omega (arith, zero-bit_or b, zero-bit_or (b / 2))
bit_or-halves (suc a) b = omega (
  arith,
  bit_or-bitwise (suc a) b,
  bit_or-bitwise (suc a / 2) (b / 2),
  digits_enough (λ c. c) max a (suc a / 2) (suc a / 2) (b / 2) (omega arith) (omega arith),
)

and_nothing : (n a : ℕ) → a ≤ n → bit_and a 0 ≡ 0
and_nothing n zero h = zero-bit_and 0
and_nothing zero (suc a) h = absurd (omega arith)
and_nothing (suc n) (suc a) h =
    omega (arith, bit_and-halves (suc a) 0, and_nothing n (suc a / 2) (omega arith))

pub bit_and-zero : (a : ℕ) → bit_and a 0 ≡ 0
bit_and-zero a = and_nothing a a (omega arith)

or_nothing : (n a : ℕ) → a ≤ n → bit_or a 0 ≡ a
or_nothing n zero h = zero-bit_or 0
or_nothing zero (suc a) h = absurd (omega arith)
or_nothing (suc n) (suc a) h =
    omega (arith, bit_or-halves (suc a) 0, or_nothing n (suc a / 2) (omega arith))

pub bit_or-zero : (a : ℕ) → bit_or a 0 ≡ a
bit_or-zero a = or_nothing a a (omega arith)

-- Single flags.
pub bit_and-one : (a : ℕ) → bit_and a 1 ≡ a % 2
bit_and-one a = omega (arith, bit_and-halves a 1, bit_and-zero (a / 2))

pub bit_and-two : (a : ℕ) → bit_and a 2 ≡ a / 2 % 2 * 2
bit_and-two a = omega (arith, bit_and-halves a 2, bit_and-one (a / 2))

pub bit_and-four : (a : ℕ) → bit_and a 4 ≡ a / 4 % 2 * 4
bit_and-four a = omega (arith, bit_and-halves a 4, bit_and-two (a / 2))

-- `(q << k) | r` is a sum where `r` has at most `k` digits.
shift_suc : (k q : ℕ) → q * 2 ^ suc k ≡ 2 * (q * 2 ^ k)
shift_suc k q = omega (arith, ap (λ (t : ℕ). q * t) (pow-suc 2 k))

pub bit_or-high : (k q r : ℕ) → r < 2 ^ k → bit_or (q * 2 ^ k) r ≡ q * 2 ^ k + r
bit_or-high zero q r h = ground (arith, bit_or-zero q)
bit_or-high (suc k) q r h = ground (
  arith,
  bit_or-halves (q * 2 ^ suc k) r,
  shift_suc k q,
  pow-suc 2 k,
  bit_or-high k q (r / 2) (omega (arith, pow-suc 2 k)),
)

pub bit_or-low : (k q r : ℕ) → r < 2 ^ k → bit_or r (q * 2 ^ k) ≡ q * 2 ^ k + r
bit_or-low zero q r h = ground (arith, zero-bit_or q)
bit_or-low (suc k) q r h = ground (
  arith,
  bit_or-halves r (q * 2 ^ suc k),
  shift_suc k q,
  pow-suc 2 k,
  bit_or-low k q (r / 2) (omega (arith, pow-suc 2 k)),
)

-- `a >> k`, one digit at a time.
shift : ℕ → ℕ → ℕ
shift zero a = a
shift (suc k) a = shift k (a / 2)

shift-bit_or : (k a b : ℕ) → shift k (bit_or a b) ≡ bit_or (shift k a) (shift k b)
unfolding shift
shift-bit_or zero a b = refl
shift-bit_or (suc k) a b =
    ap (shift k) (omega (arith, bit_or-halves a b)) ∙ shift-bit_or k (a / 2) (b / 2)

shift_twelve : (a : ℕ) → shift 12 a ≡ a / 4096
unfolding shift
shift_twelve a = omega arith

-- Flags below 4096 do not touch the page frame of an entry.
pub bit_or-frame : (a b : ℕ) → b < 4096 → bit_or a b / 4096 ≡ a / 4096
bit_or-frame a b h =
    sym (shift_twelve (bit_or a b))
    ∙ shift-bit_or 12 a b
    ∙ ap (bit_or (shift 12 a)) (omega (arith, shift_twelve b))
    ∙ bit_or-zero (shift 12 a)
    ∙ shift_twelve a

-- Each of the three low flags of `a | b`.
pub bit_or-flags :
    (a b : ℕ)
    → (bit_or a b % 2 ≡ max (a % 2) (b % 2))
      × (bit_or a b / 2 % 2 ≡ max (a / 2 % 2) (b / 2 % 2))
      × (bit_or a b / 4 % 2 ≡ max (a / 4 % 2) (b / 4 % 2))
bit_or-flags a b =
    omega (
      arith,
      bit_or-halves a b,
      bit_or-halves (a / 2) (b / 2),
      bit_or-halves (a / 2 / 2) (b / 2 / 2),
    )
