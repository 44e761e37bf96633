-- ===== src/User/Primes/Numbers.antt =====
-- The prime numbers, apart from user/primes.c: by trial division.
use native.Mathlib.Nat.{dvd_trans, dvd_of_mod-eq-zero, mod-eq-zero_of_dvd}
use jos.Base.{
  ℕ, zero, suc, ◌+◌, ◌%◌, ◌≤◌, ◌≡◌, refl, sym, ◌∙◌, Bool, true, false, not, ◌&&◌, ◌||◌, List, [],
  ◌∷◌, ◌++◌, ◌==◌, leb, if◌then◌else◌, Bool-cases, inl, inr, ==→eq, eq→==, and_true, le→leb, arith,
}
use mathlib.Core.Bool.{false≢true, or-false, and-false}

-- A number from 2 to `b - 1` divides `n`.
unfoldable pub has_divisor : ℕ → ℕ → Bool
has_divisor n zero = false
has_divisor n (suc d) = has_divisor n d || leb 2 d && (n % d == 0)

unfoldable pub is_prime : ℕ → Bool
unfolding has_divisor
is_prime n = leb 2 n && not (has_divisor n n)

-- The prime numbers below `b`, in order.
unfoldable pub primes_below : ℕ → List ℕ
primes_below zero = []
primes_below (suc n) = let rest = primes_below n in if is_prime n then rest ++ n ∷ [] else rest

-- A number of the list divides `n`.
unfoldable pub divided : List ℕ → ℕ → Bool
divided [] n = false
divided (p ∷ ps) n = (n % p == 0) || divided ps n

or_false : (a b : Bool) → (a || b) ≡ false → (a ≡ false) × (b ≡ false)
or_false true b e = absurd (false≢true (sym e))
or_false false b e = (refl, e)

pub or_true : (a b : Bool) → b ≡ true → (a || b) ≡ true
or_true true b e = refl
or_true false b e = e

or_right : (a b : Bool) → a ≡ false → (a || b) ≡ true → b ≡ true
or_right true b f e = absurd (false≢true (sym f))
or_right false b f e = e

divides_trans : (n d e : ℕ) → (n % d == 0) ≡ true → (d % e == 0) ≡ true → (n % e == 0) ≡ true
divides_trans n d e nd de = eq→== (n % e) 0 (
    mod-eq-zero_of_dvd e {n = n} (
      dvd_trans e {b = d} {c = n} (dvd_of_mod-eq-zero e {n = d} (==→eq (d % e) 0 de))
        (dvd_of_mod-eq-zero d {n = n} (==→eq (n % d) 0 nd))))

-- A divisor of a divisor of `n` is a divisor of `n`.
has_divisor_trans :
    (n d b : ℕ) → (n % d == 0) ≡ true → has_divisor d b ≡ true → has_divisor n b ≡ true
unfolding has_divisor
has_divisor_trans n d zero nd h = h
has_divisor_trans n d (suc e) nd h = elim (Bool-cases (has_divisor d e)) [
  | inl y ↦ rw (has_divisor_trans n d e nd y) refl
  | inr f ↦
      let at_e : leb 2 e && (d % e == 0) ≡ true =
        or_right (has_divisor d e) (leb 2 e && (d % e == 0)) f h in
      let (two, de) = and_true (leb 2 e) (d % e == 0) at_e in
      or_true (has_divisor n e) (leb 2 e && (n % e == 0)) (rw (two, divides_trans n d e nd de) refl)
]

pub divided-append :
    (ps : List ℕ) (p n : ℕ) → divided (ps ++ p ∷ []) n ≡ (divided ps n || (n % p == 0))
unfolding divided
divided-append [] p n = elim (Bool-cases (n % p == 0)) [ inl e ↦ rw e refl | inr e ↦ rw e refl ]
divided-append (q ∷ ps) p n = elim (Bool-cases (n % q == 0)) [
  | inl e ↦ rw e refl
  | inr e ↦ rw (e, divided-append ps p n) refl
]

-- The primes among the smaller numbers are enough to find a divisor.
pub divided-primes_below : (n b : ℕ) → divided (primes_below b) n ≡ has_divisor n b
unfolding divided primes_below has_divisor is_prime
divided-primes_below n zero = refl
divided-primes_below n (suc d) = elim (Bool-cases (is_prime d)) [
  | inl y ↦
      let (two, rest) = and_true (leb 2 d) (not (has_divisor d d)) y in
      rw (y, divided-append (primes_below d) d n, divided-primes_below n d, two) refl
  | inr f ↦ rw (f, divided-primes_below n d) (sym (composite n d f))
]
  where
    left_holds : (a b : Bool) → a ≡ true → (a && not b) ≡ false → b ≡ true
    left_holds true true e f = refl
    left_holds true false e f = absurd (false≢true (sym f))
    left_holds false b e f = absurd (false≢true e)

    composite :
        (n d : ℕ)
        → is_prime d ≡ false
        → (has_divisor n d || leb 2 d && (n % d == 0)) ≡ has_divisor n d
    composite n d f = elim (Bool-cases (leb 2 d)) [
      | inr small ↦ rw small (or-false (has_divisor n d))
      | inl two ↦ elim (Bool-cases (n % d == 0)) [
        | inr e ↦ rw (e, two) (or-false (has_divisor n d))
        | inl e ↦
            let d_has : has_divisor d d ≡ true = left_holds (leb 2 d) (has_divisor d d) two f in
            rw (has_divisor_trans n d d e d_has) refl
      ]
    ]

-- The list grows by a number that none of it divides, and by no other.
pub primes_below-next :
    (b : ℕ)
    → 2 ≤ b
    → divided (primes_below b) b ≡ false
    → primes_below (b + 1) ≡ primes_below b ++ b ∷ []
unfolding primes_below is_prime
primes_below-next b two free =
    let one_more : b + 1 ≡ suc b = omega arith in
    let no_divisor = sym (divided-primes_below b b) ∙ free in
    rw (one_more, le→leb 2 b two, no_divisor) refl

pub primes_below-same :
    (b : ℕ) → divided (primes_below b) b ≡ true → primes_below (b + 1) ≡ primes_below b
unfolding primes_below is_prime
primes_below-same b found =
    let one_more : b + 1 ≡ suc b = omega arith in
    let divisor = sym (divided-primes_below b b) ∙ found in
    rw (one_more, divisor, and-false (leb 2 b)) refl

pub primes_below-two : primes_below 2 ≡ []
unfolding primes_below is_prime has_divisor
primes_below-two = refl
