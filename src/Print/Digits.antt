-- ===== src/Print/Digits.antt =====
-- printnum of lib/printfmt.c against strtol of lib/string.c.
use jos.Base.{
  ℕ, zero, suc, ◌+◌, ◌*◌, ◌/◌, ◌%◌, ◌≤◌, ◌<◌, ◌≡◌, ◌≢◌, refl, ap, sym, ◌∙◌, inl, inr, false, some,
  List, [], ◌∷◌, ◌++◌, leb, All, All-append, append_assoc, append_nil, Bool-cases, word, sub32,
  arith,
}
use jos.Print.{digit_char, printnum}
use jos.Str.Num.{skip_space, take_sign, take_prefix, digit_of, digit_in, read_digits, strtol}

abbrev IsDigit : ℕ → Type 0
IsDigit c = (48 ≤ c) × (c < 103)

digit_char-IsDigit : (d : ℕ) → d < 16 → IsDigit (digit_char d)
unfolding digit_char
digit_char-IsDigit d h = ground arith

digit_of-digit_char : (d : ℕ) → d < 16 → digit_of (digit_char d) ≡ some d
unfolding digit_of digit_char
digit_of-digit_char d h = ground arith

digit_in-digit_char : (b d : ℕ) → d < b → b ≤ 16 → digit_in b (digit_char d) ≡ some d
digit_in-digit_char b d h k = rw (digit_in, digit_of-digit_char d (omega arith)) (ground arith)

read_digit :
    (b d val : ℕ) (s : List ℕ)
    → d < b
    → b ≤ 16
    → read_digits b (digit_char d ∷ s) val ≡ read_digits b s ((val * b + d) % word)
unfolding read_digits
read_digit b d val s h k = rw (read_digits, digit_in-digit_char b d h k) refl

-- Digits alone have no space, sign or prefix before them.
no_space : (s : List ℕ) → All IsDigit s → skip_space s ≡ s
unfolding skip_space
no_space [] h = refl
no_space (c ∷ s) h = ground (arith, h.0)

no_sign : (s : List ℕ) → All IsDigit s → take_sign s ≡ (false, s)
unfolding take_sign
no_sign [] h = refl
no_sign (c ∷ s) h = ground (arith, h.0)

no_prefix : (b : ℕ) (s : List ℕ) → b ≢ 0 → All IsDigit s → take_prefix b s ≡ (b, s)
unfolding take_prefix
no_prefix b [] n h = ground arith
no_prefix b (c ∷ []) n h = ground arith
no_prefix b (c ∷ c' ∷ s) n h = ground (arith, h.1.0)

-- What the proofs need of a base.
pub record IsBase (b : ℕ) : Type 0 where
  pub lower : 2 ≤ b
  pub upper : b ≤ 16
  pub small : (n : ℕ) → n % b < b
  pub whole : (n : ℕ) → n / b * b + n % b ≡ n
  pub less : (n : ℕ) → 1 ≤ n → n / b < n
  pub of_small : (n : ℕ) → n < b → n % b ≡ n

module _ (b padc : ℕ) (base : IsBase b) where
  printnum-IsDigit : (f n : ℕ) → All IsDigit (printnum f n b 0 padc)
  unfolding printnum
  printnum-IsDigit zero n = tt
  printnum-IsDigit (suc f) n = elim (Bool-cases (leb b n)) [
    | inl more ↦ rw more (
        All-append IsDigit (printnum f (n / b) b 0 padc) (digit_char (n % b) ∷ [])
          (printnum-IsDigit f (n / b))
          (digit_char-IsDigit (n % b) (omega (arith, base.small n, base.upper)), tt))
    | inr last ↦ rw last (digit_char-IsDigit (n % b) (omega (arith, base.small n, base.upper)), tt)
  ]

  read_printnum :
      (f n : ℕ) (ys : List ℕ)
      → n < f
      → n < word
      → read_digits b (printnum f n b 0 padc ++ ys) 0 ≡ read_digits b ys n
  unfolding printnum
  read_printnum zero n ys h k = absurd (omega arith)
  read_printnum (suc f) n ys h k = elim (Bool-cases (leb b n)) [
    | inl more ↦
        let smaller : n / b < n = base.less n (ground (arith, base.lower)) in
        rw (more, append_assoc (printnum f (n / b) b 0 padc) (digit_char (n % b) ∷ []) ys)
          (read_printnum f (n / b) (digit_char (n % b) ∷ ys) (omega arith) (omega arith)
            ∙ read_digit b (n % b) (n / b) ys (base.small n) base.upper
            ∙ ap (λ (v : ℕ). read_digits b ys v) (omega (arith, base.whole n)))
    | inr last ↦ rw last (
        read_digit b (n % b) 0 ys (base.small n) base.upper
        ∙ ap (λ (v : ℕ). read_digits b ys v) (omega (arith, base.of_small n (ground arith))))
  ]

  read_whole : (n : ℕ) → n < word → read_digits b (printnum (suc n) n b 0 padc) 0 ≡ (n, [])
  unfolding read_digits
  read_whole n h =
      ap (λ l. read_digits b l 0) (sym (append_nil (printnum (suc n) n b 0 padc)))
      ∙ read_printnum (suc n) n [] (omega arith) h

  -- In a base from 2 to 16, strtol reads back the number that printnum wrote, to the end.
  pub read_back : (n : ℕ) → n < word → strtol (printnum (suc n) n b 0 padc) b ≡ (n, [])
  unfolding strtol
  read_back n h =
      let digits = printnum-IsDigit (suc n) n in
      rw (no_space _ digits, no_sign _ digits, no_prefix b _ (omega (arith, base.lower)) digits)
        (read_whole n h)

  -- With a minus sign before it, the number is read back negated.
  pub read_back_negative :
      (n : ℕ) → n < word → strtol (b'-' ∷ printnum (suc n) n b 0 padc) b ≡ (sub32 0 n, [])
  unfolding strtol skip_space take_sign
  read_back_negative n h =
      let digits = printnum-IsDigit (suc n) n in
      rw (no_prefix b _ (omega (arith, base.lower)) digits, read_whole n h) refl

octal : IsBase 8
octal = record {
  lower = omega arith;
  upper = omega arith;
  small = λ n. omega arith;
  whole = λ n. omega arith;
  less = λ n h. omega arith;
  of_small = λ n h. omega arith;
}

pub decimal : IsBase 10
decimal = record {
  lower = omega arith;
  upper = omega arith;
  small = λ n. omega arith;
  whole = λ n. omega arith;
  less = λ n h. omega arith;
  of_small = λ n h. omega arith;
}

hexadecimal : IsBase 16
hexadecimal = record {
  lower = omega arith;
  upper = omega arith;
  small = λ n. omega arith;
  whole = λ n. omega arith;
  less = λ n h. omega arith;
  of_small = λ n h. omega arith;
}

-- What printnum writes for a 32-bit number without padding, in the bases 8, 10 and 16, strtol reads
-- back to the same number, to the end of the text.
pub strtol-printnum :
    (n padc : ℕ)
    → n < word
    → (strtol (printnum (suc n) n 8 0 padc) 8 ≡ (n, []))
      × (strtol (printnum (suc n) n 10 0 padc) 10 ≡ (n, []))
      × (strtol (printnum (suc n) n 16 0 padc) 16 ≡ (n, []))
strtol-printnum n padc h =
    (read_back 8 padc octal n h, read_back 10 padc decimal n h, read_back 16 padc hexadecimal n h)
