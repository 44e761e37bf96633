-- ===== src/Print/Format/Decimal.antt =====
-- vprintfmt of "%d" against strtol.
use jos.Base.{
  ℕ, suc, ◌+◌, ◌-◌, ◌^◌, ◌≤◌, ◌<◌, ◌≡◌, refl, ap, ◌∙◌, inl, inr, List, [], ◌∷◌, ◌++◌, ltb,
  append_nil, Bool-cases, lt→ltb, ge→ltb, ltb→lt, sub32, word, codes, arith,
}
use jos.Str.Num.{strtol}
use jos.Print.{printnum}
use jos.Print.Digits.{read_back, read_back_negative, decimal}
use jos.Print.Format.{
  int_arg, printed, at_start, getint, put_number, put_signed, parse_spec, spec_step, flag, convert,
  vprintfmt,
}

put_signed-small : (n : ℕ) → n < 2 ^ 31 → put_signed n at_start ≡ printnum (suc n) n 10 0 b' '
unfolding put_signed put_number getint
put_signed-small n h =
    let same : getint n 0 ≡ n = ground arith in rw (same, lt→ltb n (2 ^ 63) (omega arith)) refl

put_signed-large :
    (n : ℕ)
    → n < word
    → 2 ^ 31 ≤ n
    → put_signed n at_start ≡ b'-' ∷ printnum (suc (word - n)) (word - n) 10 0 b' '
unfolding put_signed put_number getint
put_signed-large n h k =
    let extended : getint n 0 ≡ n + (2 ^ 64 - word) = ground arith in
    let negated : 2 ^ 64 - (n + (2 ^ 64 - word)) ≡ word - n = omega arith in
    rw (extended, ge→ltb (n + (2 ^ 64 - word)) (2 ^ 63) (omega arith), negated) refl

-- What put_signed writes, strtol reads back as the same pattern of 32 bits.
put_signed-strtol : (n : ℕ) → n < word → strtol (put_signed n at_start) 10 ≡ (n, [])
put_signed-strtol n h = elim (Bool-cases (ltb n (2 ^ 31))) [
  | inl small ↦ rw (put_signed-small n (ltb→lt n (2 ^ 31) small)) (read_back 10 b' ' decimal n h)
  | inr large ↦
      let k : 2 ^ 31 ≤ n = ground arith in
      let back : sub32 0 (word - n) ≡ n = omega arith in
      rw (put_signed-large n h k)
        (read_back_negative 10 b' ' decimal (word - n) (omega arith) ∙ ap (λ (v : ℕ). (v, [])) back)
]

-- The text that vprintfmt prints for "%d" and a 32-bit argument reads back, by strtol in base 10 and to
-- its end, as the argument, negative ones included.
pub vprintfmt-strtol :
    (n : ℕ)
    → n < word
    → (out : List ℕ) × (vprintfmt 3 (codes "%d" ++ 0 ∷ []) (int_arg n ∷ []) ≡ printed out)
      × (strtol out 10 ≡ (n, []))
unfolding vprintfmt parse_spec spec_step flag convert
vprintfmt-strtol n h =
    (put_signed n at_start, ap printed (append_nil (put_signed n at_start)), put_signed-strtol n h)
