-- ===== src/Str/Num.antt =====
-- strtol of lib/string.c. The text is the bytes before the terminating zero; `long` has 32 bits,
-- and a sum that overflows wraps, as the machine's does.
use jos.Base.{
  ℕ, ◌+◌, ◌-◌, ◌*◌, ◌%◌, Bool, true, false, ◌&&◌, ◌||◌, Option, none, some, List, [], ◌∷◌, leb,
  ◌==◌, if◌then◌else◌, word, sub32,
}

-- `*s`, which is 0 at the end of the text.
abbrev pub peek : List ℕ → ℕ
peek [] = 0
peek (c ∷ s) = c

unfoldable pub skip_space : List ℕ → List ℕ
skip_space [] = []
skip_space (c ∷ s) = let rest = skip_space s in if c == 32 || c == 9 then rest else c ∷ s

-- Whether the number is negative, and the text after the sign.
unfoldable pub take_sign : List ℕ → Bool × List ℕ
take_sign [] = (false, [])
take_sign (c ∷ s) = if c == 43 then (false, s) else if c == 45 then (true, s) else (false, c ∷ s)

abbrev pub drop_one : List ℕ → List ℕ
drop_one [] = []
drop_one (c ∷ s) = s

-- The base that is used, and the text after a prefix.
unfoldable pub take_prefix : ℕ → List ℕ → ℕ × List ℕ
take_prefix base s =
    if (base == 0 || base == 16) && (peek s == 48 && peek (drop_one s) == 120)
    then (16, drop_one (drop_one s))
    else if base == 0 && peek s == 48
    then (8, drop_one s)
    else if base == 0
    then (10, s)
    else (base, s)

unfoldable pub digit_of : ℕ → Option ℕ
digit_of c =
    if leb 48 c && leb c 57
    then some (c - 48)
    else if leb 97 c && leb c 122
    then some (c - 97 + 10)
    else if leb 65 c && leb c 90
    then some (c - 65 + 10)
    else none

-- The digit at the head, if it is one of the base.
abbrev pub digit_in : ℕ → ℕ → Option ℕ
digit_in base c = elim (digit_of c) [ none ↦ none | some d ↦ if leb base d then none else some d ]

unfoldable pub read_digits : ℕ → List ℕ → ℕ → ℕ × List ℕ
unfolding digit_of
read_digits base [] val = (val, [])
read_digits base (c ∷ s) val = elim (digit_in base c) [
  | none ↦ (val, c ∷ s)
  | some d ↦ read_digits base s ((val * base + d) % word)
]

-- The value as a 32-bit pattern, and `*endptr`.
unfoldable pub strtol : List ℕ → ℕ → ℕ × List ℕ
unfolding skip_space take_sign take_prefix read_digits
strtol s base0 =
    let (neg, s1) = take_sign (skip_space s) in
    let (base, s2) = take_prefix base0 s1 in
    let (val, rest) = read_digits base s2 0 in (if neg then sub32 0 val else val, rest)
