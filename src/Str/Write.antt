-- ===== src/Str/Write.antt =====
-- The functions of lib/string.c that write a string. The destination is the list of its bytes; the
-- result is its new contents, and `none` is a write or a read out of bounds. Source and
-- destination do not overlap.
use jos.Base.{ℕ, zero, suc, ◌+◌, Option, none, some, List, [], ◌∷◌, ◌==◌, if◌then◌else◌}

abbrev pub keep : ℕ → Option (List ℕ) → Option (List ℕ)
keep d none = none
keep d (some l) = some (d ∷ l)

unfoldable pub strcpy : List ℕ → List ℕ → Option (List ℕ)
strcpy [] src = none
strcpy (d ∷ dst) [] = none
strcpy (d ∷ dst) (c ∷ src) =
    let rest = keep c (strcpy dst src) in if c == 0 then some (0 ∷ dst) else rest

-- The copy starts at the end of `dst`, `strlen` bytes further on.
unfoldable pub strcat : List ℕ → List ℕ → Option (List ℕ)
unfolding strcpy
strcat [] src = none
strcat (d ∷ dst) src =
    let rest = keep d (strcat dst src) in if d == 0 then strcpy (d ∷ dst) src else rest

unfoldable pub strncpy : List ℕ → List ℕ → ℕ → Option (List ℕ)
strncpy dst src zero = some dst
strncpy [] src (suc n) = none
strncpy (d ∷ dst) [] (suc n) = none
strncpy (d ∷ dst) (c ∷ src) (suc n) = keep c (strncpy dst (if c == 0 then c ∷ src else src) n)

abbrev pub keep_count : ℕ → Option (List ℕ × ℕ) → Option (List ℕ × ℕ)
keep_count c none = none
keep_count c (some (l, n)) = some (c ∷ l, n + 1)

-- `while (--size > 0 && *src != '\0') *dst++ = *src++; *dst = '\0'`, with `size - 1` left, and the
-- count of bytes before the end.
unfoldable pub strlcpy_loop : List ℕ → List ℕ → ℕ → Option (List ℕ × ℕ)
strlcpy_loop [] src n = none
strlcpy_loop (d ∷ dst) src zero = some (0 ∷ dst, 0)
strlcpy_loop (d ∷ dst) [] (suc n) = none
strlcpy_loop (d ∷ dst) (c ∷ src) (suc n) =
    let rest = keep_count c (strlcpy_loop dst src n) in if c == 0 then some (0 ∷ dst, 0) else rest

unfoldable pub strlcpy : List ℕ → List ℕ → ℕ → Option (List ℕ × ℕ)
unfolding strlcpy_loop
strlcpy dst src zero = some (dst, 0)
strlcpy dst src (suc n) = strlcpy_loop dst src n
