-- ===== src/Str.antt =====
-- lib/string.c. `Str` has the functions that read strings, `Str.Write` those that write one,
-- `Str.Mem` the block operations and `Str.Num` strtol.
--
-- Memory from a pointer on is the list of its bytes, up to the end of what is mapped; `none` is a
-- read past that end.
pub mod Write
pub mod Text
pub mod Mem
pub mod Num
use jos.Base.{
  ℕ, zero, suc, ◌+◌, ◌-◌, Bool, true, false, not, ◌&&◌, Option, none, some, List, [], ◌∷◌, ◌==◌,
  ltb, if◌then◌else◌,
}

abbrev pub bump : Option ℕ → Option ℕ
bump none = none
bump (some n) = some (n + 1)

unfoldable pub strlen : List ℕ → Option ℕ
strlen [] = none
strlen (c ∷ s) = let rest = bump (strlen s) in if c == 0 then some 0 else rest

unfoldable pub strnlen : List ℕ → ℕ → Option ℕ
strnlen s zero = some 0
strnlen [] (suc size) = none
strnlen (c ∷ s) (suc size) = let rest = bump (strnlen s size) in if c == 0 then some 0 else rest

-- The sign of a difference of two bytes.
pub data Order : Type 0 where
  less equal greater : Order

abbrev pub compare_bytes : ℕ → ℕ → Order
compare_bytes p q = if p == q then equal else if ltb p q then less else greater

-- The sign of the result of strcmp.
unfoldable pub strcmp : List ℕ → List ℕ → Option Order
strcmp [] q = none
strcmp (a ∷ p) [] = none
strcmp (a ∷ p) (b ∷ q) =
    let rest = strcmp p q in if not (a == 0) && a == b then rest else some (compare_bytes a b)

unfoldable pub strncmp : List ℕ → List ℕ → ℕ → Option Order
strncmp p q zero = some equal
strncmp [] q (suc n) = none
strncmp (a ∷ p) [] (suc n) = none
strncmp (a ∷ p) (b ∷ q) (suc n) =
    let rest = strncmp p q n in if not (a == 0) && a == b then rest else some (compare_bytes a b)

abbrev pub bump_found : Option (Option ℕ) → Option (Option ℕ)
bump_found none = none
bump_found (some r) = some (bump r)

-- strchr: the offset of the character, if the string has it.
unfoldable pub strchr : List ℕ → ℕ → Option (Option ℕ)
strchr [] c = none
strchr (a ∷ s) c =
    let rest = bump_found (strchr s c) in
    if a == 0 then some none else if a == c then some (some 0) else rest

-- strfind: the offset of the character, or of the end of the string.
unfoldable pub strfind : List ℕ → ℕ → Option ℕ
strfind [] c = none
strfind (a ∷ s) c =
    let rest = bump (strfind s c) in if a == 0 then some 0 else if a == c then some 0 else rest

unfoldable pub memcmp : List ℕ → List ℕ → ℕ → Option Order
memcmp p q zero = some equal
memcmp [] q (suc n) = none
memcmp (a ∷ p) [] (suc n) = none
memcmp (a ∷ p) (b ∷ q) (suc n) =
    let rest = memcmp p q n in if not (a == b) then some (compare_bytes a b) else rest

-- memfind: the offset of the byte, or `n`.
unfoldable pub memfind : List ℕ → ℕ → ℕ → Option ℕ
memfind s c zero = some 0
memfind [] c (suc n) = none
memfind (a ∷ s) c (suc n) = let rest = bump (memfind s c n) in if a == c then some 0 else rest
