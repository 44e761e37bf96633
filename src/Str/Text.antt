-- ===== src/Str/Text.antt =====
-- The functions of lib/string.c on texts: bytes that are not 0, then a 0.
use jos.Base.{
  ℕ, zero, suc, ◌+◌, ◌<◌, ◌≤◌, ◌≡◌, ◌≢◌, refl, ap, sym, ==_self, ◌∙◌, some, List, [], ◌∷◌, ◌++◌,
  length, take, All, ◌==◌, arith, Bool-cases, inl, inr, ◌↔◌, false,
}
use mathlib.Core.Path.{ap₂}
use mathlib.Core.Bool.{false≢true}
use jos.Str.{strlen, Order, less, equal, greater, strcmp, compare_bytes}
use jos.Str.Write.{strlcpy_loop, strlcpy}

abbrev pub IsText : List ℕ → Type 0
IsText = All (λ c. c ≢ 0)

abbrev pub drop : ℕ → List ℕ → List ℕ
drop zero xs = xs
drop (suc n) [] = []
drop (suc n) (x ∷ xs) = drop n xs

-- strlen counts the bytes before the first 0.
pub strlen-text : (xs ys : List ℕ) → IsText xs → strlen (xs ++ 0 ∷ ys) ≡ some (length xs)
unfolding strlen
strlen-text [] ys h = refl
strlen-text (x ∷ xs) ys h = rw (strlen-text xs ys h.1) (ground (arith, h.0))

copy_loop :
    (n : ℕ) (dst xs ys : List ℕ)
    → IsText xs
    → n < length dst
    → strlcpy_loop dst (xs ++ 0 ∷ ys) n
      ≡ some (take n xs ++ 0 ∷ drop (length (take n xs) + 1) dst, length (take n xs))
unfolding strlcpy_loop
copy_loop n [] xs ys h k = absurd (omega arith)
copy_loop zero (d ∷ dst) [] ys h k = refl
copy_loop zero (d ∷ dst) (x ∷ xs) ys h k = refl
copy_loop (suc n) (d ∷ dst) [] ys h k = refl
copy_loop (suc n) (d ∷ dst) (x ∷ xs) ys h k =
    rw (copy_loop n dst xs ys h.1 (omega arith)) (ground (arith, h.0))

-- strlcpy into a buffer of at least `size` bytes, `size` not 0: it writes the first `size - 1` bytes
-- of the text, and a 0; it returns the number of bytes before this 0, and the rest of the buffer is
-- what it was.
pub strlcpy-text :
    (dst xs ys : List ℕ) (n : ℕ)
    → IsText xs
    → suc n ≤ length dst
    → strlcpy dst (xs ++ 0 ∷ ys) (suc n)
      ≡ some (take n xs ++ 0 ∷ drop (length (take n xs) + 1) dst, length (take n xs))
unfolding strlcpy
strlcpy-text dst xs ys n h k = copy_loop n dst xs ys h k

abbrev tail : List ℕ → List ℕ
tail [] = []
tail (x ∷ xs) = xs

abbrev first : List ℕ → ℕ
first [] = 0
first (x ∷ xs) = x

apart : (x y : ℕ) → (x == y) ≡ false → compare_bytes x y ≢ equal
apart x y d e = ground arith

-- strcmp of two texts answers, and it says that they are equal exactly if they are.
pub strcmp-equal :
    (xs ys zs ws : List ℕ)
    → IsText xs
    → IsText ys
    → (o : Order) × (strcmp (xs ++ 0 ∷ zs) (ys ++ 0 ∷ ws) ≡ some o) × ((o ≡ equal) ↔ (xs ≡ ys))
unfolding strcmp
strcmp-equal [] [] zs ws h k = (equal, refl, ((λ e. refl), (λ e. refl)))
strcmp-equal [] (y ∷ ys) zs ws h k = (less, ground (arith, k.0), ((λ e. cc), (λ e. cc)))
strcmp-equal (x ∷ xs) [] zs ws h k = (greater, ground (arith, h.0), ((λ e. cc), (λ e. cc)))
strcmp-equal (x ∷ xs) (y ∷ ys) zs ws h k = elim (Bool-cases (x == y)) [
  | inl same ↦
      let (o, e, (to, from)) = strcmp-equal xs ys zs ws h.1 k.1 in
      let eq : x ≡ y = ground arith in
      (
        o,
        rw same (ground (arith, h.0)),
        ((λ i. ap₂ (λ a b. a ∷ b) eq (to i)), (λ i. from (ap tail i))),
      )
  | inr differ ↦ (
    compare_bytes x y,
    rw differ (ground (arith, h.0)),
    (
      (λ e. absurd (apart x y differ e)),
      (λ i. absurd (false≢true (sym differ ∙ ap (λ l. x == first l) (sym i) ∙ ==_self x))),
    ),
  )
]
