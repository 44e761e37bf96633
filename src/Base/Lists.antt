-- ===== src/Base/Lists.antt =====
-- Lists measured and indexed by native numbers, and predicates on them by recursion.
use Prim.Native.Nat.{ℕ, zero, suc, ◌+◌}
use mathlib.Core.Path.{◌≡◌, refl, ap}
use mathlib.Core.Logic.{◌≢◌}
use mathlib.Core.List.{List, [], ◌∷◌, ◌++◌}
use mathlib.Core.Option.{Option, none, some}
use native.Mathlib.Omega.{arith}
use jos.Base.Tests.{◌==◌, if◌then◌else◌, eq→==, ne→==}

module _ {ℓ} {A : Type ℓ} where
  abbrev pub length : List A → ℕ
  length [] = 0
  length (x ∷ xs) = suc (length xs)

  abbrev pub get_elem? : List A → ℕ → Option A
  get_elem? [] i = none
  get_elem? (x ∷ xs) zero = some x
  get_elem? (x ∷ xs) (suc i) = get_elem? xs i

  abbrev pub get_or : List A → ℕ → A → A
  get_or [] i d = d
  get_or (x ∷ xs) zero d = x
  get_or (x ∷ xs) (suc i) d = get_or xs i d

  abbrev pub take : ℕ → List A → List A
  take zero xs = []
  take (suc n) [] = []
  take (suc n) (x ∷ xs) = x ∷ take n xs

  abbrev pub replicate : ℕ → A → List A
  replicate zero a = []
  replicate (suc n) a = a ∷ replicate n a

  -- A table indexed by numbers, changed at one index: what `a[i] = v` does to an array.
  abbrev pub update : (ℕ → A) → ℕ → A → ℕ → A
  update f i v = λ j. if j == i then v else f j

module _ {ℓ κ} {A : Type ℓ} where
  abbrev pub All : (A → Type κ) → List A → Type κ
  All P [] = Unit
  All P (x ∷ xs) = P x × All P xs

  pub All-append : (P : A → Type κ) (xs ys : List A) → All P xs → All P ys → All P (xs ++ ys)
  All-append P [] ys h k = k
  All-append P (x ∷ xs) ys h k = (h.0, All-append P xs ys h.1 k)

-- `x` is not in the list, and no element stands twice.
abbrev pub NotIn : ℕ → List ℕ → Type 0
NotIn x = All (λ y. y ≢ x)

abbrev pub Distinct : List ℕ → Type 0
Distinct [] = Unit
Distinct (x ∷ xs) = NotIn x xs × Distinct xs

pub length-append {ℓ} : {A : Type ℓ} (xs ys : List A) → length (xs ++ ys) ≡ length xs + length ys
length-append [] ys = omega arith
length-append (x ∷ xs) ys = omega (arith, length-append xs ys)

pub append_assoc {ℓ} : {A : Type ℓ} (xs ys zs : List A) → (xs ++ ys) ++ zs ≡ xs ++ (ys ++ zs)
append_assoc [] ys zs = refl
append_assoc (x ∷ xs) ys zs = ap (λ l. x ∷ l) (append_assoc xs ys zs)

pub append_nil {ℓ} : {A : Type ℓ} (xs : List A) → xs ++ [] ≡ xs
append_nil [] = refl
append_nil (x ∷ xs) = ap (λ l. x ∷ l) (append_nil xs)

-- The `n` bytes from index `i` of an array on.
abbrev pub bytes : (ℕ → ℕ) → ℕ → ℕ → List ℕ
bytes buf i zero = []
bytes buf i (suc n) = buf i ∷ bytes buf (i + 1) n

pub bytes-length : (f : ℕ → ℕ) (i n : ℕ) → length (bytes f i n) ≡ n
bytes-length f i zero = omega arith
bytes-length f i (suc n) = omega (arith, bytes-length f (i + 1) n)

-- A byte that is stored behind them comes last.
bytes-update :
    (f : ℕ → ℕ) (i n k c : ℕ) → k ≡ i + n → bytes (update f k c) i (suc n) ≡ bytes f i n ++ c ∷ []
bytes-update f i zero k c e = rw (eq→== i k (omega (arith, e))) refl
bytes-update f i (suc n) k c e =
    rw (ne→== i k (omega (arith, e)), bytes-update f (i + 1) n k c (omega (arith, e))) refl

pub bytes-add : (f : ℕ → ℕ) (k c : ℕ) → bytes (update f k c) 0 (k + 1) ≡ bytes f 0 k ++ c ∷ []
bytes-add f k c =
    let one_more : k + 1 ≡ suc k = omega arith in rw one_more (bytes-update f 0 k k c (omega arith))
