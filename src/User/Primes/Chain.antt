-- ===== src/User/Primes/Chain.antt =====
-- The invariant of the chain of user/primes.c, and its steps.
use jos.Base.{
  ℕ, zero, suc, ◌+◌, ◌-◌, ◌%◌, ◌<◌, ◌≤◌, ◌≡◌, refl, sym, ap, ◌∙◌, true, false, List, [], ◌∷◌, ◌++◌,
  ◌==◌, Bool-cases, ==→eq, ltb, ltb→lt, append_nil, inl, inr, arith,
}
use mathlib.Core.Path.{subst}
use jos.User.Primes.{Process, Takes, Move}
use jos.User.Primes.Process.{receiving, exited, forking, filtering, sending}
use jos.User.Primes.Numbers.{
  primes_below, divided, divided-append, or_true, primes_below-next, primes_below-same,
}

-- Each number from `a` on below `b` has a divisor in the list.
abbrev Missed : List ℕ → ℕ → ℕ → Type 0
Missed ps a b = (n : ℕ) → a ≤ n → n < b → divided ps n ≡ true

-- What the numbers below `b` that none of `ps` divides have made of a chain: the processes, and what
-- has been printed with the numbers `ps` of the processes before the chain.
pub data Chain : ℕ → List ℕ → List Process → List ℕ → Type 0 where
  idle : (b : ℕ) (ps : List ℕ) → ps ≡ primes_below b → Chain b ps (receiving ∷ []) ps
  prints :
      (b p : ℕ) (ps : List ℕ)
      → ps ++ p ∷ [] ≡ primes_below (p + 1)
      → p < b
      → Missed ps (p + 1) b
      → Chain b ps (forking p ∷ []) (ps ++ p ∷ [])
  filters :
      (b p : ℕ) (ps out : List ℕ) (rest : List Process)
      → Chain b (ps ++ p ∷ []) rest out
      → Chain b ps (filtering p ∷ rest) out
  holds :
      (b p i : ℕ) (ps out : List ℕ) (rest : List Process)
      → 2 ≤ i
      → i < b
      → divided (ps ++ p ∷ []) i ≡ false
      → Missed (ps ++ p ∷ []) (i + 1) b
      → Chain i (ps ++ p ∷ []) rest out
      → Chain b ps (sending p i ∷ rest) out
  ends : (b m : ℕ) (ps out : List ℕ) → out ≡ primes_below m → Chain b ps (exited ∷ []) out
  broken :
      (b b' : ℕ) (ps ps' out : List ℕ) (rest : List Process)
      → Chain b' ps' rest out
      → Chain b ps (exited ∷ rest) out

pub Chain-primes_below :
    (b : ℕ) (ps out : List ℕ) (c : List Process)
    → Chain b ps c out
    → (m : ℕ) × (out ≡ primes_below m)
Chain-primes_below _ _ _ _ (Chain.idle b ps e) = (b, e)
Chain-primes_below _ _ _ _ (Chain.prints b p ps e _ _) = (p + 1, e)
Chain-primes_below _ _ _ _ (Chain.filters b p ps out rest c) =
    Chain-primes_below b (ps ++ p ∷ []) out rest c
Chain-primes_below _ _ _ _ (Chain.holds b p i ps out rest _ _ _ _ c) =
    Chain-primes_below i (ps ++ p ∷ []) out rest c
Chain-primes_below _ _ _ _ (Chain.ends b m ps out e) = (m, e)
Chain-primes_below _ _ _ _ (Chain.broken b b' ps ps' out rest c) =
    Chain-primes_below b' ps' out rest c

-- The primes do not change over a range that is missed.
primes_below-range :
    (ps : List ℕ) (a n : ℕ) → ps ≡ primes_below a → Missed ps a (a + n) → ps ≡ primes_below (a + n)
primes_below-range ps a zero e m = subst (λ c. ps ≡ primes_below c) (omega arith) e
primes_below-range ps a (suc n) e m =
    let rest = primes_below-range ps a n e (λ k l h. m k l (omega (arith, h))) in
    let found : divided (primes_below (a + n)) (a + n) ≡ true =
      subst (λ l. divided l (a + n) ≡ true) rest (m (a + n) (omega arith) (omega arith)) in
    rest ∙ sym (primes_below-same (a + n) found) ∙ ap primes_below (omega arith)

Missed-append : (ps : List ℕ) (p a b : ℕ) → Missed ps a b → Missed (ps ++ p ∷ []) a b
Missed-append ps p a b m n l h = rw (divided-append ps p n, m n l h) refl

-- Numbers that the list already sifts out change nothing.
widen :
    (a b : ℕ) (ps out : List ℕ) (c : List Process)
    → a ≤ b
    → Missed ps a b
    → Chain a ps c out
    → Chain b ps c out
widen _ b _ _ _ le m (Chain.idle a ps e) = Chain.idle b ps (
    subst (λ c. ps ≡ primes_below c) (omega (arith, le))
      (primes_below-range ps a (b - a) e (λ n l h. m n l (omega (arith, h, le)))))
widen _ b _ _ _ le m (Chain.prints a p ps e lt gap) =
    Chain.prints b p ps e (omega (arith, lt, le)) (λ n l h. elim (Bool-cases (ltb n a)) [
      | inl y ↦ gap n l (ltb→lt n a y)
      | inr f ↦ m n (ground arith) h
    ])
widen _ b _ _ _ le m (Chain.filters a p ps out rest c) =
    Chain.filters b p ps out rest
      (widen a b (ps ++ p ∷ []) out rest le (Missed-append ps p a b m) c)
widen _ b _ _ _ le m (Chain.holds a p i ps out rest two lt free gap c) =
    Chain.holds b p i ps out rest two (omega (arith, lt, le)) free
      (λ n l h. elim (Bool-cases (ltb n a)) [
        | inl y ↦ gap n l (ltb→lt n a y)
        | inr f ↦ Missed-append ps p a b m n (ground arith) h
      ])
      c
widen _ b _ _ _ le m (Chain.ends a k ps out e) = Chain.ends b k ps out e
widen _ b _ _ _ le m (Chain.broken a b' ps ps' out rest c) = Chain.broken b b' ps ps' out rest c

-- A chain that takes the next number that none of the list divides.
pub Takes-Chain :
    (i b : ℕ) (ps printed out : List ℕ) (c c' : List Process)
    → 2 ≤ i
    → i < b
    → divided ps i ≡ false
    → Missed ps (i + 1) b
    → Takes i c c' out
    → Chain i ps c printed
    → Chain b ps c' (printed ++ out)
Takes-Chain i b ps _ _ _ _ two lt free gap (Takes.first _) (Chain.idle _ _ e) =
    Chain.prints b i ps
      (ap (λ l. l ++ i ∷ []) e
        ∙ sym (primes_below-next i two (subst (λ l. divided l i ≡ false) e free)))
      lt gap
Takes-Chain i b ps _ _ _ _ two lt free gap (Takes.drops p rest d)
      (Chain.filters _ _ _ printed _ c) =
    let passed : Missed (ps ++ p ∷ []) i b = λ n l h. elim (Bool-cases (n == i)) [
      | inl y ↦
          let same : n ≡ i = ==→eq n i y in
          rw (same, divided-append ps p i) (or_true (divided ps i) (i % p == 0) d)
      | inr f ↦ Missed-append ps p (i + 1) b gap n (ground arith) h
    ] in
    subst (λ l. Chain b ps (filtering p ∷ rest) l) (sym (append_nil printed))
      (Chain.filters b p ps printed rest
        (widen i b (ps ++ p ∷ []) printed rest (omega (arith, lt)) passed c))
Takes-Chain i b ps _ _ _ _ two lt free gap (Takes.keeps p rest d)
      (Chain.filters _ _ _ printed _ c) =
    subst (λ l. Chain b ps (sending p i ∷ rest) l) (sym (append_nil printed))
      (Chain.holds b p i ps printed rest two lt (divided-append ps p i ∙ rw (free, d) refl)
        (Missed-append ps p (i + 1) b gap) c)

pub Move-Chain :
    (b : ℕ) (ps printed out : List ℕ) (c c' : List Process)
    → Move c c' out
    → Chain b ps c printed
    → Chain b ps c' (printed ++ out)
Move-Chain b ps _ _ _ _ (Move.forks p) (Chain.prints _ _ _ e lt gap) =
    let all : ps ++ p ∷ [] ≡ primes_below b =
      primes_below-range (ps ++ p ∷ []) (p + 1) (b - (p + 1)) e
        (λ n l h. Missed-append ps p (p + 1) b gap n l (omega (arith, h, lt)))
      ∙ ap primes_below (omega (arith, lt)) in
    subst (λ l. Chain b ps (filtering p ∷ receiving ∷ []) l) (sym (append_nil (ps ++ p ∷ [])))
      (Chain.filters b p ps (ps ++ p ∷ []) (receiving ∷ []) (Chain.idle b (ps ++ p ∷ []) all))
Move-Chain b ps _ _ _ _ (Move.fork_fails p) (Chain.prints _ _ _ e lt gap) =
    Chain.ends b (p + 1) ps ((ps ++ p ∷ []) ++ []) (append_nil (ps ++ p ∷ []) ∙ e)
Move-Chain b ps _ _ _ _ (Move.sends p i rest rest' out t)
      (Chain.holds _ _ _ _ printed _ two lt free gap c) =
    Chain.filters b p ps (printed ++ out) rest'
      (Takes-Chain i b (ps ++ p ∷ []) printed out rest rest' two lt free gap t c)
Move-Chain b ps _ _ _ _ (Move.send_fails p i rest)
      (Chain.holds _ _ _ _ printed _ two lt free gap c) =
    Chain.broken b i ps (ps ++ p ∷ []) (printed ++ []) (exited ∷ rest)
      (subst (λ l. Chain i (ps ++ p ∷ []) (exited ∷ rest) l) (sym (append_nil printed)) c)
Move-Chain b ps _ _ _ _ (Move.inside _ rest rest' out m) (Chain.filters _ p _ printed _ c) =
    Chain.filters b p ps (printed ++ out) rest'
      (Move-Chain b (ps ++ p ∷ []) printed out rest rest' m c)
Move-Chain b ps _ _ _ _ (Move.inside _ rest rest' out m)
      (Chain.holds _ p i _ printed _ two lt free gap c) =
    Chain.holds b p i ps (printed ++ out) rest' two lt free gap
      (Move-Chain i (ps ++ p ∷ []) printed out rest rest' m c)
Move-Chain b ps _ _ _ _ (Move.inside _ rest rest' out m) (Chain.broken _ b' _ ps' printed _ c) =
    Chain.broken b b' ps ps' (printed ++ out) rest' (Move-Chain b' ps' printed out rest rest' m c)
Move-Chain b ps _ _ _ _ (Move.inside _ _ rest' out m) (Chain.idle _ _ _) = elim m [ ]
Move-Chain b ps _ _ _ _ (Move.inside _ _ rest' out m) (Chain.prints _ p _ e lt gap) = elim m [ ]
Move-Chain b ps _ _ _ _ (Move.inside _ _ rest' out m) (Chain.ends _ _ _ _ _) = elim m [ ]
