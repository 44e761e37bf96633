-- ===== src/User/Primes/Output.antt =====
-- What the sieve of user/primes.c prints, and that it goes on.
use jos.Base.{
  ℕ, ◌+◌, ◌%◌, ◌<◌, ◌≤◌, ◌≡◌, refl, sym, List, [], ◌∷◌, All, ◌⊎◌, ◌≢◌, ◌++◌, ◌==◌, Bool-cases, inl,
  inr, arith,
}
use jos.User.Primes.{Process, Sieve, Takes, Move, Step, Reach, forked}
use jos.User.Primes.Process.{receiving, exited, forking, filtering, sending}
use jos.User.Primes.Numbers.{primes_below, divided, primes_below-two}
use jos.User.Primes.Chain.{Chain, Chain-primes_below, Takes-Chain, Move-Chain}

Reach-Chain : (s : Sieve) → Reach s → (2 ≤ s.next) × Chain s.next [] s.chain s.printed
unfolding forked divided
Reach-Chain _ Reach.start = (omega arith, Chain.idle 2 [] (sym primes_below-two))
Reach-Chain _ (Reach.later s _ r (Step.feeds _ chain' out lt t)) =
    let (two, c) = Reach-Chain s r in
    (
      omega (arith, two),
      Takes-Chain s.next (s.next + 1) [] s.printed out s.chain chain' two (omega arith) refl
          (λ n l h. absurd (omega (arith, l, h))) t c,
    )
Reach-Chain _ (Reach.later s _ r (Step.moves _ chain' out m)) =
    let (two, c) = Reach-Chain s r in (two, Move-Chain s.next [] s.printed out s.chain chain' m c)

-- Whatever the order of the processes' steps, and whether forks fail or not, what the sieve has printed
-- in a state that it can reach is the list of the prime numbers below some bound, in order: no other
-- number is printed, none twice, and none is left out.
pub primes-Numbers : (s : Sieve) → Reach s → (b : ℕ) × (s.printed ≡ primes_below b)
primes-Numbers s r =
    let (two, c) = Reach-Chain s r in Chain-primes_below s.next [] s.printed s.chain c

-- No process of the chain is gone.
abbrev pub IsComplete : List Process → Type 0
IsComplete = All (λ q. q ≢ exited)

-- The left end takes a number, or a process of the chain has a step.
Chain-progress :
    (i b : ℕ) (ps out : List ℕ) (c : List Process)
    → IsComplete c
    → Chain b ps c out
    → ((c' : List Process) × (o : List ℕ) × Takes i c c' o)
      ⊎ ((c' : List Process) × (o : List ℕ) × Move c c' o)
Chain-progress i _ _ _ _ all (Chain.idle b ps _) = inl (forking i ∷ [], i ∷ [], Takes.first [])
Chain-progress i _ _ _ _ all (Chain.prints b p ps _ _ _) =
    inr (filtering p ∷ receiving ∷ [], [], Move.forks p)
Chain-progress i _ _ _ _ all (Chain.filters b p ps out rest c) = elim (Bool-cases (i % p == 0)) [
  | inl d ↦ inl (filtering p ∷ rest, [], Takes.drops p rest d)
  | inr k ↦ inl (sending p i ∷ rest, [], Takes.keeps p rest k)
]
Chain-progress i _ _ _ _ all (Chain.holds b p j ps out rest _ _ _ _ c) =
    elim (Chain-progress j j (ps ++ p ∷ []) out rest all.1 c) [
      | inl (rest', o, t) ↦ inr (filtering p ∷ rest', o, Move.sends p j rest rest' o t)
      | inr (rest', o, m) ↦ inr (sending p j ∷ rest', o, Move.inside (sending p j) rest rest' o m)
    ]
Chain-progress i _ _ _ _ all (Chain.ends b m ps out e) = absurd (all.0 refl)
Chain-progress i _ _ _ _ all (Chain.broken b b' ps ps' out rest c) = absurd (all.0 refl)

-- The sieve does not stop by itself: in a state that it can reach, in which no process is gone and the
-- generator's number is below 2^31 - 1, a step is possible.
pub primes-progress :
    (s : Sieve) → Reach s → IsComplete s.chain → s.next + 1 < 0x8000_0000 → (s' : Sieve) × Step s s'
primes-progress s r all lt =
    let (two, c) = Reach-Chain s r in
    elim (Chain-progress s.next s.next [] s.printed s.chain all c) [
      | inl (chain', o, t) ↦ (_, Step.feeds s chain' o lt t)
      | inr (chain', o, m) ↦ (_, Step.moves s chain' o m)
    ]
