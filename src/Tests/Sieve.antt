-- ===== src/Tests/Sieve.antt =====
-- An example for the sieve of user/primes.c: the numbers 2, 3 and 4 are sent.
use jos.Base.{ℕ, ◌≡◌, refl, [], ◌∷◌, arith}
use jos.User.Primes.{Sieve, Takes, Move, Step, Reach, forked}
use jos.User.Primes.Process.{receiving, forking, filtering, sending}
use jos.User.Primes.Numbers.{primes_below}
use jos.User.Primes.Output.{IsComplete, primes-Numbers}

abbrev two_printed : Sieve
two_printed = record { next = 3; chain = forking 2 ∷ []; printed = 2 ∷ [] }

abbrev two_forked : Sieve
two_forked = record two_printed { chain = filtering 2 ∷ receiving ∷ [] }

abbrev three_passed : Sieve
three_passed = record { next = 4; chain = sending 2 3 ∷ receiving ∷ []; printed = 2 ∷ [] }

abbrev three_printed : Sieve
three_printed = record { next = 4; chain = filtering 2 ∷ forking 3 ∷ []; printed = 2 ∷ 3 ∷ [] }

abbrev four_dropped : Sieve
four_dropped = record three_printed { next = 5 }

two_sent : Step forked two_printed
unfolding forked
two_sent = Step.feeds forked (forking 2 ∷ []) (2 ∷ []) (omega arith) (Takes.first [])

two-Reach : Reach two_forked
two-Reach =
    Reach.later two_printed two_forked (Reach.later forked two_printed Reach.start two_sent)
      (Step.moves two_printed (filtering 2 ∷ receiving ∷ []) [] (Move.forks 2))

three-Reach : Reach three_printed
three-Reach =
    Reach.later three_passed three_printed
      (Reach.later two_forked three_passed two-Reach (
        Step.feeds two_forked (sending 2 3 ∷ receiving ∷ []) [] (omega arith)
          (Takes.keeps 2 (receiving ∷ []) refl)))
      (Step.moves three_passed (filtering 2 ∷ forking 3 ∷ []) (3 ∷ [])
        (Move.sends 2 3 (receiving ∷ []) (forking 3 ∷ []) (3 ∷ []) (Takes.first [])))

four-Reach : Reach four_dropped
four-Reach = Reach.later three_printed four_dropped three-Reach (
    Step.feeds three_printed (filtering 2 ∷ forking 3 ∷ []) [] (omega arith)
      (Takes.drops 2 (forking 3 ∷ []) refl))

primes-Numbers_example : (b : ℕ) × (four_dropped.printed ≡ primes_below b)
primes-Numbers_example = primes-Numbers four_dropped four-Reach

all_there : IsComplete four_dropped.chain
all_there = (ground arith, ground arith)
