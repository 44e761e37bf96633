-- ===== src/User/Primes.antt =====
-- user/primes.c: the sieve of processes, as interleavings of the steps between which another process can
-- run. A message goes over when the sender is in ipc_send and its right neighbour is in ipc_recv. The
-- C `int` stays below 2^31: the generator takes no step that would overflow it.
pub mod Numbers
pub mod Chain
pub mod Output
use jos.Base.{ℕ, suc, ◌+◌, ◌%◌, ◌<◌, ◌≡◌, Bool, true, false, List, [], ◌∷◌, ◌++◌, ◌==◌}

-- Where a process of the chain is: in the first ipc_recv, after `top`; past it and the output of `p`,
-- before fork(); in the ipc_recv of the loop; in ipc_send with `i`; gone, by panic().
pub data Process : Type 0 where
  receiving exited : Process
  forking filtering : ℕ → Process
  sending : ℕ → ℕ → Process

-- `i` of the loop of umain, the chain from its left end on, and the numbers that were printed.
pub record Sieve : Type 0 where
  pub next : ℕ
  pub chain : List Process
  pub printed : List ℕ

-- What the left end of a chain does with a number: the chain before and after, and what it prints.
pub data Takes (i : ℕ) : List Process → List Process → List ℕ → Type 0 where
  first : (rest : List Process) → Takes i (receiving ∷ rest) (forking i ∷ rest) (i ∷ [])
  drops :
      (p : ℕ) (rest : List Process)
      → (i % p == 0) ≡ true
      → Takes i (filtering p ∷ rest) (filtering p ∷ rest) []
  keeps :
      (p : ℕ) (rest : List Process)
      → (i % p == 0) ≡ false
      → Takes i (filtering p ∷ rest) (sending p i ∷ rest) []

-- A step of a process of the chain. fork() may fail; a send to a process that is gone makes ipc_send
-- panic.
pub data Move : List Process → List Process → List ℕ → Type 0 where
  forks : (p : ℕ) → Move (forking p ∷ []) (filtering p ∷ receiving ∷ []) []
  fork_fails : (p : ℕ) → Move (forking p ∷ []) (exited ∷ []) []
  sends :
      (p i : ℕ) (rest rest' : List Process) (out : List ℕ)
      → Takes i rest rest' out
      → Move (sending p i ∷ rest) (filtering p ∷ rest') out
  send_fails :
      (p i : ℕ) (rest : List Process)
      → Move (sending p i ∷ exited ∷ rest) (exited ∷ exited ∷ rest) []
  inside :
      (q : Process) (rest rest' : List Process) (out : List ℕ)
      → Move rest rest' out
      → Move (q ∷ rest) (q ∷ rest') out

-- umain's loop sends a number, or a process of the chain takes a step.
pub data Step : Sieve → Sieve → Type 0 where
  feeds :
      (s : Sieve) (chain' : List Process) (out : List ℕ)
      → s.next + 1 < 0x8000_0000
      → Takes s.next s.chain chain' out
      → Step s (record { next = s.next + 1; chain = chain'; printed = s.printed ++ out })
  moves :
      (s : Sieve) (chain' : List Process) (out : List ℕ)
      → Move s.chain chain' out
      → Step s (record s { chain = chain'; printed = s.printed ++ out })

-- After the fork of umain.
unfoldable pub forked : Sieve
forked = record { next = 2; chain = receiving ∷ []; printed = [] }

pub data Reach : Sieve → Type 0 where
  start : Reach forked
  later : (s s' : Sieve) → Reach s → Step s s' → Reach s'
