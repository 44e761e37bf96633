-- ===== src/Tests/Text.antt =====
-- Examples for lib/string.c, lib/printfmt.c and the console buffer.
use jos.Base.{ℕ, ◌≡◌, List, [], ◌∷◌, arith}
use jos.Str.Mem.{memmove}
use jos.Str.Mem.Copy.{copied, memmove-copied}
use jos.Console.{Cons, cons_getc}
use jos.Console.Fifo.{Holds, kept, cons_getc-fifo}

abbrev ab : List ℕ
ab = 97 ∷ 98 ∷ []

abbrev ac : List ℕ
ac = 97 ∷ 99 ∷ []

memmove-copied_example : memmove 2 0 4 (λ i. i) 3 ≡ copied 4 2 0 (λ i. i) 3
memmove-copied_example = memmove-copied 2 0 4 (λ i. i) 3

-- An empty buffer, about to wrap.
abbrev no_input : Cons
no_input = record { buf = λ i. 0; rpos = 511; wpos = 511 }

no_input-Holds : Holds no_input []
no_input-Holds = record {
  rpos_below = omega arith;
  room = omega arith;
  wpos_at = omega arith;
  content = λ j h. absurd (omega arith);
}

cons_getc-fifo_example :
    ((cons_getc (97 ∷ 0 ∷ []) (98 ∷ []) no_input).0 ≡ 97)
    × Holds (cons_getc (97 ∷ 0 ∷ []) (98 ∷ []) no_input).1 (98 ∷ [])
unfolding kept
cons_getc-fifo_example =
    cons_getc-fifo (97 ∷ 0 ∷ []) (98 ∷ []) no_input [] no_input-Holds (omega arith) (omega arith)
