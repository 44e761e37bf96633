-- ===== src/Print/Cprintf.antt =====
-- kern/printf.c: cprintf of the kernel, on the screen of kern/console.c.
pub mod OnScreen
pub mod Messages
use jos.Base.{ℕ, Option, none, some, List, [], ◌∷◌}
use jos.Console.Screen.{Screen, cons_putc}
use jos.Print.Format.{Arg, printed, fault, out_of_fuel, vprintfmt}

-- `*cnt++` moves the pointer that is passed, not what it points to: the counter stays.
unfoldable pub putch : ℕ → ℕ × Screen → ℕ × Screen
putch ch (cnt, s) = (cnt, cons_putc ch s)

unfoldable pub put_each : List ℕ → ℕ × Screen → ℕ × Screen
unfolding putch
put_each [] state = state
put_each (c ∷ cs) state = put_each cs (putch c state)

-- The result and the screen; `none` where vprintfmt is not followed to its end.
unfoldable pub vcprintf : ℕ → List ℕ → List Arg → Screen → Option (ℕ × Screen)
unfolding put_each
vcprintf fuel fmt ap s = elim (vprintfmt fuel fmt ap) [
  | printed out ↦ some (put_each out (0, s))
  | fault ↦ none
  | out_of_fuel ↦ none
]
