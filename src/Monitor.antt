-- ===== src/Monitor.antt =====
-- runcmd of kern/monitor.c. The line is an array that ends with a 0; an element of `argv` is an index
-- into it. A loop that runs out of its fuel has no result.
pub mod Scan
pub mod Args
pub mod Commands
use jos.Base.{
  ℕ, zero, suc, ◌+◌, ◌-◌, Bool, true, false, Option, none, some, List, [], ◌∷◌, ◌++◌, ◌&&◌, ◌||◌,
  not, ◌==◌, if◌then◌else◌, update, length, bytes, codes,
}
use jos.Str.{strcmp, Order, equal}

abbrev pub maxargs : ℕ
maxargs = 16

-- `strchr(WHITESPACE, c)`
abbrev pub is_white : ℕ → Bool
is_white c = c == b'\t' || c == b'\r' || c == b'\n' || c == b' '

abbrev pub is_blank : ℕ → Bool
is_blank c = not (c == 0) && is_white c

abbrev pub in_word : ℕ → Bool
in_word c = not (c == 0) && not (is_white c)

-- `while (*buf && strchr(WHITESPACE, *buf)) *buf++ = 0`
unfoldable pub gobble : ℕ → ℕ → (ℕ → ℕ) → Option (ℕ × (ℕ → ℕ))
gobble zero pos buf = none
gobble (suc fuel) pos buf =
    let rest = gobble fuel (pos + 1) (update buf pos 0) in
    if is_blank (buf pos) then rest else some (pos, buf)

-- `while (*buf && !strchr(WHITESPACE, *buf)) buf++`
unfoldable pub skip_word : ℕ → ℕ → (ℕ → ℕ) → Option ℕ
skip_word zero pos buf = none
skip_word (suc fuel) pos buf =
    let rest = skip_word fuel (pos + 1) buf in if in_word (buf pos) then rest else some pos

-- The arguments, the line with its zeros, and whether there were too many.
pub record Parsed : Type 0 where
  pub argv : List ℕ
  pub line : ℕ → ℕ
  pub too_many : Bool

-- The loop; the inner loops are given `n` rounds.
unfoldable pub parse_args : ℕ → ℕ → ℕ → (ℕ → ℕ) → List ℕ → Option Parsed
unfolding gobble skip_word
parse_args n zero pos buf argv = none
parse_args n (suc fuel) pos buf argv = elim (gobble n pos buf) [
  | none ↦ none
  | some (a, buf') ↦
      if buf' a == 0
      then some (record { argv = argv; line = buf'; too_many = false })
      else if length argv == maxargs - 1
      then some (record { argv = argv; line = buf'; too_many = true })
      else elim (skip_word n a buf') [
        | none ↦ none
        | some b ↦ parse_args n fuel b buf' (argv ++ a ∷ [])
      ]
]

-- What runcmd does: nothing, the message on too many arguments or on an unknown command, or a call
-- of the function of a command.
pub data Command : Type 0 where
  nothing : Command
  too_many_args : Command
  unknown_command : Command
  mon_help mon_kerninfo mon_backtrace : ℕ → List ℕ → Command

abbrev pub named : List ℕ → List ℕ → Bool
named text name = elim (strcmp text (name ++ 0 ∷ [])) [
  | none ↦ false
  | some o ↦ elim o [ equal ↦ true | _ ↦ false ]
]

-- The command of the name, with `argc` and `argv`.
unfoldable pub lookup : List ℕ → List ℕ → Command
lookup text argv =
    if named text (codes "help")
    then mon_help (length argv) argv
    else if named text (codes "kerninfo")
    then mon_kerninfo (length argv) argv
    else if named text (codes "backtrace")
    then mon_backtrace (length argv) argv
    else unknown_command

abbrev pub run_parsed : ℕ → Parsed → Command
run_parsed n p =
    if p.too_many
    then too_many_args
    else elim p.argv [ [] ↦ nothing | a ∷ rest ↦ lookup (bytes p.line a n) (a ∷ rest) ]

-- The line has fewer than `n` bytes with its 0.
unfoldable pub runcmd : ℕ → (ℕ → ℕ) → Option Command
unfolding parse_args lookup
runcmd n buf = elim (parse_args n n 0 buf []) [ none ↦ none | some p ↦ some (run_parsed n p) ]
