-- ===== src/Print/Format/Escape.antt =====
-- The part of vprintfmt of lib/printfmt.c between '%' and the conversion: flags, width, precision.
-- `width` and `precision` are ints of which only the sign matters below 0: `none` stands for those.
use jos.Base.{
  ℕ, ◌+◌, ◌-◌, ◌*◌, ◌%◌, ◌^◌, Bool, true, false, ◌&&◌, Option, none, some, List, [], ◌∷◌, ltb, leb,
  ◌==◌, if◌then◌else◌, word,
}

pub data Arg : Type 0 where
  int_arg : ℕ → Arg
  string_arg : Option (List ℕ) → Arg

-- `padc`, `width`, `precision`, `lflag`, `altflag`
pub record Spec : Type 0 where
  pub padc : ℕ
  pub width : Option ℕ
  pub precision : Option ℕ
  pub lflag : ℕ
  pub altflag : Bool

abbrev pub at_start : Spec
at_start = record { padc = b' '; width = none; precision = none; lflag = 0; altflag = false }

abbrev pub is_neg : Option ℕ → Bool
is_neg none = true
is_neg (some n) = false

abbrev pub at_least_zero : Option ℕ → ℕ
at_least_zero none = 0
at_least_zero (some n) = n

-- An `int` as the sign test of the source sees it.
abbrev pub as_int : ℕ → Option ℕ
as_int n = if ltb (n % word) (2 ^ 31) then some (n % word) else none

-- process_precision
unfoldable pub process_precision : Option ℕ → Spec → Spec
process_precision n sp =
    if is_neg sp.width
    then record sp { width = n; precision = none }
    else record sp { precision = n }

-- The number that is being read, if there is one, is taken when another character comes.
abbrev pub settle : Option ℕ → Spec → Spec
settle none sp = sp
settle (some n) sp = process_precision (some n) sp

abbrev pub is_digit : ℕ → Bool
is_digit c = leb b'0' c && leb c b'9'

abbrev pub next_digit : Option ℕ → ℕ → Option ℕ
next_digit none c = none
next_digit (some n) c = if is_digit c then some (n * 10 + c - b'0') else none

-- One character of a specification: read on, with the number being read; or it is the conversion;
-- or an argument is missing.
pub data SpecStep : Type 0 where
  read_on : Option ℕ → Spec → List Arg → SpecStep
  conversion : Spec → SpecStep
  missing : SpecStep

abbrev pub star : Spec → List Arg → SpecStep
star sp (int_arg n ∷ args) = read_on none (process_precision (as_int n) sp) args
star sp (string_arg p ∷ args) = missing
star sp [] = missing

-- The cases of the switch that go back to `reswitch`.
unfoldable pub flag : ℕ → Spec → List Arg → SpecStep
flag c sp args =
    if c == b'-'
    then read_on none (record sp { padc = b'-' }) args
    else if c == b'0'
    then read_on none (record sp { padc = b'0' }) args
    else if is_digit c
    then read_on (some (c - b'0')) sp args
    else if c == b'*'
    then star sp args
    else if c == b'.'
    then read_on none (record sp { width = some (at_least_zero sp.width) }) args
    else if c == b'#'
    then read_on none (record sp { altflag = true }) args
    else if c == b'l'
    then read_on none (record sp { lflag = sp.lflag + 1 }) args
    else conversion sp

unfoldable pub spec_step : ℕ → Option ℕ → Spec → List Arg → SpecStep
spec_step c number sp args = elim (next_digit number c) [
  | some n ↦ read_on (some n) sp args
  | none ↦ flag c (settle number sp) args
]

-- From `reswitch` to the conversion: its character, the specification, and what is left.
unfoldable pub parse_spec :
    List ℕ → Option ℕ → Spec → List Arg → Option (ℕ × Spec × List ℕ × List Arg)
parse_spec [] number sp args = none
parse_spec (c ∷ fmt) number sp args = elim (spec_step c number sp args) [
  | read_on number' sp' args' ↦ parse_spec fmt number' sp' args'
  | conversion sp' ↦ some (c, sp', fmt, args)
  | missing ↦ none
]
