-- ===== src/Print/Cprintf/Messages.antt =====
-- Calls of cprintf in the kernel, as data: the format and the arguments of each.
use jos.Base.{ℕ, ◌+◌, Option, none, some, List, [], ◌∷◌, ◌++◌, length}
use jos.Console.Screen.{Screen}
use jos.Print.Format.{Arg, string_arg}
use jos.Print.Cprintf.{vcprintf}

pub record Message : Type 0 where
  pub fmt : List ℕ
  pub args : List Arg

-- A string argument, with its 0.
abbrev pub text_arg : List ℕ → Arg
text_arg s = string_arg (some (s ++ 0 ∷ []))

-- The screen after the calls; a format ends with a 0. Its length is fuel enough for vprintfmt.
unfoldable pub show_all : List Message → Screen → Option Screen
unfolding vcprintf
show_all [] s = some s
show_all (m ∷ rest) s = elim (vcprintf (length m.fmt + 2) (m.fmt ++ 0 ∷ []) m.args s) [
  | none ↦ none
  | some (n, s') ↦ show_all rest s'
]
