-- ===== src/Startup/Panic.antt =====
-- _panic and _warn of kern/init.c and _panic of lib/panic.c: the calls of cprintf that they make.
use jos.Base.{ℕ, Bool, true, List, [], ◌∷◌, if◌then◌else◌, codes}
use jos.Print.Format.{Arg, int_arg}
use jos.Print.Cprintf.Messages.{Message, text_arg}

-- The first panic sets `panicstr` and prints; a later one prints nothing. Then the monitor runs for ever.
-- The result is the new `panicstr`, as whether it is set, and the messages.
unfoldable pub kernel_panic : Bool → ℕ → List ℕ → ℕ → List ℕ → List Arg → Bool × List Message
kernel_panic panicstr cpunum file line fmt ap = if panicstr then (true, []) else (
  true,
  record {
    fmt = codes "kernel panic on CPU %d at %s:%d: ";
    args = int_arg cpunum ∷ text_arg file ∷ int_arg line ∷ [];
  }
      ∷ record { fmt = fmt; args = ap }
      ∷ record { fmt = codes "\n"; args = [] }
      ∷ [],
)

unfoldable pub kernel_warn : List ℕ → ℕ → List ℕ → List Arg → List Message
kernel_warn file line fmt ap =
    record { fmt = codes "kernel warning at %s:%d: "; args = text_arg file ∷ int_arg line ∷ [] }
    ∷ record { fmt = fmt; args = ap }
    ∷ record { fmt = codes "\n"; args = [] }
    ∷ []

-- The program raises a breakpoint after it, again and again.
unfoldable pub user_panic_messages : ℕ → List ℕ → List ℕ → ℕ → List ℕ → List Arg → List Message
user_panic_messages envid binaryname file line fmt ap =
    record {
      fmt = codes "[%08x] user panic in %s at %s:%d: ";
      args = int_arg envid ∷ text_arg binaryname ∷ text_arg file ∷ int_arg line ∷ [];
    }
    ∷ record { fmt = fmt; args = ap }
    ∷ record { fmt = codes "\n"; args = [] }
    ∷ []
