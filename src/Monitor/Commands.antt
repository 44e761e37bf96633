-- ===== src/Monitor/Commands.antt =====
-- The commands of kern/monitor.c, as the calls of cprintf that they make, and the loop of monitor.
pub mod Faults
use jos.Base.{
  ℕ, zero, suc, ◌+◌, ◌/◌, Bool, true, false, Option, none, some, List, [], ◌∷◌, ◌++◌, ◌==◌,
  if◌then◌else◌, codes, round_up, sub32, add32,
}
use jos.Mmu.{kernbase}
use jos.Print.Format.{int_arg}
use jos.Print.Cprintf.Messages.{Message, text_arg}
use jos.Monitor.{Command, runcmd}
use jos.Trap.Printed.{text_line, word_line}

abbrev pub help_line : List ℕ → List ℕ → Message
help_line name desc = record { fmt = codes "%s - %s\n"; args = text_arg name ∷ text_arg desc ∷ [] }

unfoldable pub help_messages : List Message
help_messages =
    help_line (codes "help") (codes "Display this list of commands")
    ∷ help_line (codes "kerninfo") (codes "Display information about the kernel")
    ∷ help_line (codes "backtrace") (codes "print stack")
    ∷ []

-- An address that is linked, and the physical one.
abbrev pub symbol_line : List ℕ → ℕ → Message
symbol_line fmt a = record { fmt = fmt; args = int_arg a ∷ int_arg (sub32 a kernbase) ∷ [] }

-- The symbols that the linker sets are arguments.
unfoldable pub kerninfo_messages : ℕ → ℕ → ℕ → ℕ → ℕ → List Message
kerninfo_messages start entry etext edata kernel_end =
    text_line (codes "Special kernel symbols:\n")
    ∷ word_line (codes "  _start                  %08x (phys)\n") start
    ∷ symbol_line (codes "  entry  %08x (virt)  %08x (phys)\n") entry
    ∷ symbol_line (codes "  etext  %08x (virt)  %08x (phys)\n") etext
    ∷ symbol_line (codes "  edata  %08x (virt)  %08x (phys)\n") edata
    ∷ symbol_line (codes "  end    %08x (virt)  %08x (phys)\n") kernel_end
    ∷ word_line (codes "Kernel executable memory footprint: %dKB\n")
        (round_up (sub32 kernel_end entry) 1024 / 1024)
    ∷ []

-- How mon_backtrace ends: it returns, a load faults, or the rounds are over.
pub data Walk : Type 0 where
  returned : List Message → Walk
  page_fault more_frames : Walk

abbrev pub with_load : Option ℕ → (ℕ → Walk) → Walk
with_load none f = page_fault
with_load (some w) f = f w

abbrev pub after_frame : List Message → Walk → Walk
after_frame ms (returned rest) = returned (ms ++ rest)
after_frame ms page_fault = page_fault
after_frame ms more_frames = more_frames

-- The words `*(ebp + i + 2)` that are printed, with `n` rounds left.
unfoldable pub arg_lines : (ℕ → Option ℕ) → ℕ → ℕ → Option (List Message)
arg_lines load zero a = some []
arg_lines load (suc n) a =
    let rest = arg_lines load n (add32 a 4) in
    elim (load a) [
      | none ↦ none
      | some w ↦ elim rest [ none ↦ none | some ms ↦ some (word_line (codes "%08x ") w ∷ ms) ]
    ]

abbrev pub frame_lines : (ℕ → Option ℕ) → ℕ → ℕ → Option (List Message)
frame_lines load ebp eip = elim (arg_lines load 5 (add32 ebp 8)) [
  | none ↦ none
  | some ms ↦ some (
      record { fmt = codes "ebp %08x  eip %08x"; args = int_arg ebp ∷ int_arg eip ∷ [] }
      ∷ text_line (codes "    arg ")
      ∷ (ms ++ (text_line (codes "\n") ∷ [])))
]

-- The loop, with `n` rounds left. `load` reads a word at a virtual address.
unfoldable pub walk_frames : (ℕ → Option ℕ) → ℕ → ℕ → ℕ → Walk
unfolding arg_lines
walk_frames load zero ebp eip = more_frames
walk_frames load (suc n) ebp eip = elim (ebp == 0) [
  | true ↦ returned []
  | false ↦ elim (frame_lines load ebp eip) [
    | none ↦ page_fault
    | some ms ↦ with_load (load ebp) (λ next.
        with_load (load (add32 next 4)) (λ ret_at. after_frame ms (walk_frames load n next ret_at)))
  ]
]

-- `ebp` is what read_ebp returns.
unfoldable pub backtrace : (ℕ → Option ℕ) → ℕ → ℕ → Walk
unfolding walk_frames
backtrace load rounds ebp = with_load (load (add32 ebp 4)) (λ eip.
    after_frame (text_line (codes "Stack backtrace:") ∷ []) (walk_frames load rounds ebp eip))

-- monitor, on what readline returns: the commands that run. None of them returns a negative number, so
-- that the loop goes on.
unfoldable pub monitor : ℕ → List (Option (ℕ → ℕ)) → List (Option Command)
monitor n [] = []
monitor n (none ∷ lines) = monitor n lines
monitor n (some buf ∷ lines) = runcmd n buf ∷ monitor n lines
