-- ===== src/Tests/Devices.antt =====
-- Examples for the screen, the keyboard, the line reader and the table of processors.
use jos.Base.{
  All, length, ◌≤◌, ℕ, ◌+◌, ◌≡◌, ◌<◌, refl, false, true, some, [], ◌∷◌, get_or, if◌then◌else◌, ◌==◌,
  arith,
}
use jos.Console.Screen.{Screen, cputchars}
use jos.Console.Screen.Shown.{Shown, cputchars-Shown}
use jos.Print.Cprintf.{vcprintf}
use jos.Print.Cprintf.OnScreen.{IsPlain, vcprintf-shown}
use jos.Monitor.{Parsed, parse_args}
use jos.Monitor.Args.{Words, parse_args-Words}
use jos.Console.Keyboard.{Kbd}
use jos.Readline.{readline}
use jos.Readline.Edited.{Agrees, edited, readline-edited}
use jos.Mp.{PhysMemory, Mp, mp_init}
use jos.Mp.Numbered.{Numbered, Returns, mp_init-Numbered}

-- One cell before the end of the screen.
abbrev at_end : Screen
at_end = record { crt_buf = λ i. 0x0720; crt_pos = 1999; cursor = 1999; sent = [] }

-- A tab, a line end, an erase and a letter.
cputchars-Shown_example : Shown at_end (cputchars (9 ∷ 10 ∷ 8 ∷ 97 ∷ []) at_end)
cputchars-Shown_example = cputchars-Shown 9 (10 ∷ 8 ∷ 97 ∷ []) at_end (omega arith)

ab-IsPlain : All IsPlain (97 ∷ 98 ∷ [])
ab-IsPlain = (
  ((omega arith, omega arith), λ e. omega (arith, e)),
  (((omega arith, omega arith), λ e. omega (arith, e)), tt),
)

abbrev at_top : Screen
at_top = record { crt_buf = λ i. 0x0720; crt_pos = 3; cursor = 3; sent = [] }

vcprintf-shown_example :
    (s' : Screen) × (vcprintf 3 (97 ∷ 98 ∷ 0 ∷ []) [] at_top ≡ some (0, s'))
    × ((j : ℕ) → j < 2 → s'.crt_buf (3 + j) ≡ 0x0700 + get_or (97 ∷ 98 ∷ []) j 0)
    × ((i : ℕ) → i < 3 → s'.crt_buf i ≡ 0x0720)
    × (s'.crt_pos ≡ 5)
    × (s'.sent ≡ 97 ∷ 98 ∷ [])
vcprintf-shown_example =
    vcprintf-shown (97 ∷ 98 ∷ []) 3 at_top ab-IsPlain (omega arith) (omega arith)

-- "ab  c"
abbrev line : ℕ → ℕ
line i =
    if i == 0 then 97 else if i == 1 then 98 else if i == 4 then 99 else if i == 5 then 0 else 32

parse_args-Words_example :
    (p : Parsed) × (parse_args 80 80 0 line [] ≡ some p)
    × Words line p.line 0 p.argv p.too_many
    × (length p.argv ≤ 15)
    × (p.too_many ≡ true → length p.argv ≡ 15)
parse_args-Words_example = parse_args-Words 80 5 line refl (omega arith)

-- Caps lock, with a shift key held.
abbrev shifted : Kbd
shifted = record { shift = 1; rebooting = false }

-- "ab", an erase, "c" and a line end.
readline-edited_example :
    Agrees
      (readline true [] (λ i. 0) (97 ∷ 98 ∷ 8 ∷ 99 ∷ 13 ∷ []))
      (edited [] (97 ∷ 98 ∷ 8 ∷ 99 ∷ 13 ∷ []))
readline-edited_example = readline-edited true [] (λ i. 0) (97 ∷ 98 ∷ 8 ∷ 99 ∷ 13 ∷ [])

abbrev no_cpus : Mp
no_cpus = record {
  cpu_id = λ i. 0;
  cpu_status = λ i. 0;
  bootcpu = 0;
  ismp = false;
  ncpu = 0;
  lapicaddr = 0;
  imcr_set = false;
}

no_cpus-Numbered : Numbered no_cpus
no_cpus-Numbered = record {
  few = omega arith;
  own_id = λ i l. absurd (omega arith);
  first = refl;
  boot = omega arith;
}

-- A pointer structure at the start of the extended BIOS data area, with its checksum.
abbrev bios : PhysMemory
bios = record {
  npages = 0x1000;
  byte = λ a.
      if a == 0x40F
      then 0x90
      else if a == 0x9_0000
      then 95
      else if a == 0x9_0001
      then 77
      else if a == 0x9_0002
      then 80
      else if a == 0x9_0003
      then 95
      else if a == 0x9_000A
      then 165
      else 0;
}

mp_init-Numbered_example : Returns Numbered (mp_init bios no_cpus)
mp_init-Numbered_example = mp_init-Numbered bios no_cpus no_cpus-Numbered
