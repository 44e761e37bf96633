-- ===== src/Console.antt =====
-- The input buffer of kern/console.c. `cons_intr` reads a device until it answers -1: what the
-- device answers before that is a list. The screen and the keyboard of the file are in Screen and
-- Keyboard.
pub mod Fifo
pub mod Keyboard
pub mod Screen
pub mod Ports
use jos.Base.{ℕ, ◌+◌, ◌%◌, List, [], ◌∷◌, not, ◌==◌, if◌then◌else◌, update}

-- `cons`: CONSBUFSIZE bytes and two positions.
pub record Cons : Type 0 where
  pub buf : ℕ → ℕ
  pub rpos : ℕ
  pub wpos : ℕ

abbrev pub consbufsize : ℕ
consbufsize = 512

-- `if (++pos == CONSBUFSIZE) pos = 0`
abbrev pub advance : ℕ → ℕ
advance i = if i + 1 == consbufsize then 0 else i + 1

-- `cons.buf[cons.wpos++] = c`, with the wrap of the position.
abbrev pub put_char : ℕ → Cons → Cons
put_char c k = record k { buf = update k.buf k.wpos (c % 256); wpos = advance k.wpos }

unfoldable pub cons_intr : List ℕ → Cons → Cons
cons_intr [] k = k
cons_intr (c ∷ cs) k = cons_intr cs (if c == 0 then k else put_char c k)

-- `serial` and `kbd` are what the two devices hold when they are polled; 0 means no input.
unfoldable pub cons_getc : List ℕ → List ℕ → Cons → ℕ × Cons
unfolding cons_intr
cons_getc serial kbd k0 =
    let k = cons_intr kbd (cons_intr serial k0) in
    if not (k.rpos == k.wpos) then (k.buf k.rpos, record k { rpos = advance k.rpos }) else (0, k)
