-- ===== src/Console/Screen.antt =====
-- The screen of kern/console.c: cga_putc, cons_putc and cputchar. A character is the int that is
-- passed, as its bit pattern; the screen's memory is the cells from `crt_buf` on.
pub mod Shown
use jos.Base.{
  ℕ, ◌+◌, ◌-◌, ◌*◌, ◌%◌, ◌/◌, List, [], ◌∷◌, ◌++◌, ltb, leb, ◌==◌, ◌&&◌, if◌then◌else◌, update,
  bit_or,
}

abbrev pub crt_cols : ℕ
crt_cols = 80

abbrev pub crt_size : ℕ
crt_size = 25 * crt_cols

-- `crt_buf`, `crt_pos`, the cursor of the controller, and what serial_putc and lpt_putc were given.
pub record Screen : Type 0 where
  pub crt_buf : ℕ → ℕ
  pub crt_pos : ℕ
  pub cursor : ℕ
  pub sent : List ℕ

-- `crt_pos` has 16 bits.
abbrev pub move_to : ℕ → Screen → Screen
move_to pos s = record s { crt_pos = pos % 65536 }

-- `c |= 0x0700` where no attribute is given
abbrev pub with_attribute : ℕ → ℕ
with_attribute c = if c / 256 == 0 then bit_or c 0x0700 else c

abbrev pub line_start : Screen → Screen
line_start s = move_to (s.crt_pos - s.crt_pos % crt_cols) s

abbrev pub backspace : ℕ → Screen → Screen
backspace c s =
    if ltb 0 s.crt_pos
    then record s {
      crt_pos = s.crt_pos - 1;
      crt_buf = update s.crt_buf (s.crt_pos - 1) (bit_or (c - c % 256) b' ' % 65536);
    }
    else s

-- The cases of the switch but '\t'.
unfoldable pub put_cell : ℕ → Screen → Screen
put_cell c s =
    if c % 256 == 8
    then backspace c s
    else if c % 256 == b'\n'
    then line_start (move_to (s.crt_pos + crt_cols) s)
    else if c % 256 == b'\r'
    then line_start s
    else move_to (s.crt_pos + 1) (record s { crt_buf = update s.crt_buf s.crt_pos (c % 65536) })

-- The cells after the move up by one line.
abbrev pub moved_up : (ℕ → ℕ) → ℕ → ℕ
moved_up buf i =
    if ltb i (crt_size - crt_cols)
    then buf (i + crt_cols)
    else if ltb i crt_size
    then bit_or 0x0700 b' '
    else buf i

unfoldable pub scroll : Screen → Screen
scroll s =
    if leb crt_size s.crt_pos
    then record s { crt_buf = moved_up s.crt_buf; crt_pos = s.crt_pos - crt_cols }
    else s

-- The two halves of `crt_pos` that go to the registers 14 and 15.
abbrev pub show_cursor : Screen → Screen
show_cursor s = record s { cursor = s.crt_pos / 256 * 256 + s.crt_pos % 256 }

abbrev pub send : ℕ → Screen → Screen
send c s = record s { sent = s.sent ++ c ∷ [] }

-- cons_putc(' '), where cga_putc does not come to the case of '\t'
unfoldable pub put_space : Screen → Screen
unfolding put_cell scroll
put_space s = show_cursor (scroll (put_cell (with_attribute b' ') (send b' ' s)))

unfoldable pub cga_putc : ℕ → Screen → Screen
unfolding put_space put_cell scroll
cga_putc c s = show_cursor (
    scroll (
      if with_attribute c % 256 == b'\t'
      then put_space (put_space (put_space (put_space (put_space s))))
      else put_cell (with_attribute c) s))

unfoldable pub cons_putc : ℕ → Screen → Screen
unfolding cga_putc
cons_putc c s = cga_putc c (send c s)

-- cputchar for each character of a text
unfoldable pub cputchars : List ℕ → Screen → Screen
unfolding cons_putc
cputchars [] s = s
cputchars (c ∷ cs) s = cputchars cs (cons_putc c s)
