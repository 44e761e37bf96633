-- ===== src/Console/Keyboard.antt =====
-- kbd_proc_data of kern/console.c, with its tables of codes and the keys of inc/kbdreg.h. What the
-- keyboard holds is `none`, or the byte that it gives.
pub mod Keys
use jos.Base.{
  ℕ, ◌+◌, ◌-◌, Bool, true, false, Option, none, some, List, [], ◌∷◌, not, ◌&&◌, leb, ◌==◌,
  if◌then◌else◌, get_or, has, bit_and, bit_or,
}

-- SHIFT, CTL, ALT, CAPSLOCK, NUMLOCK, SCROLLLOCK, E0ESC
abbrev pub shift_key : ℕ
shift_key = 1

abbrev pub ctl_key : ℕ
ctl_key = 2

abbrev pub alt_key : ℕ
alt_key = 4

abbrev pub capslock : ℕ
capslock = 8

abbrev pub numlock : ℕ
numlock = 16

abbrev pub scrolllock : ℕ
scrolllock = 32

abbrev pub e0esc : ℕ
e0esc = 64

abbrev pub key_home : ℕ
key_home = 0xE0

abbrev pub key_del : ℕ
key_del = 0xE9

unfoldable pub shiftcode : ℕ → ℕ
shiftcode key =
    if key == 0x1D
    then ctl_key
    else if key == 0x2A
    then shift_key
    else if key == 0x36
    then shift_key
    else if key == 0x38
    then alt_key
    else if key == 0x9D
    then ctl_key
    else if key == 0xB8
    then alt_key
    else 0

unfoldable pub togglecode : ℕ → ℕ
togglecode key =
    if key == 0x3A
    then capslock
    else if key == 0x45
    then numlock
    else if key == 0x46
    then scrolllock
    else 0

-- The entries from 0xC8 on, which are the same in each map: KEY_UP, KEY_PGUP, KEY_LF, KEY_RT,
-- KEY_END, KEY_DN, KEY_PGDN, KEY_INS and KEY_DEL.
abbrev pub edit_key : ℕ → ℕ
edit_key key =
    get_or (0xE2 ∷ 0xE6 ∷ 0 ∷ 0xE4 ∷ 0 ∷ 0xE5 ∷ 0 ∷ 0xE1 ∷ 0xE3 ∷ 0xE7 ∷ 0xE8 ∷ key_del ∷ [])
      (key - 0xC8) 0

abbrev pub normalmap_start : List ℕ
normalmap_start =
    0 ∷ 0x1B ∷ b'1' ∷ b'2' ∷ b'3' ∷ b'4' ∷ b'5' ∷ b'6' ∷ b'7' ∷ b'8' ∷ b'9' ∷ b'0' ∷ b'-' ∷ b'=' ∷ 8
    ∷ 9 ∷ b'q' ∷ b'w' ∷ b'e' ∷ b'r' ∷ b't' ∷ b'y' ∷ b'u' ∷ b'i' ∷ b'o' ∷ b'p' ∷ b'[' ∷ b']' ∷ 10 ∷ 0
    ∷ b'a' ∷ b's' ∷ b'd' ∷ b'f' ∷ b'g' ∷ b'h' ∷ b'j' ∷ b'k' ∷ b'l' ∷ b';' ∷ 39 ∷ b'`' ∷ 0 ∷ 92
    ∷ b'z' ∷ b'x' ∷ b'c' ∷ b'v' ∷ b'b' ∷ b'n' ∷ b'm' ∷ b',' ∷ b'.' ∷ b'/' ∷ 0 ∷ b'*' ∷ 0 ∷ b' ' ∷ 0
    ∷ 0 ∷ 0 ∷ 0 ∷ 0 ∷ 0 ∷ 0 ∷ 0 ∷ 0 ∷ 0 ∷ 0 ∷ 0 ∷ 0 ∷ b'7' ∷ b'8' ∷ b'9' ∷ b'-' ∷ b'4' ∷ b'5' ∷ b'6'
    ∷ b'+' ∷ b'1' ∷ b'2' ∷ b'3' ∷ b'0' ∷ b'.' ∷ 0 ∷ 0 ∷ 0 ∷ 0 ∷ []

unfoldable pub normalmap : ℕ → ℕ
normalmap key =
    if key == 0xC7
    then key_home
    else if key == 0x9C
    then 10
    else if key == 0xB5
    then b'/'
    else if leb 0xC8 key
    then edit_key key
    else get_or normalmap_start key 0

abbrev pub shiftmap_start : List ℕ
shiftmap_start =
    0 ∷ 0x1B ∷ b'!' ∷ b'@' ∷ b'#' ∷ b'$' ∷ b'%' ∷ b'^' ∷ b'&' ∷ b'*' ∷ b'(' ∷ b')' ∷ b'_' ∷ b'+' ∷ 8
    ∷ 9 ∷ b'Q' ∷ b'W' ∷ b'E' ∷ b'R' ∷ b'T' ∷ b'Y' ∷ b'U' ∷ b'I' ∷ b'O' ∷ b'P' ∷ b'{' ∷ b'}' ∷ 10 ∷ 0
    ∷ b'A' ∷ b'S' ∷ b'D' ∷ b'F' ∷ b'G' ∷ b'H' ∷ b'J' ∷ b'K' ∷ b'L' ∷ b':' ∷ b'"' ∷ b'~' ∷ 0 ∷ b'|'
    ∷ b'Z' ∷ b'X' ∷ b'C' ∷ b'V' ∷ b'B' ∷ b'N' ∷ b'M' ∷ b'<' ∷ b'>' ∷ b'?' ∷ 0 ∷ b'*' ∷ 0 ∷ b' ' ∷ 0
    ∷ 0 ∷ 0 ∷ 0 ∷ 0 ∷ 0 ∷ 0 ∷ 0 ∷ 0 ∷ 0 ∷ 0 ∷ 0 ∷ 0 ∷ b'7' ∷ b'8' ∷ b'9' ∷ b'-' ∷ b'4' ∷ b'5' ∷ b'6'
    ∷ b'+' ∷ b'1' ∷ b'2' ∷ b'3' ∷ b'0' ∷ b'.' ∷ 0 ∷ 0 ∷ 0 ∷ 0 ∷ []

unfoldable pub shiftmap : ℕ → ℕ
shiftmap key =
    if key == 0xC7
    then key_home
    else if key == 0x9C
    then 10
    else if key == 0xB5
    then b'/'
    else if leb 0xC8 key
    then edit_key key
    else get_or shiftmap_start key 0

abbrev pub ctlmap_start : List ℕ
ctlmap_start =
    0 ∷ 0 ∷ 0 ∷ 0 ∷ 0 ∷ 0 ∷ 0 ∷ 0 ∷ 0 ∷ 0 ∷ 0 ∷ 0 ∷ 0 ∷ 0 ∷ 0 ∷ 0 ∷ 17 ∷ 23 ∷ 5 ∷ 18 ∷ 20 ∷ 25 ∷ 21
    ∷ 9 ∷ 15 ∷ 16 ∷ 0 ∷ 0 ∷ 13 ∷ 0 ∷ 1 ∷ 19 ∷ 4 ∷ 6 ∷ 7 ∷ 8 ∷ 10 ∷ 11 ∷ 12 ∷ 0 ∷ 0 ∷ 0 ∷ 0 ∷ 28 ∷ 26
    ∷ 24 ∷ 3 ∷ 22 ∷ 2 ∷ 14 ∷ 13 ∷ 0 ∷ 0 ∷ 0xEF ∷ 0 ∷ 0 ∷ []

unfoldable pub ctlmap : ℕ → ℕ
ctlmap key =
    if key == 0x97
    then key_home
    else if key == 0xB5
    then 0xEF
    else if leb 0xC8 key
    then edit_key key
    else get_or ctlmap_start key 0

unfoldable pub charcode : ℕ → ℕ → ℕ
unfolding normalmap shiftmap ctlmap
charcode shift key =
    if has shift ctl_key
    then ctlmap key
    else if has shift shift_key
    then shiftmap key
    else normalmap key

-- `a & ~b` and `a ^ b`
abbrev pub clear : ℕ → ℕ → ℕ
clear a b = a - bit_and a b

abbrev pub bit_xor : ℕ → ℕ → ℕ
bit_xor a b = bit_or a b - bit_and a b

-- The static `shift`, and whether the machine was told to restart.
pub record Kbd : Type 0 where
  pub shift : ℕ
  pub rebooting : Bool

abbrev pub swap_case : ℕ → ℕ
swap_case c =
    if leb b'a' c && leb c b'z' then c - 32 else if leb b'A' c && leb c b'Z' then c + 32 else c

-- A key that is pressed, with its code after the escape.
unfoldable pub key_pressed : ℕ → Kbd → ℕ × Kbd
unfolding shiftcode togglecode charcode
key_pressed key k =
    let shift = bit_xor (bit_or k.shift (shiftcode key)) (togglecode key) in
    let c0 = charcode shift key in
    let c = if has shift capslock then swap_case c0 else c0 in
    let reboot = has shift ctl_key && has shift alt_key && c == key_del in
    (c, record { shift = shift; rebooting = if reboot then true else k.rebooting })

abbrev pub key_released : ℕ → Kbd → Kbd
key_released key k =
    let key' = if has k.shift e0esc then key else bit_and key 0x7F in
    record k { shift = clear k.shift (bit_or (shiftcode key') e0esc) }

-- The answer is -1 (`none`), or a character, 0 for a byte that completes none.
unfoldable pub kbd_proc_data : Option ℕ → Kbd → Option ℕ × Kbd
unfolding key_pressed shiftcode
kbd_proc_data none k = (none, k)
kbd_proc_data (some key) k =
    if key == 0xE0
    then (some 0, record k { shift = bit_or k.shift e0esc })
    else if has key 0x80
    then (some 0, key_released key k)
    else (let (c, k') =
          if has k.shift e0esc
          then key_pressed (bit_or key 0x80) (record k { shift = clear k.shift e0esc })
          else key_pressed key k in
        (some c, k'))

-- kbd_intr hands these to cons_intr, up to the first -1: the characters of the bytes that the
-- keyboard holds.
unfoldable pub kbd_chars : List ℕ → Kbd → List ℕ × Kbd
unfolding kbd_proc_data
kbd_chars [] k = ([], k)
kbd_chars (key ∷ more) k =
    let (c, k') = kbd_proc_data (some key) k in
    let (cs, k'') = kbd_chars more k' in elim c [ none ↦ (cs, k'') | some ch ↦ (ch ∷ cs, k'') ]
