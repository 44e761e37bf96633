-- ===== src/Console/Ports.antt =====
-- The ports of the console of kern/console.c: the serial line, the parallel port, the start of the
-- screen and of the keyboard, and getchar. What a port answers at its n-th read is a parameter.
use jos.Base.{
  ℕ, zero, suc, ◌+◌, ◌-◌, ◌*◌, ◌%◌, ◌^◌, Bool, not, Option, none, some, List, [], ◌∷◌, ◌++◌, ◌==◌,
  if◌then◌else◌, has, bit_and, bit_or,
}
use jos.Console.{Cons, cons_intr}
use jos.Console.Screen.{Screen}
use jos.Console.Keyboard.{Kbd, kbd_chars}
use jos.Device.{Io, outb}
use jos.Device.Pic.{Pic, irq_setmask_8259a}

abbrev pub com1 : ℕ
com1 = 0x3F8

abbrev pub com_ier : ℕ
com_ier = 1

abbrev pub com_fcr : ℕ
com_fcr = 2

abbrev pub com_lcr : ℕ
com_lcr = 3

abbrev pub com_mcr : ℕ
com_mcr = 4

abbrev pub com_ier_rdi : ℕ
com_ier_rdi = 0x01

abbrev pub com_lsr_data : ℕ
com_lsr_data = 0x01

abbrev pub com_lsr_txrdy : ℕ
com_lsr_txrdy = 0x20

abbrev pub com_lcr_dlab : ℕ
com_lcr_dlab = 0x80

abbrev pub com_lcr_wlen8 : ℕ
com_lcr_wlen8 = 0x03

-- `lsr` and `rx` are what the two registers answer; `none` is -1.
unfoldable pub serial_proc_data : ℕ → ℕ → Option ℕ
serial_proc_data lsr rx = if has lsr com_lsr_data then some rx else none

-- `held` is what serial_proc_data returns before -1.
unfoldable pub serial_intr : Bool → List ℕ → Cons → Cons
serial_intr serial_exists held k = if serial_exists then cons_intr held k else k

-- `for (i = 0; !(inb(port) & flag) && i < 12800; i++) delay()`: the calls of delay, with `n` rounds left.
unfoldable pub wait_ready : ℕ → (ℕ → ℕ) → ℕ → ℕ → ℕ
wait_ready zero inb flag i = i
wait_ready (suc n) inb flag i =
    let later = wait_ready n inb flag (i + 1) in if has (inb i) flag then i else later

-- The calls of delay, and the writes.
unfoldable pub serial_putc : (ℕ → ℕ) → ℕ → ℕ × List Io
unfolding wait_ready
serial_putc inb c = (wait_ready 12800 inb com_lsr_txrdy 0, outb com1 (c % 256) ∷ [])

unfoldable pub lpt_putc : (ℕ → ℕ) → ℕ → ℕ × List Io
unfolding wait_ready
lpt_putc inb c = (
  wait_ready 12800 inb 0x80 0,
  outb 0x378 (c % 256) ∷ outb (0x378 + 2) (0x08 + 0x04 + 0x01) ∷ outb (0x378 + 2) 0x08 ∷ [],
)

-- The writes, and `serial_exists`; `lsr` is what the line status register answers after them.
unfoldable pub serial_init : ℕ → List Io × Bool
serial_init lsr = (
  outb (com1 + com_fcr) 0
      ∷ outb (com1 + com_lcr) com_lcr_dlab
      ∷ outb com1 12
      ∷ outb (com1 + 1) 0
      ∷ outb (com1 + com_lcr) com_lcr_wlen8
      ∷ outb (com1 + com_mcr) 0
      ∷ outb (com1 + com_ier) com_ier_rdi
      ∷ [],
  not (lsr == 0xFF),
)

-- `addr_6845`, and the writes; `is_colour` is whether the word at CGA_BUF keeps 0xA55A, `high` and `low`
-- what the two reads of the cursor answer, and `cells` the memory that was found.
unfoldable pub cga_init : Bool → ℕ → ℕ → (ℕ → ℕ) → ℕ × List Io × Screen
cga_init is_colour high low cells =
    let addr_6845 = if is_colour then 0x3D4 else 0x3B4 in
    let pos = bit_or (high * 2 ^ 8) low in
    (
      addr_6845,
      outb addr_6845 14 ∷ outb addr_6845 15 ∷ [],
      record { crt_buf = cells; crt_pos = pos % 2 ^ 16; cursor = pos; sent = [] },
    )

-- kbd_intr: the keys that are waiting go through kbd_proc_data into the buffer.
unfoldable pub kbd_intr : List ℕ → Kbd → Cons → Kbd × Cons
kbd_intr keys kbd k = let (chars, kbd') = kbd_chars keys kbd in (kbd', cons_intr chars k)

-- `irq_setmask_8259A(irq_mask_8259A & ~(1<<1))`
unfoldable pub kbd_init : List ℕ → Kbd → Cons → Pic → Kbd × Cons × Pic × List Io
unfolding kbd_intr
kbd_init keys kbd k pic =
    let (kbd', k') = kbd_intr keys kbd k in
    let mask = pic.irq_mask_8259a - bit_and pic.irq_mask_8259a 2 in
    let (pic', writes, printed) = irq_setmask_8259a mask pic in (kbd', k', pic', writes)

-- getchar, on what cons_getc returns at each call: the first that is not 0, and how many were. It waits
-- for ever for one: `none`.
unfoldable pub getchar : List ℕ → Option (ℕ × ℕ)
getchar [] = none
getchar (c ∷ rest) =
    let later = getchar rest in
    if c == 0 then elim later [ none ↦ none | some (d, n) ↦ some (d, n + 1) ] else some (c, 0)

-- iscons
unfoldable pub iscons : ℕ → ℕ
iscons fdnum = 1

-- cons_init: the screen, the keyboard with the buffer, the mask of interrupts, `serial_exists`, and the
-- writes in order. The message where there is no serial port is not modelled.
unfoldable pub cons_init :
    Bool
    → ℕ
    → ℕ
    → (ℕ → ℕ)
    → List ℕ
    → Kbd
    → Cons
    → Pic
    → ℕ
    → Screen × Kbd × Cons × Pic × Bool × List Io
unfolding cga_init kbd_init serial_init
cons_init is_colour high low cells keys kbd k pic lsr =
    let (addr_6845, screen_writes, screen) = cga_init is_colour high low cells in
    let (kbd', k', pic', kbd_writes) = kbd_init keys kbd k pic in
    let (serial_writes, serial_exists) = serial_init lsr in
    (screen, kbd', k', pic', serial_exists, screen_writes ++ (kbd_writes ++ serial_writes))
