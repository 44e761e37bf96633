-- ===== src/Console/Screen/Shown.antt =====
-- What the screen shows.
use jos.Base.{
  ℕ, zero, suc, ◌+◌, ◌%◌, ◌/◌, ◌<◌, ◌≤◌, ◌≡◌, refl, ap, sym, ◌∙◌, inl, inr, true, false, List, [],
  ◌∷◌, ◌++◌, length, update, Bool-cases, ◌==◌, leb, bit_or-low, get_or, append_nil, ==_self, ne→==,
  append_assoc, All, arith,
}
use jos.Console.Screen.{
  Screen, crt_size, with_attribute, put_cell, moved_up, scroll, show_cursor, send, put_space,
  cga_putc, cons_putc, cputchars,
}

-- `s'` differs from `s` only in cells of the screen, and its position is at most one line past it.
record Near (s s' : Screen) : Type 0 where
  pub below : s'.crt_pos < crt_size + 80
  pub outside : (i : ℕ) → crt_size ≤ i → s'.crt_buf i ≡ s.crt_buf i

-- The position is on the screen, the cursor is there, and no cell outside has changed.
pub record Shown (s s' : Screen) : Type 0 where
  pub on_screen : s'.crt_pos < crt_size
  pub at_cursor : s'.cursor ≡ s'.crt_pos
  pub outside : (i : ℕ) → crt_size ≤ i → s'.crt_buf i ≡ s.crt_buf i

put_cell-Near : (c : ℕ) (s : Screen) → s.crt_pos < crt_size → Near s (put_cell c s)
unfolding put_cell
put_cell-Near c s h = record { below = ground arith; outside = λ i k. ground arith }

past_end : (buf : ℕ → ℕ) (i : ℕ) → crt_size ≤ i → moved_up buf i ≡ buf i
past_end buf i k = ground arith

scroll-Shown : (s s' : Screen) → Near s s' → Shown s (show_cursor (scroll s'))
unfolding scroll
scroll-Shown s s' h = elim (Bool-cases (leb crt_size s'.crt_pos)) [
  | inl past ↦ rw past (record {
    on_screen = omega (arith, h.below);
    at_cursor = omega arith;
    outside = λ i k. rw (past_end s'.crt_buf i k) (h.outside i k);
  })
  | inr fits ↦
      rw fits (record { on_screen = ground arith; at_cursor = omega arith; outside = h.outside })
]

Shown-then : (s s' s'' : Screen) → Shown s s' → Shown s' s'' → Shown s s''
Shown-then s s' s'' h k = record {
  on_screen = k.on_screen;
  at_cursor = k.at_cursor;
  outside = λ i past. k.outside i past ∙ h.outside i past;
}

-- The same from a screen to which a character was sent to the other devices as well.
put_space-Shown : (s : Screen) → s.crt_pos < crt_size → Shown s (put_space s)
unfolding put_space
put_space-Shown s h =
    let t = put_cell-Near (with_attribute b' ') (send b' ' s) h in
    scroll-Shown s _ (record { below = t.below; outside = t.outside })

next_space : (s s' : Screen) → Shown s s' → Shown s (put_space s')
next_space s s' h = Shown-then s s' (put_space s') h (put_space-Shown s' h.on_screen)

cga_putc-Shown : (c : ℕ) (s : Screen) → s.crt_pos < crt_size → Shown s (cga_putc c s)
unfolding cga_putc
cga_putc-Shown c s h = elim (Bool-cases (with_attribute c % 256 == b'\t')) [
  | inl tab ↦
      rw (cga_putc, tab)
        (let five : Shown s (put_space (put_space (put_space (put_space (put_space s))))) =
            next_space s _
              (next_space s _ (next_space s _ (next_space s _ (put_space-Shown s h)))) in
          scroll-Shown s _
            (record { below = omega (arith, five.on_screen); outside = five.outside }))
  | inr other ↦ rw (cga_putc, other) (scroll-Shown s _ (put_cell-Near (with_attribute c) s h))
]

cons_putc-Shown : (c : ℕ) (s : Screen) → s.crt_pos < crt_size → Shown s (cons_putc c s)
unfolding cons_putc
cons_putc-Shown c s h =
    let t = cga_putc-Shown c (send c s) h in
    record { on_screen = t.on_screen; at_cursor = t.at_cursor; outside = t.outside }

-- From a position on the screen, whatever ints are printed, the position stays on the screen, no
-- cell outside of the screen changes, and after at least one of them the cursor is at the position.
pub cputchars-Shown :
    (c : ℕ) (cs : List ℕ) (s : Screen) → s.crt_pos < crt_size → Shown s (cputchars (c ∷ cs) s)
unfolding cputchars
cputchars-Shown c [] s h = cons_putc-Shown c s h
cputchars-Shown c (c' ∷ cs) s h =
    let t = cons_putc-Shown c s h in
    Shown-then s (cons_putc c s) (cputchars (c' ∷ cs) (cons_putc c s)) t
      (cputchars-Shown c' cs (cons_putc c s) t.on_screen)

-- A character that stands for itself on the screen.
abbrev pub IsPrintable : ℕ → Type 0
IsPrintable c = (32 ≤ c) × (c < 256)

with_attribute-printable : (c : ℕ) → IsPrintable c → with_attribute c ≡ 0x0700 + c
with_attribute-printable c h =
    let no_attribute : (c / 256 == 0) ≡ true = ground (arith, h.1) in
    rw no_attribute (bit_or-low 8 7 c h.1)

-- One printable character where the line is not at its end.
cons_putc-printable :
    (c : ℕ) (s : Screen)
    → IsPrintable c
    → s.crt_pos + 1 < crt_size
    → ((cons_putc c s).crt_pos ≡ s.crt_pos + 1)
      × ((cons_putc c s).crt_buf ≡ update s.crt_buf s.crt_pos (0x0700 + c))
      × ((cons_putc c s).sent ≡ s.sent ++ c ∷ [])
unfolding cons_putc cga_putc put_cell scroll
cons_putc-printable c s h k =
    let e = with_attribute-printable c h in
    let tab : ((0x0700 + c) % 256 == 9) ≡ false = ground (arith, h.0, h.1) in
    let back : ((0x0700 + c) % 256 == 8) ≡ false = ground (arith, h.0, h.1) in
    let newline : ((0x0700 + c) % 256 == 10) ≡ false = ground (arith, h.0, h.1) in
    let return : ((0x0700 + c) % 256 == 13) ≡ false = ground (arith, h.0, h.1) in
    let step : (s.crt_pos + 1) % 65536 ≡ s.crt_pos + 1 = omega arith in
    let fits : leb crt_size (s.crt_pos + 1) ≡ false = ground arith in
    let whole : (0x0700 + c) % 65536 ≡ 0x0700 + c = omega (arith, h.1) in
    rw (cons_putc, cga_putc, e, tab, back, newline, return, step, fits, whole) (refl, refl, refl)

-- The text is printable and stays before the end of the screen: each of its characters stands, white
-- on black, in its cell from the position on, the cells before are as they were, the position is
-- behind the text, and the other devices got the same text.
pub cputchars-text :
    (cs : List ℕ) (s : Screen)
    → All IsPrintable cs
    → s.crt_pos + length cs < crt_size
    → ((j : ℕ) → j < length cs → (cputchars cs s).crt_buf (s.crt_pos + j) ≡ 0x0700 + get_or cs j 0)
      × ((i : ℕ) → i < s.crt_pos → (cputchars cs s).crt_buf i ≡ s.crt_buf i)
      × ((cputchars cs s).crt_pos ≡ s.crt_pos + length cs)
      × ((cputchars cs s).sent ≡ s.sent ++ cs)
unfolding cputchars
cputchars-text [] s h k =
    (λ j l. absurd (omega arith), λ i l. refl, omega arith, sym (append_nil s.sent))
cputchars-text (c ∷ cs) s h k =
    let t : Screen = cons_putc c s in
    let done : Screen = cputchars cs t in
    let (pos, cells, sent) = cons_putc-printable c s h.0 (omega arith) in
    let (later, before, end, others) = cputchars-text cs t h.1 (omega (arith, pos)) in
    (
      λ j.
          elim j
            as (λ j.
              j < length (c ∷ cs) → done.crt_buf (s.crt_pos + j) ≡ 0x0700 + get_or (c ∷ cs) j 0) [
                | zero ↦ λ l.
                    let here : s.crt_pos + 0 ≡ s.crt_pos = omega arith in
                    rw here
                      (before s.crt_pos (omega (arith, pos)) ∙ rw (cells, ==_self s.crt_pos) refl)
                | suc j' ↦ λ l.
                    let there : s.crt_pos + suc j' ≡ t.crt_pos + j' = omega (arith, pos) in
                    rw there (later j' (omega arith))
              ],
      λ i l.
          before i (omega (arith, pos))
          ∙ rw (cells, ne→== i s.crt_pos (λ e. absurd (omega (arith, e)))) refl,
      omega (arith, end, pos),
      others ∙ ap (λ l. l ++ cs) sent ∙ append_assoc s.sent (c ∷ []) cs,
    )
