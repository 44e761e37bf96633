-- ===== src/Print/Cprintf/OnScreen.antt =====
-- A text that cprintf prints, on the screen.
use jos.Base.{
  ℕ, zero, suc, ◌+◌, ◌<◌, ◌≡◌, ◌≢◌, ◌==◌, false, refl, ap, some, List, [], ◌∷◌, ◌++◌, length,
  get_or, All, ne→==, arith,
}
use jos.Console.Screen.{Screen, crt_size, cons_putc, cputchars}
use jos.Console.Screen.Shown.{IsPrintable, cputchars-text}
use jos.Print.Format.{printed, after, vprintfmt}
use jos.Print.Cprintf.{putch, put_each, vcprintf}

-- A character that stands for itself in a format and on the screen.
abbrev pub IsPlain : ℕ → Type 0
IsPlain c = IsPrintable c × (c ≢ b'%')

plain-IsPrintable : (cs : List ℕ) → All IsPlain cs → All IsPrintable cs
plain-IsPrintable [] h = tt
plain-IsPrintable (c ∷ cs) h = (h.0.0, plain-IsPrintable cs h.1)

vprintfmt-plain :
    (cs : List ℕ) (fuel : ℕ)
    → All IsPlain cs
    → length cs < fuel
    → vprintfmt fuel (cs ++ 0 ∷ []) [] ≡ printed cs
unfolding vprintfmt
vprintfmt-plain cs zero h k = absurd (omega arith)
vprintfmt-plain [] (suc fuel) h k = refl
vprintfmt-plain (c ∷ cs) (suc fuel) h k =
    let not_escape : (c == b'%') ≡ false = ne→== c b'%' h.0.1 in
    let not_end : (c == 0) ≡ false = ne→== c 0 (λ e. absurd (omega (arith, e, h.0.0.0))) in
    rw (vprintfmt, not_escape, not_end)
      (ap (after (c ∷ [])) (vprintfmt-plain cs fuel h.1 (omega arith)))

put_each-cputchars : (cs : List ℕ) (s : Screen) → put_each cs (0, s) ≡ (0, cputchars cs s)
unfolding put_each putch cputchars
put_each-cputchars [] s = refl
put_each-cputchars (c ∷ cs) s = put_each-cputchars cs (cons_putc c s)

-- The format is printable, has no '%' and fits on the screen, and the fuel is above its length: the
-- characters of the format stand in the cells from the position on, white on black, the cells before
-- are as they were, the position is behind the text, the other devices got the same text, and
-- vcprintf returns 0, whatever the length is.
pub vcprintf-shown :
    (cs : List ℕ) (fuel : ℕ) (s : Screen)
    → All IsPlain cs
    → length cs < fuel
    → s.crt_pos + length cs < crt_size
    → (s' : Screen) × (vcprintf fuel (cs ++ 0 ∷ []) [] s ≡ some (0, s'))
      × ((j : ℕ) → j < length cs → s'.crt_buf (s.crt_pos + j) ≡ 0x0700 + get_or cs j 0)
      × ((i : ℕ) → i < s.crt_pos → s'.crt_buf i ≡ s.crt_buf i)
      × (s'.crt_pos ≡ s.crt_pos + length cs)
      × (s'.sent ≡ s.sent ++ cs)
unfolding vcprintf
vcprintf-shown cs fuel s h k fits =
    let (cells, before, pos, sent) = cputchars-text cs s (plain-IsPrintable cs h) fits in
    (
      cputchars cs s,
      rw (vcprintf, vprintfmt-plain cs fuel h k) (ap some (put_each-cputchars cs s)),
      cells,
      before,
      pos,
      sent,
    )
