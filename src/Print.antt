-- ===== src/Print.antt =====
-- lib/printfmt.c: printnum, and the buffer of vsnprintf. Characters are their codes; what a function
-- puts is a list. vsnprintf takes the list that vprintfmt puts for its format; vprintfmt is in Format.
pub mod Cprintf
pub mod Digits
pub mod Buffer
pub mod Buffered
pub mod Format
use jos.Base.{
  ℕ, zero, suc, ◌+◌, ◌-◌, ◌/◌, ◌%◌, Option, none, some, List, [], ◌∷◌, ◌++◌, ltb, leb,
  if◌then◌else◌, replicate,
}
use jos.Errors.{Ret, ret, fail, e_inval}

-- "0123456789abcdef"[d]
unfoldable pub digit_char : ℕ → ℕ
digit_char d = if ltb d 10 then 48 + d else 87 + d

-- `while (--width > 0)` makes `width - 1` rounds, none for a width that is not positive; so a
-- negative width may stand as 0. The fuel bounds the number of digits.
unfoldable pub printnum : ℕ → ℕ → ℕ → ℕ → ℕ → List ℕ
unfolding digit_char
printnum zero num base width padc = []
printnum (suc f) num base width padc =
    let more = printnum f (num / base) base (width - 1) padc in
    (if leb base num then more else replicate (width - 1) padc) ++ digit_char (num % base) ∷ []

-- `struct sprintbuf`: what is written, the room before `ebuf`, and the count.
pub record Sprintbuf : Type 0 where
  pub written : List ℕ
  pub room : ℕ
  pub cnt : ℕ

-- `buf` has bytes: a character keeps its low 8 bits.
unfoldable pub sprintputch : ℕ → Sprintbuf → Sprintbuf
sprintputch ch b =
    let c = record b { cnt = b.cnt + 1 } in
    if ltb 0 b.room
    then record c { written = b.written ++ (ch % 256) ∷ []; room = b.room - 1 }
    else c

unfoldable pub put_all : List ℕ → Sprintbuf → Sprintbuf
unfolding sprintputch
put_all [] b = b
put_all (c ∷ cs) b = put_all cs (sprintputch c b)

-- The result and the bytes written to `buf`. `null` is whether `buf` is NULL.
unfoldable pub vsnprintf : Option (List ℕ) → ℕ → List ℕ → Ret × List ℕ
unfolding put_all
vsnprintf none n out = (fail e_inval, [])
vsnprintf (some buf) n out =
    if ltb n 1
    then (fail e_inval, [])
    else (let b = put_all out (record { written = []; room = n - 1; cnt = 0 }) in
        (ret b.cnt, b.written ++ 0 ∷ []))
