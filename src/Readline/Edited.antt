-- ===== src/Readline/Edited.antt =====
-- readline as an editor of a list of bytes.
use jos.Base.{
  ℕ, zero, suc, ◌+◌, ◌-◌, ◌%◌, ◌^◌, ◌<◌, ◌≤◌, ◌≡◌, refl, ap, sym, inl, inr, Bool, Option, none,
  some, List, [], ◌∷◌, ◌++◌, ◌&&◌, ltb, leb, if◌then◌else◌, update, bytes, bytes-length, bytes-add,
  length, Bool-cases, ltb→lt, and_true, ==_self, ne→==, arith,
}
use jos.Readline.{
  Line, Reading, got, read_error, waiting, say, store_char, is_erase, is_end, read_loop, readline,
}

-- A line without its last byte.
unfoldable but_last : List ℕ → List ℕ
but_last [] = []
but_last (x ∷ []) = []
but_last (x ∷ y ∷ ys) = x ∷ but_last (y ∷ ys)

-- The line that the input makes of `line`: an erase takes the last byte away, a character that fits
-- comes behind, a line end gives the line, and anything else is ignored. The end of the input, or a
-- negative answer, gives none.
unfoldable pub edited : List ℕ → List ℕ → Option (List ℕ)
unfolding but_last
edited line [] = none
edited line (c ∷ cs) =
    let erased = edited (but_last line) cs in
    let added = edited (line ++ c % 256 ∷ []) cs in
    let ignored = edited line cs in
    if leb (2 ^ 31) c
    then none
    else if is_erase c && ltb 0 (length line)
    then erased
    else if leb b' ' c && ltb (length line) 1023
    then added
    else if is_end c
    then some line
    else ignored

bytes-but_last : (f : ℕ → ℕ) (i n : ℕ) → bytes f i n ≡ but_last (bytes f i (suc n))
unfolding but_last
bytes-but_last f i zero = refl
bytes-but_last f i (suc n) = ap (λ l. f i ∷ l) (bytes-but_last f (i + 1) n)

bytes-shrink : (f : ℕ → ℕ) (n : ℕ) → 0 < n → but_last (bytes f 0 n) ≡ bytes f 0 (n - 1)
bytes-shrink f zero h = absurd (omega arith)
bytes-shrink f (suc n) h =
    let one_less : suc n - 1 ≡ n = omega arith in rw one_less (sym (bytes-but_last f 0 n))

bytes-untouched : (f : ℕ → ℕ) (i n k c : ℕ) → i + n ≤ k → bytes (update f k c) i n ≡ bytes f i n
bytes-untouched f i zero k c h = refl
bytes-untouched f i (suc n) k c h =
    rw (ne→== i k (λ e. absurd (omega (arith, e))), bytes-untouched f (i + 1) n k c (omega arith))
      refl

-- What readline returns against the line: NULL and the wait stand for none.
pub record Got (l : Line) (line : List ℕ) : Type 0 where
  pub text : bytes l.buf 0 l.i ≡ line
  pub ended : l.buf l.i ≡ 0
  pub room : l.i < 1024

abbrev pub Agrees : Reading → Option (List ℕ) → Type 0
Agrees (got l) none = ⊥
Agrees (got l) (some line) = Got l line
Agrees (read_error l) o = o ≡ none
Agrees (waiting l) o = o ≡ none

read_loop-edited :
    (echoing : Bool) (cs : List ℕ) (l : Line)
    → l.i < 1024
    → Agrees (read_loop echoing cs l) (edited (bytes l.buf 0 l.i) cs)
unfolding read_loop edited
read_loop-edited echoing [] l h = refl
read_loop-edited echoing (c ∷ cs) l h =
    let n = bytes-length l.buf 0 l.i in
    elim (Bool-cases (leb (2 ^ 31) c)) [
      | inl bad ↦ rw (read_loop, edited, n, bad) refl
      | inr int ↦ elim (Bool-cases (is_erase c && ltb 0 l.i)) [
        | inl erase ↦
            let some_left : 0 < l.i = ltb→lt 0 l.i (and_true (is_erase c) _ erase).1 in
            rw (read_loop, edited, n, int, erase, bytes-shrink l.buf l.i some_left)
              (read_loop-edited echoing cs (say echoing 8 (record l { i = l.i - 1 })) (omega arith))
        | inr other ↦ elim (Bool-cases (leb b' ' c && ltb l.i 1023)) [
          | inl add ↦
              let room : l.i < 1023 = ltb→lt l.i 1023 (and_true (leb b' ' c) _ add).1 in
              rw (read_loop, edited, n, int, other, add, sym (bytes-add l.buf l.i (c % 256)))
                (read_loop-edited echoing cs
                  (record (store_char c (say echoing c l)) { i = l.i + 1 }) (omega (arith, room)))
          | inr full ↦ elim (Bool-cases (is_end c)) [
            | inl end ↦
                rw (read_loop, edited, n, int, other, full, end)
                  (record {
                    text = bytes-untouched l.buf 0 l.i l.i 0 (omega arith);
                    ended = rw (==_self l.i) refl;
                    room = h;
                  })
            | inr ignored ↦
                rw (read_loop, edited, n, int, other, full, ignored)
                  (read_loop-edited echoing cs l h)
          ]
        ]
      ]
    ]

-- readline agrees with the editor on every input: it returns a line exactly when the editor gives
-- one, and then the line and a 0 behind it stand in the buffer within its 1024 bytes; when the
-- editor gives none, it returns NULL or still waits.
pub readline-edited :
    (echoing : Bool) (prompt : List ℕ) (buf : ℕ → ℕ) (input : List ℕ)
    → Agrees (readline echoing prompt buf input) (edited [] input)
unfolding readline
readline-edited echoing prompt buf input =
    read_loop-edited echoing input (record { i = 0; buf = buf; echo = prompt }) (omega arith)
