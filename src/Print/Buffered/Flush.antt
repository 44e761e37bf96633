-- ===== src/Print/Buffered/Flush.antt =====
-- The buffer of lib/printf.c loses nothing and does not overflow.
use jos.Base.{
  ℕ, ◌+◌, ◌%◌, ◌<◌, ◌≡◌, refl, ap, sym, ◌∙◌, inl, inr, List, [], ◌∷◌, ◌++◌, map, length,
  append_assoc, append_nil, All, All-append, update, bytes, bytes-length, bytes-add, Bool-cases,
  ◌==◌, arith,
}
use jos.Print.Buffered.{Printbuf, putch, putch_all, vcprintf}

abbrev pub low_byte : ℕ → ℕ
low_byte c = c % 256

-- The texts of several calls, one after the other.
unfoldable pub joined : List (List ℕ) → List ℕ
joined [] = []
joined (s ∷ ss) = s ++ joined ss

joined-append : (xs : List (List ℕ)) (s : List ℕ) → joined (xs ++ s ∷ []) ≡ joined xs ++ s
unfolding joined
joined-append [] s = append_nil s
joined-append (x ∷ xs) s = rw (joined-append xs s) (sym (append_assoc x (joined xs) s))

abbrev pub IsShort : List ℕ → Type 0
IsShort s = length s < 256

bytes-IsShort : (f : ℕ → ℕ) (i n : ℕ) → n < 256 → IsShort (bytes f i n)
bytes-IsShort f i n h = omega (arith, bytes-length f i n)

-- The buffer and the calls together have the text `t`.
record Prints (b : Printbuf) (t : List ℕ) : Type 0 where
  pub room : b.idx < 255
  pub text : joined b.calls ++ bytes b.buf 0 b.idx ≡ t
  pub short : All IsShort b.calls

-- The text that is printed or waits in the buffer, after a byte is stored.
with_byte :
    (b : Printbuf) (t : List ℕ) (ch : ℕ)
    → joined b.calls ++ bytes b.buf 0 b.idx ≡ t
    → joined b.calls ++ bytes (update b.buf b.idx (ch % 256)) 0 (b.idx + 1) ≡ t ++ low_byte ch ∷ []
with_byte b t ch e = rw (bytes-add b.buf b.idx (ch % 256)) (
    sym (append_assoc (joined b.calls) (bytes b.buf 0 b.idx) (low_byte ch ∷ []))
    ∙ ap (λ l. l ++ low_byte ch ∷ []) e)

putch-Prints :
    (b : Printbuf) (t : List ℕ) (ch : ℕ) → Prints b t → Prints (putch ch b) (t ++ low_byte ch ∷ [])
unfolding putch
putch-Prints b t ch h = elim (Bool-cases (b.idx + 1 == 255)) [
  | inl full ↦
      rw (putch, full)
        (record {
          room = omega arith;
          text = append_nil _ ∙ joined-append b.calls _ ∙ with_byte b t ch h.text;
          short =
              All-append IsShort b.calls _ h.short
                (bytes-IsShort _ 0 (b.idx + 1) (omega (arith, h.room)), tt);
        })
  | inr more ↦
      rw (putch, more)
        (record { room = ground (arith, h.room); text = with_byte b t ch h.text; short = h.short })
]

putch-cnt : (b : Printbuf) (ch : ℕ) → (putch ch b).cnt ≡ b.cnt + 1
unfolding putch
putch-cnt b ch = elim (Bool-cases (b.idx + 1 == 255)) [
  | inl full ↦ rw (putch, full) refl
  | inr more ↦ rw (putch, more) refl
]

putch_all-Prints :
    (out : List ℕ) (b : Printbuf) (t : List ℕ)
    → Prints b t
    → Prints (putch_all out b) (t ++ map low_byte out)
      × ((putch_all out b).cnt ≡ b.cnt + length out)
unfolding putch_all
putch_all-Prints [] b t h = (rw (append_nil t) h, omega arith)
putch_all-Prints (c ∷ out) b t h =
    let rest = putch_all-Prints out (putch c b) (t ++ low_byte c ∷ []) (putch-Prints b t c h) in
    (
      rw (sym (append_assoc t (low_byte c ∷ []) (map low_byte out))) rest.0,
      omega (arith, rest.1, putch-cnt b c),
    )

-- vcprintf returns the number of characters that vprintfmt puts, the calls of sys_cputs print, one
-- after the other, just those characters as bytes, and each call has fewer than 256 of them.
pub vcprintf-prints :
    (garbage : ℕ → ℕ) (out : List ℕ)
    → ((vcprintf garbage out).0 ≡ length out)
      × (joined (vcprintf garbage out).1 ≡ map low_byte out)
      × All IsShort (vcprintf garbage out).1
unfolding vcprintf joined
vcprintf-prints garbage out =
    let start : Printbuf = record { idx = 0; cnt = 0; buf = garbage; calls = [] } in
    let (end, count) =
      putch_all-Prints out start [] (record { room = omega arith; text = refl; short = tt }) in
    (
      omega (arith, count),
      joined-append (putch_all out start).calls _ ∙ end.text,
      All-append IsShort (putch_all out start).calls _ end.short
          (bytes-IsShort _ 0 _ (omega (arith, end.room)), tt),
    )
