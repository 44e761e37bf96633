-- ===== src/Print/Buffer.antt =====
-- vsnprintf of lib/printfmt.c: what it leaves in a buffer of `n` bytes.
use jos.Base.{
  ℕ, zero, suc, ◌+◌, ◌-◌, ◌%◌, ◌<◌, ◌≡◌, refl, sym, true, false, Bool-cases, inl, inr, ◌∙◌, some,
  List, [], ◌∷◌, ◌++◌, length, take, append_assoc, append_nil, ltb, arith,
}
use jos.Errors.{ret}
use jos.Print.{sprintputch, put_all, vsnprintf}

abbrev pub low_bytes : List ℕ → List ℕ
low_bytes [] = []
low_bytes (x ∷ xs) = (x % 256) ∷ low_bytes xs

one_more : (c n : ℕ) → c + 1 + n ≡ c + suc n
one_more c n = omega arith

from_zero : (n : ℕ) → 0 + n ≡ n
from_zero n = omega arith

put_all-cnt :
    (out w : List ℕ) (r c : ℕ)
    → (put_all out (record { written = w; room = r; cnt = c })).cnt ≡ c + length out
unfolding put_all sprintputch
put_all-cnt [] w r c = omega arith
put_all-cnt (x ∷ out) w r c = elim (Bool-cases (ltb 0 r)) [
  | inl room_left ↦
      rw (put_all, room_left)
        (put_all-cnt out (w ++ (x % 256) ∷ []) (r - 1) (c + 1) ∙ one_more c (length out))
  | inr full ↦ rw (put_all, full) (put_all-cnt out w r (c + 1) ∙ one_more c (length out))
]

put_all-written :
    (out w : List ℕ) (r c : ℕ)
    → (put_all out (record { written = w; room = r; cnt = c })).written
      ≡ w ++ low_bytes (take r out)
unfolding put_all sprintputch
put_all-written [] w zero c = sym (append_nil w)
put_all-written [] w (suc r) c = sym (append_nil w)
put_all-written (x ∷ out) w zero c = put_all-written out w zero (c + 1)
put_all-written (x ∷ out) w (suc r) c =
    let room_left : ltb 0 (suc r) ≡ true = ground arith in
    let next : suc r - 1 ≡ r = omega arith in
    rw (put_all, room_left, next)
      (put_all-written out (w ++ (x % 256) ∷ []) r (c + 1)
        ∙ append_assoc w ((x % 256) ∷ []) (low_bytes (take r out)))

-- With a buffer of `n` bytes, `n` not 0, vsnprintf writes the low bytes of the first `n - 1`
-- characters of what is printed, and a zero; it returns the number of all the characters that are printed.
pub vsnprintf-truncates :
    (buf out : List ℕ) (n : ℕ)
    → 0 < n
    → vsnprintf (some buf) n out ≡ (ret (length out), low_bytes (take (n - 1) out) ++ 0 ∷ [])
unfolding vsnprintf
vsnprintf-truncates buf out n pos =
    let not_small : ltb n 1 ≡ false = ground arith in
    rw
      (
        not_small,
        put_all-cnt out [] (n - 1) 0,
        put_all-written out [] (n - 1) 0,
        from_zero (length out),
      )
      refl
