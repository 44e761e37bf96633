-- ===== src/Console/Fifo.antt =====
-- The buffer of kern/console.c as a queue of bytes.
use jos.Base.{
  ℕ, zero, suc, ◌+◌, ◌%◌, ◌<◌, ◌≡◌, refl, ap, sym, ◌∙◌, inl, inr, List, [], ◌∷◌, ◌++◌, length,
  length-append, get_or, append_assoc, append_nil, ==_self, ◌==◌, if◌then◌else◌, not, true, false,
  Bool-cases, arith,
}
use jos.Console.{Cons, advance, put_char, cons_intr, cons_getc}

-- The buffer has the bytes `xs`, the oldest first.
pub record Holds (k : Cons) (xs : List ℕ) : Type 0 where
  pub rpos_below : k.rpos < 512
  pub room : length xs < 512
  pub wpos_at : k.wpos ≡ (k.rpos + length xs) % 512
  pub content : (j : ℕ) → j < length xs → k.buf ((k.rpos + j) % 512) ≡ get_or xs j 0

-- The bytes that cons_intr keeps.
unfoldable pub kept : List ℕ → List ℕ
kept [] = []
kept (c ∷ cs) = if c == 0 then kept cs else c % 256 ∷ kept cs

abbrev pub tail : List ℕ → List ℕ
tail [] = []
tail (x ∷ xs) = xs

get_or-before : (xs ys : List ℕ) (j : ℕ) → j < length xs → get_or (xs ++ ys) j 0 ≡ get_or xs j 0
get_or-before [] ys j h = absurd (omega arith)
get_or-before (x ∷ xs) ys zero h = refl
get_or-before (x ∷ xs) ys (suc j) h = get_or-before xs ys j (omega arith)

get_or-at : (xs : List ℕ) (y : ℕ) → get_or (xs ++ y ∷ []) (length xs) 0 ≡ y
get_or-at [] y = refl
get_or-at (x ∷ xs) y = get_or-at xs y

apart : (r i j : ℕ) → i < 512 → j < i → ((r + j) % 512 == (r + i) % 512) ≡ false
apart r i j h lt = ground arith

put_char-Holds :
    (c : ℕ) (k : Cons) (xs : List ℕ)
    → Holds k xs
    → length xs + 1 < 512
    → Holds (put_char c k) (xs ++ c % 256 ∷ [])
put_char-Holds c k xs q small = record {
  rpos_below = q.rpos_below;
  room = omega (arith, length-append xs (c % 256 ∷ []));
  wpos_at = ground (arith, q.wpos_at, q.rpos_below, length-append xs (c % 256 ∷ []));
  content = λ j h. elim (Bool-cases (j == length xs)) [
    | inl last ↦
        let e : j ≡ length xs = ground arith in
        rw (e, q.wpos_at, ==_self ((k.rpos + length xs) % 512)) (sym (get_or-at xs (c % 256)))
    | inr earlier ↦
        let lt : j < length xs = ground (arith, length-append xs (c % 256 ∷ [])) in
        rw (q.wpos_at, apart k.rpos (length xs) j q.room lt)
          (q.content j lt ∙ sym (get_or-before xs (c % 256 ∷ []) j lt))
  ];
}

cons_intr-Holds :
    (cs : List ℕ) (k : Cons) (xs : List ℕ)
    → Holds k xs
    → length xs + length cs < 512
    → Holds (cons_intr cs k) (xs ++ kept cs)
unfolding cons_intr kept
cons_intr-Holds [] k xs q small = rw (append_nil xs) q
cons_intr-Holds (c ∷ cs) k xs q small = elim (Bool-cases (c == 0)) [
  | inl skip ↦ rw skip (cons_intr-Holds cs k xs q (omega arith))
  | inr byte ↦
      rw (byte, ← append_assoc xs (c % 256 ∷ []) (kept cs))
        (cons_intr-Holds cs (put_char c k) (xs ++ c % 256 ∷ [])
          (put_char-Holds c k xs q (omega arith)) (omega (arith, length-append xs (c % 256 ∷ []))))
]

-- What cons_getc does after polling.
head_out : (k : Cons) (x : ℕ) (xs : List ℕ) → Holds k (x ∷ xs) → (k.rpos == k.wpos) ≡ false
head_out k x xs q = ground (arith, q.wpos_at, q.room, q.rpos_below)

taken-Holds :
    (k : Cons) (x : ℕ) (xs : List ℕ)
    → Holds k (x ∷ xs)
    → Holds (record k { rpos = advance k.rpos }) xs
taken-Holds k x xs q = record {
  rpos_below = ground (arith, q.rpos_below);
  room = omega (arith, q.room);
  wpos_at = ground (arith, q.wpos_at, q.rpos_below);
  content = λ j h. ap k.buf (ground (arith, q.rpos_below)) ∙ q.content (suc j) (omega arith);
}

abbrev take_head : Cons → ℕ × Cons
take_head k =
    if not (k.rpos == k.wpos) then (k.buf k.rpos, record k { rpos = advance k.rpos }) else (0, k)

take_head_lem :
    (k : Cons) (xs : List ℕ)
    → Holds k xs
    → ((take_head k).0 ≡ get_or xs 0 0) × Holds (take_head k).1 (tail xs)
take_head_lem k [] q =
    let e : (k.rpos == k.wpos) ≡ true = ground (arith, q.wpos_at, q.rpos_below) in rw e (refl, q)
take_head_lem k (x ∷ xs) q =
    rw (head_out k x xs q)
      (ap k.buf (omega (arith, q.rpos_below)) ∙ q.content 0 (omega arith), taken-Holds k x xs q)

-- While the buffer has room for what the devices hold, cons_getc returns the oldest byte, first of
-- the buffer and then of what it polls, zeros left out, or 0 if there is none, and the buffer then
-- has the rest in order.
pub cons_getc-fifo :
    (serial kbd : List ℕ) (k : Cons) (xs : List ℕ)
    → Holds k xs
    → length xs + length (kept serial) + length kbd < 512
    → length xs + length serial < 512
    → ((cons_getc serial kbd k).0 ≡ get_or ((xs ++ kept serial) ++ kept kbd) 0 0)
      × Holds (cons_getc serial kbd k).1 (tail ((xs ++ kept serial) ++ kept kbd))
unfolding cons_getc
cons_getc-fifo serial kbd k xs q room first =
    take_head_lem (cons_intr kbd (cons_intr serial k)) ((xs ++ kept serial) ++ kept kbd) (
      cons_intr-Holds kbd (cons_intr serial k) (xs ++ kept serial)
        (cons_intr-Holds serial k xs q first) (omega (arith, length-append xs (kept serial))))
