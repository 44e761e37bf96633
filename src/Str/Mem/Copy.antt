-- ===== src/Str/Mem/Copy.antt =====
-- memmove of lib/string.c copies the old bytes, whichever way the blocks overlap.
use jos.Base.{
  ℕ, zero, suc, ◌+◌, ◌-◌, ◌*◌, ◌/◌, ◌%◌, ◌≤◌, ◌<◌, ◌≡◌, ◌⊎◌, inl, inr, ap, ◌∙◌, ◌&&◌, ◌==◌, ltb,
  leb, if◌then◌else◌, update, arith, true, false, Bool-cases, Bool, ltb→lt,
}
use mathlib.Core.Path.{ap₂}
use jos.Str.Mem.{Memory, move_word, movsb_up, movsl_up, movsb_down, movsl_down, memmove}

-- The memory with the `n` bytes from `s` at `d`, as they were in `m`.
abbrev pub copied : ℕ → ℕ → ℕ → Memory → Memory
copied n d s m i = if leb d i && ltb i (d + n) then m (s + (i - d)) else m i

-- What the memory function says at equal addresses.
at_equal : (m : Memory) {a b : ℕ} → a ≡ b → m a ≡ m b
at_equal m e = ap m e

up_step :
    (n d s : ℕ) (m : Memory) (i : ℕ)
    → (d ≤ s) ⊎ (s + suc n ≤ d)
    → copied n (d + 1) (s + 1) (update m d (m s)) i ≡ copied (suc n) d s m i
up_step n d s m i h = grind arith

movsb_up_lem :
    (n d s : ℕ) (m : Memory) (i : ℕ) → (d ≤ s) ⊎ (s + n ≤ d) → movsb_up n d s m i ≡ copied n d s m i
unfolding movsb_up
movsb_up_lem zero d s m i h = ground arith
movsb_up_lem (suc n) d s m i h =
    movsb_up_lem n (d + 1) (s + 1) (update m d (m s)) i (omega arith) ∙ up_step n d s m i h

move_word-copied : (d s : ℕ) (m : Memory) (i : ℕ) → move_word d s m i ≡ copied 4 d s m i
move_word-copied d s m i = grind arith

rest_of :
    (n d s : ℕ) (m : Memory) (i : ℕ)
    → (d ≤ s) ⊎ (s + suc n * 4 ≤ d)
    → (leb (d + 4) i && ltb i (d + 4 + n * 4)) ≡ true
    → copied 4 d s m (s + 4 + (i - (d + 4))) ≡ copied (suc n * 4) d s m i
rest_of n d s m i h e = grind arith

word_of :
    (n d s : ℕ) (m : Memory) (i : ℕ)
    → (leb (d + 4) i && ltb i (d + 4 + n * 4)) ≡ false
    → copied 4 d s m i ≡ copied (suc n * 4) d s m i
word_of n d s m i e = grind arith

up_word_step :
    (n d s : ℕ) (m : Memory) (i : ℕ)
    → (d ≤ s) ⊎ (s + suc n * 4 ≤ d)
    → copied (n * 4) (d + 4) (s + 4) (move_word d s m) i ≡ copied (suc n * 4) d s m i
up_word_step n d s m i h = elim (Bool-cases (leb (d + 4) i && ltb i (d + 4 + n * 4))) [
  | inl in_rest ↦
      rw in_rest (move_word-copied d s m (s + 4 + (i - (d + 4))) ∙ rest_of n d s m i h in_rest)
  | inr out ↦ rw out (move_word-copied d s m i ∙ word_of n d s m i out)
]

movsl_up_lem :
    (n d s : ℕ) (m : Memory) (i : ℕ)
    → (d ≤ s) ⊎ (s + n * 4 ≤ d)
    → movsl_up n d s m i ≡ copied (n * 4) d s m i
unfolding movsl_up
movsl_up_lem zero d s m i h = ground arith
movsl_up_lem (suc n) d s m i h =
    movsl_up_lem n (d + 4) (s + 4) (move_word d s m) i (omega arith) ∙ up_word_step n d s m i h

down_step :
    (n d s : ℕ) (m : Memory) (i : ℕ)
    → suc n ≤ s
    → s ≤ d
    → copied n (d - 1 - n) (s - 1 - n) (update m (d - 1) (m (s - 1))) i
      ≡ copied (suc n) (d - suc n) (s - suc n) m i
down_step n d s m i h k = grind arith

movsb_down_lem :
    (n d s : ℕ) (m : Memory) (i : ℕ)
    → n ≤ s
    → s ≤ d
    → movsb_down n d s m i ≡ copied n (d - n) (s - n) m i
unfolding movsb_down
movsb_down_lem zero d s m i h k = ground arith
movsb_down_lem (suc n) d s m i h k =
    movsb_down_lem n (d - 1) (s - 1) (update m (d - 1) (m (s - 1))) i (omega arith) (omega arith)
    ∙ down_step n d s m i h k

-- Downwards the blocks that are left end where the last word was written.
left_of :
    (n d s : ℕ) (m : Memory) (i : ℕ)
    → s ≤ d
    → (leb d i && ltb i (d + n * 4)) ≡ true
    → copied 4 (d + n * 4) (s + n * 4) m (s + (i - d)) ≡ copied (suc n * 4) d s m i
left_of n d s m i h e = grind arith

last_of :
    (n d s : ℕ) (m : Memory) (i : ℕ)
    → (leb d i && ltb i (d + n * 4)) ≡ false
    → copied 4 (d + n * 4) (s + n * 4) m i ≡ copied (suc n * 4) d s m i
last_of n d s m i e = grind arith

down_word_step :
    (n d s d' s' : ℕ) (m : Memory) (i : ℕ)
    → s ≤ d
    → d' ≡ d + n * 4
    → s' ≡ s + n * 4
    → copied (n * 4) d s (move_word d' s' m) i ≡ copied (suc n * 4) d s m i
down_word_step n d s d' s' m i h e f =
    rw (e, f)
      (elim (Bool-cases (leb d i && ltb i (d + n * 4))) [
        | inl in_left ↦
            rw in_left (
              move_word-copied (d + n * 4) (s + n * 4) m (s + (i - d))
              ∙ left_of n d s m i h in_left)
        | inr out ↦ rw out (move_word-copied (d + n * 4) (s + n * 4) m i ∙ last_of n d s m i out)
      ])

-- `d` and `s` are the lowest addresses of the blocks, `d'` and `s'` those behind them.
movsl_down_lem :
    (n d s d' s' : ℕ) (m : Memory) (i : ℕ)
    → s ≤ d
    → d' ≡ d + n * 4
    → s' ≡ s + n * 4
    → movsl_down n d' s' m i ≡ copied (n * 4) d s m i
unfolding movsl_down
movsl_down_lem zero d s d' s' m i h e f = ground arith
movsl_down_lem (suc n) d s d' s' m i h e f =
    movsl_down_lem n d s (d' - 4) (s' - 4) (move_word (d' - 4) (s' - 4) m) i h (omega arith)
      (omega arith)
    ∙ down_word_step n d s (d' - 4) (s' - 4) m i h (omega arith) (omega arith)

abbrev words_fit : ℕ → ℕ → ℕ → Bool
words_fit a b n = a % 4 == 0 && b % 4 == 0 && n % 4 == 0

-- A block of whole words.
quarters : (n : ℕ) → n % 4 ≡ 0 → n / 4 * 4 ≡ n
quarters n h = omega arith

whole : (a b n : ℕ) → words_fit a b n ≡ true → n / 4 * 4 ≡ n
whole a b n h = quarters n (ground arith)

-- memmove leaves at `dst` the `n` bytes that were at `src`, and every other byte alone, for any
-- overlap and alignment.
pub memmove-copied :
    (dst src n : ℕ) (m : Memory) (i : ℕ) → memmove dst src n m i ≡ copied n dst src m i
unfolding memmove
memmove-copied dst src n m i = elim (Bool-cases (ltb src dst && ltb dst (src + n))) [
  | inl over ↦ rw over (elim (Bool-cases (words_fit (src + n) (dst + n) n)) [
    | inl by_words ↦
        let q = whole (src + n) (dst + n) n by_words in
        rw by_words (
          movsl_down_lem (n / 4) dst src (dst + n) (src + n) m i (ground arith) (omega arith)
            (omega arith)
          ∙ ap (λ (t : ℕ). copied t dst src m i) q)
    | inr by_bytes ↦ rw by_bytes (
        movsb_down_lem n (dst + n) (src + n) m i (omega arith) (ground arith)
        ∙ ap₂ (λ (a b : ℕ). copied n a b m i) (omega arith) (omega arith))
  ])
  | inr apart ↦ rw apart (elim (Bool-cases (words_fit src dst n)) [
    | inl by_words ↦
        let q = whole src dst n by_words in
        rw by_words (
          movsl_up_lem (n / 4) dst src m i (ahead (n / 4 * 4) dst src (ground arith))
          ∙ ap (λ (t : ℕ). copied t dst src m i) q)
    | inr by_bytes ↦ rw by_bytes (movsb_up_lem n dst src m i (ahead n dst src (ground arith)))
  ])
]
  where
    ahead : (n d s : ℕ) → ((s < d) → s + n ≤ d) → (d ≤ s) ⊎ (s + n ≤ d)
    ahead n d s h = elim (Bool-cases (ltb s d)) [
      | inl lt ↦ inr (h (ltb→lt s d lt))
      | inr ge ↦ inl (ground arith)
    ]
