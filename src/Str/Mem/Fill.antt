-- ===== src/Str/Mem/Fill.antt =====
-- memset of lib/string.c stores the low byte of `c`, whichever of its two loops runs.
use jos.Base.{
  ℕ, zero, suc, ◌+◌, ◌*◌, ◌/◌, ◌%◌, ◌<◌, ◌≡◌, ap, ◌∙◌, inl, inr, ◌&&◌, ◌==◌, ltb, leb,
  if◌then◌else◌, update, Bool-cases, arith,
}
use jos.Str.Mem.{Memory, stosb, stosl, spread, memset}

-- The memory with `c` in the `n` bytes from `v` on.
abbrev pub filled : ℕ → ℕ → ℕ → Memory → Memory
filled v c n m i = if leb v i && ltb i (v + n) then c else m i

stosb_lem : (n d c : ℕ) (m : Memory) (i : ℕ) → stosb n d c m i ≡ filled d (c % 256) n m i
unfolding stosb
stosb_lem zero d c m i = ground arith
stosb_lem (suc n) d c m i = stosb_lem n (d + 1) c (update m d (c % 256)) i ∙ grind arith

spread_bytes :
    (c : ℕ)
    → c < 256
    → (spread c % 256 ≡ c)
      × (spread c / 256 % 256 ≡ c)
      × (spread c / 0x1_0000 % 256 ≡ c)
      × (spread c / 0x100_0000 % 256 ≡ c)
spread_bytes c h = (omega arith, omega arith, omega arith, omega arith)

abbrev four : ℕ → ℕ → Memory → Memory
four d c m = update (update (update (update m d c) (d + 1) c) (d + 2) c) (d + 3) c

four_step :
    (n d c : ℕ) (m : Memory) (i : ℕ)
    → filled (d + 4) c (n * 4) (four d c m) i ≡ filled d c (suc n * 4) m i
four_step n d c m i = grind arith

stosl_lem :
    (n d c : ℕ) (m : Memory) (i : ℕ) → c < 256 → stosl n d (spread c) m i ≡ filled d c (n * 4) m i
unfolding stosl
stosl_lem zero d c m i h = ground arith
stosl_lem (suc n) d c m i h =
    let (b0, b1, b2, b3) = spread_bytes c h in
    rw (b0, b1, b2, b3) (stosl_lem n (d + 4) c (four d c m) i h ∙ four_step n d c m i)

-- memset leaves the low byte of `c` in the `n` bytes from `v` on, and every other byte alone, for
-- any alignment.
pub memset-filled : (v c n : ℕ) (m : Memory) (i : ℕ) → memset v c n m i ≡ filled v (c % 256) n m i
unfolding memset
memset-filled v c n m i = elim (Bool-cases (n == 0)) [
  | inl none_left ↦ rw none_left (ground arith)
  | inr some_left ↦ rw some_left (elim (Bool-cases (v % 4 == 0 && n % 4 == 0)) [
    | inl by_words ↦
        let q : n / 4 * 4 ≡ n = ground arith in
        rw by_words (
          stosl_lem (n / 4) v (c % 256) m i (omega arith)
          ∙ ap (λ (t : ℕ). filled v (c % 256) t m i) q)
    | inr by_bytes ↦ rw by_bytes (stosb_lem n v c m i)
  ])
]
