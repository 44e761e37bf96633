-- ===== src/Kdebug/Ends.antt =====
-- stab_binsearch ends, on every table.
use jos.Base.{
  ℕ, zero, suc, ◌+◌, ◌-◌, ◌*◌, ◌≤◌, ◌<◌, ◌≡◌, refl, ap, ◌∙◌, ◌⊎◌, inl, inr, true, false, none, some,
  Bool-cases, ==→eq, ltb→lt, ltb, ◌==◌, if◌then◌else◌, word, arith,
}
use jos.Kdebug.{
  Stab, Search, is_type, middle, round_with, find_back, compare_stab, search_round, search_loop,
  search_start, search_result, stab_binsearch,
}

module _ (stabs : ℕ → Stab) (type : ℕ) where
  -- `m` is the last index of the type among the `n` from `l` on.
  pub record IsLast (n l m : ℕ) : Type 0 where
    pub from : l ≤ m
    pub below : m < l + n
    pub matches : is_type stabs type m ≡ true
    pub after : (i : ℕ) → m < i → i < l + n → is_type stabs type i ≡ false

  abbrev pub NoneOf : ℕ → ℕ → Type 0
  NoneOf n l = (i : ℕ) → l ≤ i → i < l + n → is_type stabs type i ≡ false

  one_more : (n l m : ℕ) → is_type stabs type (l + n) ≡ false → IsLast n l m → IsLast (suc n) l m
  one_more n l m other p = record {
    from = p.from;
    below = omega (arith, p.below);
    matches = p.matches;
    after = λ i h k. elim (Bool-cases (i == l + n)) [
      | inl last ↦ ap (is_type stabs type) (==→eq _ _ last) ∙ other
      | inr earlier ↦ p.after i h (ground arith)
    ];
  }

  none_more : (n l : ℕ) → is_type stabs type (l + n) ≡ false → NoneOf n l → NoneOf (suc n) l
  none_more n l other p i h k = elim (Bool-cases (i == l + n)) [
    | inl last ↦ ap (is_type stabs type) (==→eq _ _ last) ∙ other
    | inr earlier ↦ p i h (ground arith)
  ]

  pub find_back-cases :
      (n l : ℕ)
      → ((find_back stabs type n l ≡ none) × NoneOf n l)
        ⊎ ((m : ℕ) × (find_back stabs type n l ≡ some m) × IsLast n l m)
  unfolding find_back
  find_back-cases zero l = inl (refl, λ i h k. absurd (omega arith))
  find_back-cases (suc n) l = elim (Bool-cases (is_type stabs type (l + n))) [
    | inl yes_type ↦ inr (
      l + n,
      rw yes_type refl,
      record {
        from = omega arith;
        below = omega arith;
        matches = yes_type;
        after = λ i h k. absurd (omega arith);
      },
    )
    | inr other ↦ elim (find_back-cases n l) [
      | inl (e, p) ↦ inl (rw other e, none_more n l other p)
      | inr (m, e, p) ↦ inr (m, rw other e, one_more n l m other p)
    ]
  ]

  -- The entry at `l` counts once more while it can still match exactly.
  pub measure : Search → ℕ
  measure s = 2 * (s.end - s.l) + (if (stabs s.l).n_value == s.addr then 1 else 0)

  compare-shrinks :
      (m t : ℕ) (s : Search)
      → s.l ≤ m
      → m ≤ t
      → t < s.end
      → s.addr < word
      → measure (compare_stab stabs type m t s) < measure s
  unfolding measure compare_stab
  compare-shrinks m t s from below small w = elim (Bool-cases (m == s.l)) [
    | inl first ↦ let e : m ≡ s.l = ==→eq _ _ first in rw e (ground arith)
    | inr later ↦ ground arith
  ]

  addr-round : (s : Search) → s.addr < word → (search_round stabs type s).addr < word
  unfolding search_round round_with compare_stab
  addr-round s w = elim (find_back-cases (middle s + 1 - s.l) s.l) [
    | inl (e, p) ↦ rw e w
    | inr (m, e, p) ↦ rw e (ground arith)
  ]

  shrinks :
      (s : Search) → s.l < s.end → s.addr < word → measure (search_round stabs type s) < measure s
  unfolding search_round
  shrinks s h w = elim (find_back-cases (middle s + 1 - s.l) s.l) [
    | inl (e, p) ↦ rw e (unfold round_with measure in ground arith)
    | inr (m, e, p) ↦ rw e (
        unfold round_with in
        compare-shrinks m (middle s) s p.from (omega (arith, p.below)) (omega arith) w)
  ]

  -- The loop ends, and keeps what each round keeps.
  pub search_loop-ends :
      (P : Search → Type 0)
      → ((s : Search) → P s → s.l < s.end → P (search_round stabs type s))
      → (fuel : ℕ) (s : Search) → measure s < fuel
      → s.addr < word
      → P s
      → (t : Search) × (search_loop stabs type fuel s ≡ some t) × P t × (t.end ≤ t.l)
  unfolding search_loop
  search_loop-ends P keep zero s m w p = absurd (omega arith)
  search_loop-ends P keep (suc fuel) s m w p = elim (Bool-cases (ltb s.l s.end)) [
    | inr over ↦ (s, rw (search_loop, over) refl, p, ground arith)
    | inl more ↦
        let h = ltb→lt _ _ more in
        let small = shrinks s h w in
        let (t, e, q, done) =
          search_loop-ends P keep fuel (search_round stabs type s) (omega arith) (addr-round s w)
            (keep s p h) in
        (t, rw (search_loop, more) e, q, done)
  ]

  pub start-measure :
      (left right_end addr : ℕ)
      → measure (search_start stabs type left right_end addr) < 2 * (right_end - left) + 2
  unfolding measure
  start-measure left right_end addr = ground arith

  -- On any table of symbols, sorted or not, and for any region and 32-bit address, the search ends.
  pub stab_binsearch-ends :
      (left right_end addr : ℕ)
      → addr < word
      → (r : ℕ × ℕ) × (stab_binsearch stabs type left right_end addr ≡ some r)
  unfolding stab_binsearch
  stab_binsearch-ends left right_end addr w =
      let (t, e, _, _) =
        search_loop-ends (λ s. Unit {0}) (λ s p h. tt) (2 * (right_end - left) + 2)
          (search_start stabs type left right_end addr) (start-measure left right_end addr) w tt in
      (search_result stabs type t, rw (stab_binsearch, e) refl)
