-- ===== src/Kdebug/Found.antt =====
-- The result of stab_binsearch, for a table whose entries of the type are in increasing order.
use jos.Base.{
  ℕ, zero, suc, ◌+◌, ◌-◌, ◌*◌, ◌≤◌, ◌<◌, ◌≡◌, refl, ap, ◌∙◌, ◌⊎◌, inl, inr, true, false, some,
  Bool-cases, ltb, lt→ltb, ltb→lt, word, arith,
}
use jos.Kdebug.{Stab, Search, is_type, search_start, scan_down, search_result, stab_binsearch}
use jos.Kdebug.Ends.{search_loop-ends, start-measure}
use jos.Kdebug.Region.{InRegion, IsOrdered, Narrowed, round-Narrowed, value}

scan_down-stays :
    (stabs : ℕ → Stab) (type n left : ℕ)
    → ((i : ℕ) → left < i → i ≤ left + n → is_type stabs type i ≡ false)
    → scan_down stabs type n left ≡ left
unfolding scan_down
scan_down-stays stabs type zero left none_of = refl
scan_down-stays stabs type (suc n) left none_of =
    rw (scan_down, none_of (left + suc n) (omega arith) (omega arith))
      (scan_down-stays stabs type n left (λ i h k. none_of i h (omega arith)))

module _ (stabs : ℕ → Stab) (type first last addr : ℕ) where
  -- The entry `l` is the last that starts at or before the address, and `r` the next one, or the
  -- end of the region.
  pub record Brackets (l r : ℕ) : Type 0 where
    pub entry : InRegion stabs type first last addr l
    pub starts : value stabs type first last addr l ≤ addr
    pub is_last :
        (i : ℕ)
        → InRegion stabs type first last addr i
        → l < i
        → addr < value stabs type first last addr i
    pub before : l < r
    pub next : (i : ℕ) → InRegion stabs type first last addr i → l < i → r ≤ i
    pub end : (r ≡ last) ⊎ InRegion stabs type first last addr r

  start-Narrowed : Narrowed stabs type first last addr (search_start stabs type first last addr)
  start-Narrowed = record {
    l_from = omega arith;
    end_below = omega arith;
    seen = inl (refl, refl, λ i r. r.from);
    low = λ i r lt. absurd (omega (arith, r.from));
    high = λ i r le. absurd (omega (arith, r.below));
    same_end = refl;
    end_at = inl refl;
    some_found = λ e. cc;
    none_found = λ e i r. r.from;
  }

  module _ (order : IsOrdered stabs type first last addr) (small : addr + 1 < word) where
    finished :
        (t : Search) × (stab_binsearch stabs type first last addr
          ≡ some (search_result stabs type t))
        × Narrowed stabs type first last addr t
        × (t.end ≤ t.l)
    unfolding stab_binsearch
    finished =
        let (t, e, v, over) =
          search_loop-ends stabs type (Narrowed stabs type first last addr)
            (round-Narrowed stabs type first last addr order small) (2 * (last - first) + 2)
            (search_start stabs type first last addr) (start-measure stabs type first last addr)
            (omega arith) start-Narrowed in
        (t, rw (stab_binsearch, e) refl, v, over)

    -- Between the last entry at or before the address and `end` there is none of the type.
    no_type :
        (t : Search) (left : ℕ)
        → Narrowed stabs type first last addr t
        → first ≤ left
        → ((i : ℕ) → InRegion stabs type first last addr i → left < i → t.end ≤ i)
        → (i : ℕ) → left < i
        → i < t.end
        → is_type stabs type i ≡ false
    no_type t left v from beyond i lo hi = elim (Bool-cases (is_type stabs type i)) [
      | inr other ↦ other
      | inl yes_type ↦ absurd (
          omega (
            arith,
            beyond i
                (record {
                  from = omega arith;
                  below = omega (arith, v.end_below);
                  matches = yes_type;
                })
                lo,
          ))
    ]

    result_at :
        (t : Search) (left : ℕ)
        → Narrowed stabs type first last addr t
        → t.left ≡ left
        → t.any_matches ≡ true
        → first ≤ left
        → left < t.end
        → ((i : ℕ) → InRegion stabs type first last addr i → left < i → t.end ≤ i)
        → search_result stabs type t ≡ (left + 1, t.end)
    unfolding search_result
    result_at t left v at_left matched from lt beyond =
        rw (matched, at_left, v.same_end, lt→ltb left t.end lt)
          (ap (λ (n : ℕ). (n + 1, t.end))
            (scan_down-stays stabs type (t.end - 1 - left) left
              (λ i lo hi. no_type t left v from beyond i lo (omega arith))))

    -- The entries of the type in the region start at increasing addresses, none of them at the one
    -- after `addr`, which is below 2 ^ 32 - 1. If some entry starts at or before `addr`, the search
    -- returns the last such entry as the left end, and as the right end the place before the next
    -- entry of the type or before the end of the region.
    pub stab_binsearch-Brackets :
        (k : ℕ)
        → InRegion stabs type first last addr k
        → value stabs type first last addr k ≤ addr
        → (l r : ℕ) × (stab_binsearch stabs type first last addr ≡ some (l + 1, r)) × Brackets l r
    stab_binsearch-Brackets k at_k starts =
        let (t, e, v, over) = finished in
        elim v.seen [
          | inl (_, _, unseen) ↦
              absurd (omega (arith, unseen k at_k, v.high k at_k (omega (arith, unseen k at_k))))
          | inr (at_left, matched, le, _, later) ↦
              let lt : t.left < t.end = elim (Bool-cases (ltb t.left t.end)) [
                | inl less ↦ ltb→lt _ _ less
                | inr more ↦ absurd (omega (arith, v.high t.left at_left (ground arith)))
              ] in
              (
                t.left,
                t.end,
                e
                    ∙ ap some (
                        result_at t t.left v refl matched at_left.from lt
                          (λ i r gt. omega (arith, later i r gt))),
                record {
                  entry = at_left;
                  starts = le;
                  is_last = λ i r gt. v.high i r (omega (arith, later i r gt));
                  before = lt;
                  next = λ i r gt. omega (arith, later i r gt);
                  end = elim v.end_at [ inl q ↦ inl q | inr (r, _) ↦ inr r ];
                },
              )
        ]

    -- With the same order of the entries: if the region has entries of the type, and all start after
    -- `addr`, the search still returns a left end that is not above the right end.
    pub stab_binsearch-above :
        (k : ℕ)
        → InRegion stabs type first last addr k
        → ((i : ℕ)
            → InRegion stabs type first last addr i
            → addr < value stabs type first last addr i)
        → (r : ℕ × ℕ) × (stab_binsearch stabs type first last addr ≡ some r) × (r.0 ≤ r.1)
    unfolding search_result
    stab_binsearch-above k at_k above =
        let (t, e, v, over) = finished in
        elim v.seen [
          | inr (at_left, _, le, _, _) ↦ absurd (omega (arith, above t.left at_left))
          | inl (at_first, _, unseen) ↦ elim v.end_at [
            | inl whole ↦ absurd (omega (arith, unseen k at_k, at_k.below))
            | inr (at_end, matched) ↦ elim (Bool-cases (ltb first t.end)) [
              | inl lt ↦ (
                (first + 1, t.end),
                e
                    ∙ ap some (
                        result_at t first v at_first matched (omega arith) (ltb→lt _ _ lt)
                          (λ i r gt. omega (arith, unseen i r))),
                ground arith,
              )
              | inr ge ↦ (
                (t.end, t.end),
                e ∙ ap some (rw (matched, at_first, v.same_end, ge) refl),
                omega arith,
              )
            ]
          ]
        ]
