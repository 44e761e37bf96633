-- ===== src/Kdebug/Region.antt =====
-- What stab_binsearch finds in a table whose entries of the type are in increasing order.
use jos.Base.{
  ℕ, ◌+◌, ◌-◌, ◌%◌, ◌≤◌, ◌<◌, ◌≡◌, ◌≢◌, refl, ap, sym, ◌∙◌, ◌⊎◌, inl, inr, Bool, true, false,
  Bool-cases, ltb, leb, ltb→lt, word, arith,
}
use mathlib.Core.Bool.{false≢true}
use jos.Kdebug.{Stab, Search, is_type, middle, round_with, compare_stab, search_round}
use jos.Kdebug.Ends.{find_back-cases}

module _ (stabs : ℕ → Stab) (type : ℕ) (first last addr : ℕ) where
  abbrev pub value : ℕ → ℕ
  value i = (stabs i).n_value

  -- `i` is an entry of the type in the region from `first` to before `last`.
  pub record InRegion (i : ℕ) : Type 0 where
    pub from : first ≤ i
    pub below : i < last
    pub matches : is_type stabs type i ≡ true

  -- The entries of the type are in strictly increasing order, and none starts at the next address.
  pub record IsOrdered : Type 0 where
    pub increasing : (i j : ℕ) → InRegion i → InRegion j → i < j → value i < value j
    pub not_next : (i : ℕ) → InRegion i → value i ≢ addr + 1

  -- What has been seen: no entry yet that starts at or before the address, or `left` is the last.
  abbrev pub Seen : Bool → ℕ → ℕ → ℕ → Type 0
  Seen any left l now =
      ((left ≡ first) × (now ≡ addr) × ((i : ℕ) → InRegion i → l ≤ i))
      ⊎ (InRegion left
          × (any ≡ true)
          × (value left ≤ addr)
          × ((now ≡ addr) ⊎ (now ≡ addr + 1))
          × ((i : ℕ) → InRegion i → left < i → l ≤ i))

  pub record Narrowed (s : Search) : Type 0 where
    pub l_from : first ≤ s.l
    pub end_below : s.end ≤ last
    pub seen : Seen s.any_matches s.left s.l s.addr
    pub low : (i : ℕ) → InRegion i → i < s.l → value i ≤ addr
    pub high : (i : ℕ) → InRegion i → s.end ≤ i → addr < value i
    pub same_end : s.right_end ≡ s.end
    pub end_at : (s.end ≡ last) ⊎ (InRegion s.end × (s.any_matches ≡ true))
    pub some_found : s.any_matches ≡ true → (i : ℕ) × InRegion i
    pub none_found : s.any_matches ≡ false → (i : ℕ) → InRegion i → s.l ≤ i

  pub after_gap :
      (t l i : ℕ)
      → ((j : ℕ) → l ≤ j → j ≤ t → is_type stabs type j ≡ false)
      → InRegion i
      → l ≤ i
      → t + 1 ≤ i
  after_gap t l i gap r from = elim (Bool-cases (ltb t i)) [
    | inl later ↦ ground arith
    | inr inside ↦ absurd (false≢true (sym (gap i from (ground arith)) ∙ r.matches))
  ]

  -- The entries up to one that starts at or before the address do so too.
  module _ (order : IsOrdered) (m : ℕ) (at_m : InRegion m) where
    up_to : value m ≤ addr → (i : ℕ) → InRegion i → i ≤ m → value i ≤ addr
    up_to h i r le = elim (Bool-cases (ltb i m)) [
      | inl less ↦ omega (arith, order.increasing i m r at_m (ltb→lt i m less))
      | inr same ↦ let e : i ≡ m = ground arith in omega (arith, ap (λ (j : ℕ). value j) e)
    ]

    from_on : addr < value m → (i : ℕ) → InRegion i → m ≤ i → addr < value i
    from_on h i r le = elim (Bool-cases (ltb m i)) [
      | inl less ↦ omega (arith, order.increasing m i at_m r (ltb→lt m i less))
      | inr same ↦ let e : i ≡ m = ground arith in omega (arith, ap (λ (j : ℕ). value j) e)
    ]

  Seen-now : (any : Bool) (left l now : ℕ) → Seen any left l now → (now ≡ addr) ⊎ (now ≡ addr + 1)
  Seen-now any left l now (inl (_, e, _)) = inl e
  Seen-now any left l now (inr (_, _, _, e, _)) = e

  -- With a match, the search has seen one.
  Seen-any : (any : Bool) (left l now : ℕ) → Seen any left l now → Seen true left l now
  Seen-any any left l now (inl h) = inl h
  Seen-any any left l now (inr (r, _, v, e, f)) = inr (r, refl, v, e, f)

  -- No entry of the type from `l` to the middle.
  Seen-skip :
      (t : ℕ) (any : Bool) (left l now : ℕ)
      → ((i : ℕ) → l ≤ i → i ≤ t → is_type stabs type i ≡ false)
      → Seen any left l now
      → Seen any left (t + 1) now
  Seen-skip t any left l now gap (inl (e, a, f)) = inl (e, a, λ i r. after_gap t l i gap r (f i r))
  Seen-skip t any left l now gap (inr (r, a, v, e, f)) =
      inr (r, a, v, e, λ i q gt. after_gap t l i gap q (f i q gt))

  skip-Narrowed :
      (t : ℕ) (s : Search)
      → Narrowed s
      → s.l ≤ t
      → ((i : ℕ) → s.l ≤ i → i ≤ t → is_type stabs type i ≡ false)
      → Narrowed (record s { l = t + 1 })
  skip-Narrowed t s v h gap = record {
    l_from = omega (arith, v.l_from);
    end_below = v.end_below;
    seen = Seen-skip t s.any_matches s.left s.l s.addr gap v.seen;
    low = λ i r lt. elim (Bool-cases (ltb i s.l)) [
      | inl less ↦ v.low i r (ltb→lt i s.l less)
      | inr more ↦ absurd (omega (arith, after_gap t s.l i gap r (ground arith)))
    ];
    high = v.high;
    same_end = v.same_end;
    end_at = v.end_at;
    some_found = v.some_found;
    none_found = λ e i r. after_gap t s.l i gap r (v.none_found e i r);
  }

  module _ (order : IsOrdered) (m t : ℕ) (s : Search) (v : Narrowed s) (at_m : InRegion m)
      (from : s.l ≤ m) (upto : m ≤ t)
      (gap : (i : ℕ) → m + 1 ≤ i → i ≤ t → is_type stabs type i ≡ false) where
    now : (s.addr ≡ addr) ⊎ (s.addr ≡ addr + 1)
    now = Seen-now s.any_matches s.left s.l s.addr v.seen

    match_end : (s.end ≡ last) ⊎ (InRegion s.end × (true ≡ true))
    match_end = elim v.end_at [ inl e ↦ inl e | inr (r, _) ↦ inr (r, refl) ]

    before-Narrowed :
        value m < s.addr → Narrowed (record s { any_matches = true; left = m; l = t + 1 })
    before-Narrowed h =
        let le : value m ≤ addr = ground (arith, now) in
        record {
          l_from = omega (arith, v.l_from);
          end_below = v.end_below;
          seen = inr (at_m, refl, le, now, λ i r gt. after_gap t (m + 1) i gap r (omega arith));
          low = λ i r lt. elim (Bool-cases (leb i m)) [
            | inl upto_m ↦ up_to order m at_m le i r (ground arith)
            | inr past ↦ absurd (omega (arith, after_gap t (m + 1) i gap r (ground arith)))
          ];
          high = v.high;
          same_end = v.same_end;
          end_at = match_end;
          some_found = λ e. (m, at_m);
          none_found = λ e. cc;
        }

    after-Narrowed :
        s.addr < value m → Narrowed (record s { any_matches = true; right_end = m; end = m })
    after-Narrowed h =
        let gt : addr < value m = ground (arith, now) in
        record {
          l_from = v.l_from;
          end_below = omega (arith, at_m.below);
          seen = Seen-any s.any_matches s.left s.l s.addr v.seen;
          low = v.low;
          high = λ i r le. from_on order m at_m gt i r le;
          same_end = refl;
          end_at = inr (at_m, refl);
          some_found = λ e. (m, at_m);
          none_found = λ e. cc;
        }

    at-Narrowed :
        addr + 1 < word
        → value m ≡ s.addr
        → Narrowed (record s { any_matches = true; left = m; l = m; addr = (s.addr + 1) % word })
    at-Narrowed small e =
        let same : s.addr ≡ addr = ground (arith, now, order.not_next m at_m) in
        let le : value m ≤ addr = omega arith in
        record {
          l_from = at_m.from;
          end_below = v.end_below;
          seen = inr (at_m, refl, le, inr (omega arith), λ i r gt. omega arith);
          low = λ i r lt. up_to order m at_m le i r (omega arith);
          high = v.high;
          same_end = v.same_end;
          end_at = match_end;
          some_found = λ e. (m, at_m);
          none_found = λ e. cc;
        }

    compare-Narrowed : addr + 1 < word → Narrowed (compare_stab stabs type m t s)
    unfolding compare_stab
    compare-Narrowed small = elim (Bool-cases (ltb (value m) s.addr)) [
      | inl less ↦ rw less (before-Narrowed (ltb→lt _ _ less))
      | inr no_less ↦ rw no_less (elim (Bool-cases (ltb s.addr (value m))) [
        | inl more ↦ rw more (after-Narrowed (ltb→lt _ _ more))
        | inr no_more ↦ rw no_more (at-Narrowed small (ground arith))
      ])
    ]

  pub round-Narrowed :
      IsOrdered
      → addr + 1 < word
      → (s : Search) → Narrowed s
      → s.l < s.end
      → Narrowed (search_round stabs type s)
  unfolding search_round round_with
  round-Narrowed order small s v h = elim (find_back-cases stabs type (middle s + 1 - s.l) s.l) [
    | inl (e, gap) ↦
        rw e (skip-Narrowed (middle s) s v (omega arith) (λ i from upto. gap i from (omega arith)))
    | inr (m, e, p) ↦
        let at_m : InRegion m = record {
          from = omega (arith, v.l_from, p.from);
          below = omega (arith, v.end_below, p.below);
          matches = p.matches;
        } in
        rw e (
          compare-Narrowed order m (middle s) s v at_m p.from (omega (arith, p.below))
            (λ i from upto. p.after i (omega arith) (omega arith)) small)
  ]
