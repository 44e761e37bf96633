-- ===== src/PageTable/UserMem/Range.antt =====
-- What user_mem_check of kern/pmap.c decides, page by page.
use jos.Base.{
  ℕ, zero, suc, ◌+◌, ◌-◌, ◌*◌, ◌/◌, ◌≤◌, ◌<◌, ◌≡◌, ◌⊎◌, refl, ap, ◌∙◌, Bool, true, false, ◌&&◌,
  Option, none, some, ltb, ◌==◌, if◌then◌else◌, has, bit_and, Bool-cases, inl, inr, round_up,
  round_down, add32, word, arith,
}
use jos.Mmu.{pdx, pte_p, ulim}
use jos.Phys.{Phys}
use jos.PageTable.Walk.{IsDir, pde_of, pte_of, walk_present, walk_absent}
use jos.PageTable.UserMem.{is_denied, check_page, check_pages, user_mem_check}

-- The page at `i` lies below ULIM and both levels map it, the last with all of `perm`.
abbrev pub user_ok : Phys → ℕ → ℕ → ℕ → Bool
user_ok s d perm i =
    has (pde_of s d i) pte_p
    && (ltb i ulim && (has (pte_of s d i) pte_p && bit_and (pte_of s d i) perm == perm))

-- The first of `n` pages from `i` on that fails a test, as the loop reports it.
module _ (test : ℕ → Bool) (va : ℕ) where
  unfoldable pub scan : ℕ → ℕ → Option ℕ
  scan zero i = none
  scan (suc n) i = if test i then scan n (i + 4096) else some (if ltb i va then va else i)

  abbrev pub PassTo : ℕ → ℕ → Type 0
  PassTo n i = (j : ℕ) → j < n → test (i + j * 4096) ≡ true

  pub record FailsAt (n i x : ℕ) : Type 0 where
    pub at_page : ℕ
    pub below : at_page < n
    pub fails : test (i + at_page * 4096) ≡ false
    pub before : PassTo at_page i
    pub reported : x ≡ (if ltb (i + at_page * 4096) va then va else i + at_page * 4096)

  pass_on : (n i : ℕ) → test i ≡ true → PassTo n (i + 4096) → PassTo (suc n) i
  pass_on n i ok rest zero h = rw (← ok) (ap test (omega arith))
  pass_on n i ok rest (suc j) h = ap test (omega arith) ∙ rest j (omega arith)

  first : (n i : ℕ) → test i ≡ false → FailsAt (suc n) i (if ltb i va then va else i)
  first n i bad = record {
    at_page = 0;
    below = omega arith;
    fails = ap test (omega arith) ∙ bad;
    before = λ j h. absurd (omega arith);
    reported = ground arith;
  }

  further : (n i x : ℕ) → test i ≡ true → FailsAt n (i + 4096) x → FailsAt (suc n) i x
  further n i x ok f = record {
    at_page = suc f.at_page;
    below = omega (arith, f.below);
    fails = ap test (omega arith) ∙ f.fails;
    before = pass_on f.at_page i ok f.before;
    reported = f.reported ∙ ground arith;
  }

  pub scan-cases :
      (n i : ℕ) → ((scan n i ≡ none) × PassTo n i) ⊎ ((x : ℕ) × (scan n i ≡ some x) × FailsAt n i x)
  unfolding scan
  scan-cases zero i = inl (refl, λ j h. absurd (omega arith))
  scan-cases (suc n) i = elim (Bool-cases (test i)) [
    | inr bad ↦ inr ((if ltb i va then va else i), rw bad, first n i bad)
    | inl ok ↦ elim (scan-cases n (i + 4096)) [
      | inl (e, p) ↦ inl (rw ok e, pass_on n i ok p)
      | inr (x, e, f) ↦ inr (x, rw ok e, further n i x ok f)
    ]
  ]

module _ (s : Phys) (d va perm : ℕ) (dir : IsDir s d) where
  one_page :
      (n i : ℕ)
      → check_pages (suc n) i d va perm s ≡ (
          if user_ok s d perm i
          then check_pages n (i + 4096) d va perm s
          else some (some (if ltb i va then va else i), s))
  unfolding check_pages is_denied
  one_page n i = elim (Bool-cases (has (pde_of s d i) pte_p)) [
    | inl p ↦
        ap (check_page i va perm (check_pages n (i + 4096) d va perm))
          (walk_present s d i false p (dir (pdx i) p))
        ∙ ground arith
    | inr p ↦
        ap (check_page i va perm (check_pages n (i + 4096) d va perm)) (walk_absent s d i p)
        ∙ ground arith
  ]

  check_pages-scan :
      (n i : ℕ) → check_pages n i d va perm s ≡ some (scan (user_ok s d perm) va n i, s)
  unfolding scan
  check_pages-scan zero i = unfold check_pages in refl
  check_pages-scan (suc n) i = elim (Bool-cases (user_ok s d perm i)) [
    | inl ok ↦ one_page n i ∙ rw ok (check_pages-scan n (i + 4096))
    | inr bad ↦ one_page n i ∙ rw bad refl
  ]

-- The pages that hold `[va, va + len)`, if that does not wrap.
rounds : (va len : ℕ) → ℕ
rounds va len = (va + len + 4095) / 4096 - va / 4096

module _ (s : Phys) (d va len perm : ℕ) (dir : IsDir s d) (fits : va + len + 4095 < word) where
  check-scan :
      user_mem_check d va len perm s
      ≡ some (scan (user_ok s d perm) va (rounds va len) (va / 4096 * 4096), s)
  unfolding user_mem_check rounds round_up round_down
  check-scan =
      ap (λ (n : ℕ). check_pages n (round_down va 4096) d va perm s) (omega arith)
      ∙ ap (λ (b : ℕ). check_pages (rounds va len) b d va perm s) (omega arith)
      ∙ check_pages-scan s d va perm dir (rounds va len) (va / 4096 * 4096)

  -- The page of an address in the range is one of those that the loop visits.
  visits :
      (a : ℕ)
      → va ≤ a
      → a < va + len
      → (j : ℕ) × (j < rounds va len) × (a / 4096 * 4096 ≡ va / 4096 * 4096 + j * 4096)
  unfolding rounds
  visits a lo hi = (a / 4096 - va / 4096, omega arith, omega arith)

  abbrev pub Accessible : ℕ → Type 0
  Accessible a = user_ok s d perm (a / 4096 * 4096) ≡ true

  accessible :
      PassTo (user_ok s d perm) va (rounds va len) (va / 4096 * 4096)
      → (a : ℕ) → va ≤ a
      → a < va + len
      → Accessible a
  accessible pass a lo hi = let (j, lt, e) = visits a lo hi in ap (user_ok s d perm) e ∙ pass j lt

  -- The address that is reported for the first page that fails.
  faulty :
      (x : ℕ)
      → 0 < len
      → FailsAt (user_ok s d perm) va (rounds va len) (va / 4096 * 4096) x
      → (va ≤ x)
        × (x < va + len)
        × (user_ok s d perm (x / 4096 * 4096) ≡ false)
        × ((a : ℕ) → va ≤ a → a / 4096 < x / 4096 → Accessible a)
  unfolding rounds
  faulty x pos f = (
    ground (arith, f.reported, f.below),
    ground (arith, f.reported, f.below),
    ap (user_ok s d perm) (ground (arith, f.reported, f.below)) ∙ f.fails,
    λ a lo lt.
        ap (user_ok s d perm) (omega arith)
        ∙ f.before (a / 4096 - va / 4096) (ground (arith, f.reported, f.below)),
  )

  -- For a range that is not empty and whose last page ends below 2 ^ 32, and a directory whose
  -- present entries name pages of memory, user_mem_check neither panics nor changes anything. It
  -- returns 0 exactly if every address of the range lies on a page below ULIM that both levels
  -- map, the last with `perm`; otherwise it reports an address of the range whose page is not so,
  -- and all addresses on the pages before that one are.
  pub user_mem_check-range :
      0 < len
      → (r : Option ℕ) × (user_mem_check d va len perm s ≡ some (r, s))
        × (((r ≡ none) × ((a : ℕ) → va ≤ a → a < va + len → Accessible a))
            ⊎ ((x : ℕ) × (r ≡ some x)
                × (va ≤ x)
                × (x < va + len)
                × (user_ok s d perm (x / 4096 * 4096) ≡ false)
                × ((a : ℕ) → va ≤ a → a / 4096 < x / 4096 → Accessible a)))
  user_mem_check-range pos = (
    scan (user_ok s d perm) va (rounds va len) (va / 4096 * 4096),
    check-scan,
    elim (scan-cases (user_ok s d perm) va (rounds va len) (va / 4096 * 4096)) [
      | inl (e, pass) ↦ inl (e, accessible pass)
      | inr (x, e, f) ↦ let (lo, hi, bad, ok) = faulty x pos f in inr (x, e, lo, hi, bad, ok)
    ],
  )

-- A range of a 32-bit start and length whose end, or whose end rounded up to a page, wraps round the
-- end of the address space, to at or before the start of its own first page, is accepted, whatever
-- the page tables hold. So each range that ends in the last page of the address space, or with it, is
-- accepted.
pub user_mem_check-wraps :
    (s : Phys) (d va len perm : ℕ)
    → va < word
    → len < word
    → word ≤ va + len + 4095
    → va + len - word ≤ va / 4096 * 4096
    → user_mem_check d va len perm s ≡ some (none, s)
unfolding user_mem_check round_up round_down check_pages
user_mem_check-wraps s d va len perm hv hl wraps before =
    let no_round : (round_up (add32 va len) 4096 - round_down va 4096) / 4096 ≡ 0 = omega arith in
    ap (λ (n : ℕ). check_pages n (round_down va 4096) d va perm s) no_round
