-- ===== src/Phys/Init.antt =====
-- The free list that page_init of kern/pmap.c builds.
use jos.Base.{
  ℕ, zero, suc, ◌/◌, ◌≤◌, ◌<◌, ◌≡◌, ◌≢◌, refl, inl, inr, Bool, true, false, not, ◌&&◌, ◌||◌, none,
  List, [], ◌∷◌, NotIn, ltb, leb, ◌==◌, ==_self, if◌then◌else◌, Bool-cases, sub32, ◌∙◌, arith,
}
use jos.Mmu.{kernbase}
use jos.Phys.{Phys}
use jos.Phys.Boot.{init_page, init_pages, page_init, push_free}
use jos.Phys.FreeList.{IsFreeList, Chain-update, unused-update, Chain-same, unused-same}

-- What the comment of page_init asks for: page 0 and the page of the other CPUs' start code are in
-- use; base memory is free; the I/O hole and the kernel behind it are in use.
unfoldable pub is_usable : ℕ → ℕ → ℕ → Bool
is_usable base nextfree i =
    not (i == 0)
    && (not (i == 7)
        && (ltb i base || not (leb 160 i && (ltb i 256 || ltb i (sub32 nextfree kernbase / 4096)))))

-- The usable pages below `n`, the last one first.
unfoldable pub usable_below : ℕ → ℕ → ℕ → List ℕ
usable_below zero base nextfree = []
usable_below (suc n) base nextfree =
    if is_usable base nextfree n
    then n ∷ usable_below n base nextfree
    else usable_below n base nextfree

module _ (base nextfree : ℕ) where
  pushes :
      (i : ℕ) (s : Phys)
      → is_usable base nextfree i ≡ true
      → init_page base nextfree i s ≡ push_free i s
  unfolding is_usable init_page
  pushes i s h = ground arith

  skips_list :
      (i : ℕ) (s : Phys)
      → is_usable base nextfree i ≡ false
      → (init_page base nextfree i s).free_list ≡ s.free_list
  unfolding is_usable init_page
  skips_list i s h = ground arith

  skips_page :
      (i : ℕ) (s : Phys) (j : ℕ)
      → is_usable base nextfree i ≡ false
      → j ≢ i
      → (init_page base nextfree i s).pages j ≡ s.pages j
  unfolding is_usable init_page
  skips_page i s j h n = ground arith

  npages-init_page : (i : ℕ) (s : Phys) → (init_page base nextfree i s).npages ≡ s.npages
  unfolding init_page
  npages-init_page i s = ground arith

  NotIn-below : (n m : ℕ) → n ≤ m → NotIn m (usable_below n base nextfree)
  unfolding usable_below
  NotIn-below zero m h = tt
  NotIn-below (suc n) m h = elim (Bool-cases (is_usable base nextfree n)) [
    | inl e ↦ rw e (ground arith, NotIn-below n m (omega arith))
    | inr e ↦ rw e (NotIn-below n m (omega arith))
  ]

  pushed :
      (n : ℕ) (t : Phys)
      → n < t.npages
      → IsFreeList t (usable_below n base nextfree)
      → IsFreeList (push_free n t) (n ∷ usable_below n base nextfree)
  pushed n t lt b = record {
    chain = (
      refl,
      rw (==_self n)
          (Chain-update t.pages n _ t.free_list _ (NotIn-below n n (omega arith)) b.chain),
    );
    distinct = (NotIn-below n n (omega arith), b.distinct);
    unused = (
      (ground arith, lt),
      unused-update t.pages n _ t.npages _ (NotIn-below n n (omega arith)) b.unused,
    );
  }

  kept :
      (n : ℕ) (t : Phys)
      → is_usable base nextfree n ≡ false
      → IsFreeList t (usable_below n base nextfree)
      → IsFreeList (init_page base nextfree n t) (usable_below n base nextfree)
  kept n t e b = record {
    chain =
        rw (skips_list n t e)
          (Chain-same n same t.free_list _ (NotIn-below n n (omega arith)) b.chain);
    distinct = b.distinct;
    unused =
        rw (npages-init_page n t)
          (unused-same n same t.npages _ (NotIn-below n n (omega arith)) b.unused);
  }
    where
      same : (j : ℕ) → j ≢ n → (init_page base nextfree n t).pages j ≡ t.pages j
      same j ne = skips_page n t j e ne

  -- After the rounds below `n` the list has the usable pages below `n`.
  module _ (s : Phys) (empty : s.free_list ≡ none) where
    npages-init_pages : (n : ℕ) → (init_pages n base nextfree s).npages ≡ s.npages
    unfolding init_pages
    npages-init_pages zero = refl
    npages-init_pages (suc n) =
        npages-init_page n (init_pages n base nextfree s) ∙ npages-init_pages n

    built :
        (n : ℕ)
        → n ≤ s.npages
        → IsFreeList (init_pages n base nextfree s) (usable_below n base nextfree)
    unfolding init_pages usable_below
    built zero h = record { chain = rw empty tt; distinct = tt; unused = tt }
    built (suc n) h = elim (Bool-cases (is_usable base nextfree n)) [
      | inl e ↦
          rw (e, pushes n (init_pages n base nextfree s) e)
            (pushed n (init_pages n base nextfree s) (omega (arith, npages-init_pages n))
              (built n (omega arith)))
      | inr e ↦ rw e (kept n (init_pages n base nextfree s) e (built n (omega arith)))
    ]

-- page_init, on an empty list, puts exactly the usable pages of the machine on the free list, the
-- highest first, each once and with the count 0.
pub page_init-usable :
    (base nextfree : ℕ) (s : Phys)
    → s.free_list ≡ none
    → IsFreeList (page_init base nextfree s) (usable_below s.npages base nextfree)
unfolding page_init
page_init-usable base nextfree s empty = built base nextfree s empty s.npages (omega arith)
