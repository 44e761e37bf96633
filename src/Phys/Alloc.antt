-- ===== src/Phys/Alloc.antt =====
-- page_alloc and page_free of kern/pmap.c as the operations of a stack of free pages.
use jos.Base.{
  ℕ, ◌*◌, ◌/◌, ◌<◌, ◌≡◌, ◌≢◌, refl, Bool, true, false, Option, none, some, List, ◌∷◌, NotIn, update,
  arith, lt→ltb, ap, ◌∙◌, ==_self,
}
use mathlib.Core.Path.{subst}
use jos.Phys.{
  PageInfo, Phys, bind_ok, page_alloc, page_free, alloc_head, clear_page, kaddr, pa2page, unlink,
}
use jos.Phys.FreeList.{Chain, IsFreeList, Chain-update, unused-update}

-- What page_alloc leaves alone: every page but the one it hands out, and the memory of those.
pub record SameBut (p : ℕ) (s t : Phys) : Type 0 where
  pub npages : t.npages ≡ s.npages
  pub pages : (q : ℕ) → q ≢ p → t.pages q ≡ s.pages q
  pub words : (q : ℕ) → q ≢ p → t.words q ≡ s.words q

-- The state after page_alloc hands out `p`.
abbrev pub taken : Bool → ℕ → Phys → Phys
taken true p s = record (unlink p s) { words = update s.words p (λ _. 0) }
taken false p s = unlink p s

frame_of_page : (p : ℕ) → p * 4096 / 4096 ≡ p
frame_of_page p = omega arith

-- KADDR of a page's address gives the page back.
pub kaddr-page : (p : ℕ) (s : Phys) → p < s.npages → kaddr (p * 4096) s ≡ some (p, s)
unfolding kaddr
kaddr-page p s lt = rw (frame_of_page p, lt→ltb p s.npages lt)

pub pa2page-page : (p : ℕ) (s : Phys) → p < s.npages → pa2page (p * 4096) s ≡ some (p, s)
unfolding pa2page
pa2page-page p s lt = rw (frame_of_page p, lt→ltb p s.npages lt)

alloc_head-taken :
    (z : Bool) (p : ℕ) (s : Phys)
    → p < s.npages
    → alloc_head z (some p) s ≡ some (some p, taken z p s)
unfolding alloc_head clear_page
alloc_head-taken true p s lt = bind_ok _ (
    bind_ok (λ k u. some (tt, record u { words = update u.words k (λ _. 0) }))
      (kaddr-page p (unlink p s) lt))
alloc_head-taken false p s lt = refl

pub page_alloc-taken :
    (z : Bool) (p : ℕ) (s : Phys)
    → s.free_list ≡ some p
    → p < s.npages
    → page_alloc z s ≡ some (some p, taken z p s)
unfolding page_alloc
page_alloc-taken z p s e lt = ap (λ h. alloc_head z h s) e ∙ alloc_head-taken z p s lt

-- The head of a list that is not empty.
Chain-head :
    (f : ℕ → PageInfo) (h : Option ℕ) (p : ℕ) (xs : List ℕ)
    → Chain f h (p ∷ xs)
    → (h ≡ some p) × Chain f (f p).pp_link xs
Chain-head f none p xs c = absurd c
Chain-head f (some q) p xs c = (ap some c.0, subst (λ (r : ℕ). Chain f (f r).pp_link xs) c.0 c.1)

module _ {s : Phys} {p : ℕ} {xs : List ℕ} (free : IsFreeList s (p ∷ xs)) where
  head : (s.free_list ≡ some p) × Chain s.pages (s.pages p).pp_link xs
  head = Chain-head s.pages s.free_list p xs free.chain

  unlink-IsFreeList : IsFreeList (unlink p s) xs
  unlink-IsFreeList = record {
    chain = Chain-update s.pages p _ (s.pages p).pp_link xs free.distinct.0 head.1;
    distinct = free.distinct.1;
    unused = unused-update s.pages p _ s.npages xs free.distinct.0 free.unused.1;
  }

  taken-IsFreeList : (z : Bool) → IsFreeList (taken z p s) xs
  taken-IsFreeList true = record {
    chain = unlink-IsFreeList.chain;
    distinct = unlink-IsFreeList.distinct;
    unused = unlink-IsFreeList.unused;
  }
  taken-IsFreeList false = unlink-IsFreeList

  taken-SameBut : (z : Bool) → SameBut p s (taken z p s)
  taken-SameBut true = record {
    npages = refl;
    pages = λ q n. ground arith;
    words = λ q n. ground arith;
  }
  taken-SameBut false = record { npages = refl; pages = λ q n. ground arith; words = λ q n. refl }

  taken-link : (z : Bool) → ((taken z p s).pages p).pp_link ≡ none
  taken-link true = ground arith
  taken-link false = ground arith

  taken-ref : (z : Bool) → ((taken z p s).pages p).pp_ref ≡ 0
  taken-ref true = ground (arith, free.unused.0.0)
  taken-ref false = ground (arith, free.unused.0.0)

  taken-zero : (z : Bool) → z ≡ true → (i : ℕ) → (taken z p s).words p i ≡ 0
  taken-zero true e i = rw (==_self p)
  taken-zero false e i = cc

  -- With the free pages `p ∷ xs`, page_alloc returns `p`, unlinked and unused, and leaves `xs`; the
  -- page is zero if that was asked for, and no other page changes.
  pub page_alloc-pop :
      (z : Bool)
      → (t : Phys) × (page_alloc z s ≡ some (some p, t))
        × IsFreeList t xs
        × ((t.pages p).pp_link ≡ none)
        × ((t.pages p).pp_ref ≡ 0)
        × (z ≡ true → (i : ℕ) → t.words p i ≡ 0)
        × SameBut p s t
  page_alloc-pop z = (
    taken z p s,
    page_alloc-taken z p s head.0 free.unused.0.1,
    taken-IsFreeList z,
    taken-link z,
    taken-ref z,
    taken-zero z,
    taken-SameBut z,
  )

-- The state after page_free.
abbrev pub freed : ℕ → Phys → Phys
freed p s = record s {
  pages = update s.pages p (record { pp_link = s.free_list; pp_ref = (s.pages p).pp_ref });
  free_list = some p;
}

pub page_free-freed :
    (p : ℕ) (s : Phys)
    → (s.pages p).pp_ref ≡ 0
    → (s.pages p).pp_link ≡ none
    → page_free p s ≡ some (tt, freed p s)
unfolding page_free
page_free-freed p s r l = ground arith

module _ {s : Phys} {xs : List ℕ} (free : IsFreeList s xs) where
  pub freed-IsFreeList :
      (p : ℕ) → NotIn p xs → p < s.npages → (s.pages p).pp_ref ≡ 0 → IsFreeList (freed p s) (p ∷ xs)
  freed-IsFreeList p out lt ref = record {
    chain = (refl, rw (==_self p) (Chain-update s.pages p _ s.free_list xs out free.chain));
    distinct = (out, free.distinct);
    unused = ((ground arith, lt), unused-update s.pages p _ s.npages xs out free.unused);
  }

  -- page_free of a page of memory that is not on the list, not linked and not in use puts it at
  -- the head of the list; no memory changes.
  pub page_free-push :
      (p : ℕ)
      → NotIn p xs
      → p < s.npages
      → (s.pages p).pp_ref ≡ 0
      → (s.pages p).pp_link ≡ none
      → (t : Phys) × (page_free p s ≡ some (tt, t)) × IsFreeList t (p ∷ xs) × (t.words ≡ s.words)
  page_free-push p out lt ref link =
      (freed p s, page_free-freed p s ref link, freed-IsFreeList p out lt ref, refl)

-- A page that page_alloc hands out can be given back: page_free then restores the free list.
pub page_free-page_alloc :
    {s : Phys} {p : ℕ} {xs : List ℕ}
    → IsFreeList s (p ∷ xs)
    → (z : Bool)
    → (t u : Phys) × (page_alloc z s ≡ some (some p, t))
      × (page_free p t ≡ some (tt, u))
      × IsFreeList u (p ∷ xs)
      × (u.words ≡ t.words)
page_free-page_alloc {s} {p} {xs} free z =
    let (t, popped, rest, link, ref, _, same) = page_alloc-pop free z in
    let (u, pushed, whole, words) =
      page_free-push rest p free.distinct.0 (omega (arith, same.npages, free.unused.0.1)) ref
        link in
    (t, u, popped, pushed, whole, words)
