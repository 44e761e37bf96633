-- ===== src/Phys/FreeList.antt =====
-- The list that `page_free_list` heads, as a list of page numbers, and what the kernel keeps of it.
use jos.Base.{
  ℕ, ◌<◌, ◌≡◌, ◌≢◌, Option, none, some, List, [], ◌∷◌, All, NotIn, Distinct, update, arith,
}
use jos.Phys.{PageInfo, Phys}

-- Following `pp_link` from `h` visits the pages `xs` and ends.
abbrev pub Chain : (ℕ → PageInfo) → Option ℕ → List ℕ → Type 0
Chain f none [] = Unit
Chain f none (x ∷ xs) = ⊥
Chain f (some p) [] = ⊥
Chain f (some p) (x ∷ xs) = (p ≡ x) × Chain f (f p).pp_link xs

-- The free pages are `xs`: each once, each in range and not in use.
pub record IsFreeList (s : Phys) (xs : List ℕ) : Type 0 where
  pub chain : Chain s.pages s.free_list xs
  pub distinct : Distinct xs
  pub unused : All (λ p. ((s.pages p).pp_ref ≡ 0) × (p < s.npages)) xs

-- A change of a page outside the list does not touch the list.
module _ {f g : ℕ → PageInfo} (q : ℕ) (same : (j : ℕ) → j ≢ q → g j ≡ f j) where
  pub Chain-same : (h : Option ℕ) (xs : List ℕ) → NotIn q xs → Chain f h xs → Chain g h xs
  Chain-same none [] n c = c
  Chain-same none (x ∷ xs) n c = c
  Chain-same (some p) [] n c = c
  Chain-same (some p) (x ∷ xs) n c =
      let e : g p ≡ f p = same p (ground arith) in (c.0, rw e (Chain-same (f p).pp_link xs n.1 c.1))

  pub unused-same :
      (k : ℕ) (xs : List ℕ)
      → NotIn q xs
      → All (λ p. ((f p).pp_ref ≡ 0) × (p < k)) xs
      → All (λ p. ((g p).pp_ref ≡ 0) × (p < k)) xs
  unused-same k [] n u = u
  unused-same k (x ∷ xs) n u = ((ground (arith, same x n.0), u.0.1), unused-same k xs n.1 u.1)

module _ (f : ℕ → PageInfo) (q : ℕ) (v : PageInfo) where
  pub Chain-update :
      (h : Option ℕ) (xs : List ℕ) → NotIn q xs → Chain f h xs → Chain (update f q v) h xs
  Chain-update = Chain-same {f = f} {g = update f q v} q (λ j n. ground arith)

  pub unused-update :
      (k : ℕ) (xs : List ℕ)
      → NotIn q xs
      → All (λ p. ((f p).pp_ref ≡ 0) × (p < k)) xs
      → All (λ p. ((update f q v p).pp_ref ≡ 0) × (p < k)) xs
  unused-update = unused-same {f = f} {g = update f q v} q (λ j n. ground arith)

-- Only the counts, the links, the head and the size of memory matter.
pub IsFreeList-same :
    {s t : Phys} {xs : List ℕ}
    → t.pages ≡ s.pages
    → t.free_list ≡ s.free_list
    → t.npages ≡ s.npages
    → IsFreeList s xs
    → IsFreeList t xs
IsFreeList-same p f n free = record {
  chain = rw (p, f) (free.chain);
  distinct = free.distinct;
  unused = rw (p, n) (free.unused);
}
