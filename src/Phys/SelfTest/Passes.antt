-- ===== src/Phys/SelfTest/Passes.antt =====
-- That check_page_alloc of kern/pmap.c passes, and what it leaves.
use jos.Base.{
  ℕ, ◌<◌, ◌≡◌, refl, ap, sym, ◌∙◌, true, Option, none, some, List, [], ◌∷◌, All, NotIn, Distinct,
  ==_self, lt→ltb, ltb, ◌*◌, length, arith,
}
use jos.Phys.{Phys, PageInfo, bind_ok}
use jos.Phys.FreeList.{Chain, IsFreeList}
use jos.Phys.SelfTest.{check_page_alloc, assert_in_memory}
use jos.Phys.SelfTest.Parts.{
  IsHeld, Only-IsHeld, count_free_lem, none_left_lem, take_three_lem, free_three_lem,
  test_flags_lem,
}

-- The list only sees its own pages.
Chain-agree :
    (f g : ℕ → PageInfo) (h : Option ℕ) (xs : List ℕ)
    → All (λ j. g j ≡ f j) xs
    → Chain f h xs
    → Chain g h xs
Chain-agree f g none [] a c = c
Chain-agree f g none (x ∷ xs) a c = c
Chain-agree f g (some p) [] a c = c
Chain-agree f g (some p) (x ∷ xs) a c =
    let same : g p ≡ f p = ap g c.0 ∙ a.0 ∙ ap f (sym c.0) in
    (c.0, rw same (Chain-agree f g (f p).pp_link xs a.1 c.1))

unused-agree :
    (f g : ℕ → PageInfo) (n : ℕ) (xs : List ℕ)
    → All (λ j. g j ≡ f j) xs
    → All (λ j. ((f j).pp_ref ≡ 0) × (j < n)) xs
    → All (λ j. ((g j).pp_ref ≡ 0) × (j < n)) xs
unused-agree f g n [] a u = u
unused-agree f g n (x ∷ xs) a u =
    ((ap (λ v. v.pp_ref) a.0 ∙ u.0.0, u.0.1), unused-agree f g n xs a.1 u.1)

-- What a stolen list looks like after changes of three pages that are not on it.
outside :
    (p q r : ℕ) (xs : List ℕ)
    → NotIn p xs
    → NotIn q xs
    → NotIn r xs
    → All (λ j. NotIn j (p ∷ q ∷ r ∷ [])) xs
outside p q r [] np nq nr = tt
outside p q r (x ∷ xs) np nq nr = (
  (λ e. np.0 (sym e), (λ e. nq.0 (sym e), (λ e. nr.0 (sym e), tt))),
  outside p q r xs np.1 nq.1 nr.1,
)

agree :
    {f g : ℕ → PageInfo} {p q r : ℕ} (xs : List ℕ)
    → ((j : ℕ) → NotIn j (p ∷ q ∷ r ∷ []) → g j ≡ f j)
    → All (λ j. NotIn j (p ∷ q ∷ r ∷ [])) xs
    → All (λ j. g j ≡ f j) xs
agree [] same out = tt
agree (x ∷ xs) same out = (same x out.0, agree xs same out.1)

-- The stolen list is a free list again when it is put back.
restored :
    (s t : Phys) {p q r : ℕ} {xs : List ℕ}
    → IsFreeList s xs
    → Distinct (p ∷ q ∷ r ∷ xs)
    → t.npages ≡ s.npages
    → ((j : ℕ) → NotIn j (p ∷ q ∷ r ∷ []) → t.pages j ≡ s.pages j)
    → IsFreeList (record t { free_list = s.free_list }) xs
restored s t {p} {q} {r} {xs} free ((_, (_, np)), ((_, nq), (nr, _))) size same =
    let all = agree {f = s.pages} {g = t.pages} xs same (outside p q r xs np nq nr) in
    record {
      chain = Chain-agree s.pages t.pages s.free_list xs all free.chain;
      distinct = free.distinct;
      unused = rw size (unused-agree s.pages t.pages s.npages xs all free.unused);
    }

in_memory : {s : Phys} (p : ℕ) → IsHeld p s → assert_in_memory p s ≡ some (tt, s)
in_memory {s} p h =
    let below : ltb (p * 4096) (s.npages * 4096) ≡ true = lt→ltb _ _ (omega (arith, h.in_range)) in
    rw below refl

-- With a free list of at least three pages, and rounds for all of it, check_page_alloc does not panic,
-- and the free list is afterwards the same.
pub check_page_alloc-passes :
    (s : Phys) (p q r : ℕ) (xs : List ℕ) (rounds : ℕ)
    → IsFreeList s (p ∷ q ∷ r ∷ xs)
    → length (p ∷ q ∷ r ∷ xs) < rounds
    → (t : Phys) × (check_page_alloc rounds s ≡ some (tt, t)) × IsFreeList t (p ∷ q ∷ r ∷ xs)
unfolding check_page_alloc
check_page_alloc-passes s p q r xs rounds free enough =
    let (t1, taken, free1, hp, hq, hr, only1) = take_three_lem free in
    let stolen = record t1 { free_list = none } in
    let free2 : IsFreeList stolen [] = record { chain = tt; distinct = tt; unused = tt } in
    let ((qp, (rp, np)), ((rq, nq), (nr, _))) = free.distinct in
    let backwards : Distinct (r ∷ q ∷ p ∷ xs) =
      ((λ e. rq (sym e), (λ e. rp (sym e), nr)), ((λ e. qp (sym e), nq), (np, free1.distinct))) in
    let (t2, given, free3, only2) =
      free_three_lem {p = p} {q = q} {r = r} free2 ((qp, (rp, tt)), ((rq, tt), (tt, tt))) (still hp)
        (still hq) (still hr) in
    let (t3, again, free4, kr, kq, kp, only3) = take_three_lem free3 in
    let (t4, tested, free5, lr, only4) = test_flags_lem free4 kr in
    let back = record t4 { free_list = t1.free_list } in
    let ready : IsFreeList back xs =
      restored t1 t4 free1 free.distinct (only4.npages ∙ only3.npages ∙ only2.npages)
        (λ j (a, (b, (c, _))).
          only4.pages j (c, tt)
          ∙ only3.pages j (c, (b, (a, tt)))
          ∙ only2.pages j (a, (b, (c, tt)))) in
    let (t5, last, free6, only5) =
      free_three_lem {s = back} ready backwards (still lr) (still (Only-IsHeld q only4 (rq, tt) kq))
        (still (Only-IsHeld p only4 (rp, tt) kp)) in
    (
      t5,
      bind_ok _ (count_free_lem rounds free enough)
          ∙ bind_ok _ taken
          ∙ bind_ok _ (in_memory p hp)
          ∙ bind_ok _ (in_memory q hq)
          ∙ bind_ok _ (in_memory r hr)
          ∙ bind_ok _ (none_left_lem free2)
          ∙ bind_ok _ given
          ∙ bind_ok _ again
          ∙ bind_ok _ (none_left_lem free4)
          ∙ bind_ok _ tested
          ∙ bind_ok _ last
          ∙ bind_ok _ (count_free_lem rounds free6 enough)
          ∙ rw (==_self (length (p ∷ q ∷ r ∷ xs))) refl,
      free6,
    )
  where
    still : {a : ℕ} {u : Phys} {l : Option ℕ} → IsHeld a u → IsHeld a (record u { free_list = l })
    still h = record { in_range = h.in_range; unused = h.unused; unlinked = h.unlinked }
