-- ===== src/Phys/SelfTest/Parts.antt =====
-- The parts of check_page_alloc of kern/pmap.c on a free list that is long enough.
use jos.Base.{
  ℕ, zero, suc, ◌+◌, ◌<◌, ◌≡◌, ◌≢◌, refl, ap, sym, ◌∙◌, Bool, true, false, Option, none, some, List,
  [], ◌∷◌, NotIn, Distinct, update, ne→==, ==_self, length, arith,
}
use jos.Phys.{Phys, PageInfo, bind_ok, page_alloc, page_free, alloc_head}
use jos.Phys.FreeList.{Chain, IsFreeList, IsFreeList-same}
use jos.Phys.Alloc.{page_alloc-pop, page_free-freed, freed, freed-IsFreeList, kaddr-page}
use jos.Phys.SelfTest.{
  count_from, count_free, must_alloc, none_left, take_three, free_three, fill_page, all_zero,
  assert_zero, test_flags,
}

-- A page that is in use by nobody and on no list.
pub record IsHeld (p : ℕ) (s : Phys) : Type 0 where
  pub in_range : p < s.npages
  pub unused : (s.pages p).pp_ref ≡ 0
  pub unlinked : (s.pages p).pp_link ≡ none

Chain-count :
    (f : ℕ → PageInfo) (h : Option ℕ) (xs : List ℕ) (n : ℕ)
    → Chain f h xs
    → length xs < n
    → count_from n f h ≡ some (length xs)
unfolding count_from
Chain-count f h xs zero c lt = absurd (omega (arith, lt))
Chain-count f none [] (suc n) c lt = refl
Chain-count f none (x ∷ xs) (suc n) c lt = absurd c
Chain-count f (some p) [] (suc n) c lt = absurd c
Chain-count f (some p) (x ∷ xs) (suc n) c lt =
    rw (Chain-count f (f p).pp_link xs n c.1 (omega (arith, lt))) refl

pub count_free_lem :
    {s : Phys} {xs : List ℕ} (rounds : ℕ)
    → IsFreeList s xs
    → length xs < rounds
    → count_free rounds s ≡ some (length xs, s)
unfolding count_free
count_free_lem {s} {xs} rounds free lt =
    rw (count_free, Chain-count s.pages s.free_list xs rounds free.chain lt) refl

-- Only the pages of a list change their counts and links.
pub record Only (ps : List ℕ) (s t : Phys) : Type 0 where
  pub npages : t.npages ≡ s.npages
  pub pages : (j : ℕ) → NotIn j ps → t.pages j ≡ s.pages j

pub Only-IsHeld :
    {ps : List ℕ} {s t : Phys} (q : ℕ) → Only ps s t → NotIn q ps → IsHeld q s → IsHeld q t
Only-IsHeld q o n h = record {
  in_range = omega (arith, o.npages, h.in_range);
  unused = ap (λ v. v.pp_ref) (o.pages q n) ∙ h.unused;
  unlinked = ap (λ v. v.pp_link) (o.pages q n) ∙ h.unlinked;
}

must_alloc_lem :
    {s : Phys} {p : ℕ} {xs : List ℕ} (z : Bool)
    → IsFreeList s (p ∷ xs)
    → (t : Phys) × (must_alloc z s ≡ some (p, t))
      × IsFreeList t xs
      × IsHeld p t
      × Only (p ∷ []) s t
      × (z ≡ true → (i : ℕ) → t.words p i ≡ 0)
unfolding must_alloc
must_alloc_lem {s} {p} {xs} z free =
    let (t, popped, rest, link, ref, zeros, same) = page_alloc-pop free z in
    (
      t,
      bind_ok _ popped,
      rest,
      record {
        in_range = omega (arith, same.npages, free.unused.0.1);
        unused = ref;
        unlinked = link;
      },
      record { npages = same.npages; pages = λ j n. same.pages j (λ e. n.0 (sym e)) },
      zeros,
    )

page_free_lem :
    {s : Phys} {p : ℕ} {xs : List ℕ}
    → IsFreeList s xs
    → NotIn p xs
    → IsHeld p s
    → (t : Phys) × (page_free p s ≡ some (tt, t)) × IsFreeList t (p ∷ xs) × Only (p ∷ []) s t
page_free_lem {s} {p} {xs} free out h = (
  freed p s,
  page_free-freed p s h.unused h.unlinked,
  freed-IsFreeList free p out h.in_range h.unused,
  record { npages = refl; pages = λ j n. ground (arith, n.0) },
)

pub none_left_lem : {s : Phys} → IsFreeList s [] → none_left s ≡ some (tt, s)
unfolding none_left page_alloc alloc_head
none_left_lem {s} free = simp (none_left, page_alloc, Chain-none s.pages s.free_list free.chain)
  where
    Chain-none : (f : ℕ → PageInfo) (h : Option ℕ) → Chain f h [] → h ≡ none
    Chain-none f none c = refl
    Chain-none f (some p) c = absurd c

module _ {p q r : ℕ} {xs : List ℕ} where
  pub take_three_lem :
      {s : Phys}
      → IsFreeList s (p ∷ q ∷ r ∷ xs)
      → (t : Phys) × (take_three s ≡ some ((p, q, r), t))
        × IsFreeList t xs
        × IsHeld p t
        × IsHeld q t
        × IsHeld r t
        × Only (p ∷ q ∷ r ∷ []) s t
  unfolding take_three
  take_three_lem {s} free =
      let ((qp, (rp, _)), ((rq, _), _)) = free.distinct in
      let (s1, got_p, free1, held_p, only_p, _) = must_alloc_lem false free in
      let (s2, got_q, free2, held_q, only_q, _) = must_alloc_lem false free1 in
      let (s3, got_r, free3, held_r, only_r, _) = must_alloc_lem false free2 in
      (
        s3,
        bind_ok _ got_p
            ∙ bind_ok _ got_q
            ∙ bind_ok _ got_r
            ∙ rw (ne→== q p qp, ne→== r q rq, ne→== r p rp) refl,
        free3,
        Only-IsHeld p only_r (rp, tt) (Only-IsHeld p only_q (qp, tt) held_p),
        Only-IsHeld q only_r (rq, tt) held_q,
        held_r,
        record {
          npages = only_r.npages ∙ only_q.npages ∙ only_p.npages;
          pages = λ j (np, (nq, (nr, _))).
              only_r.pages j (nr, tt) ∙ only_q.pages j (nq, tt) ∙ only_p.pages j (np, tt);
        },
      )

  pub free_three_lem :
      {s : Phys}
      → IsFreeList s xs
      → Distinct (p ∷ q ∷ r ∷ xs)
      → IsHeld p s
      → IsHeld q s
      → IsHeld r s
      → (t : Phys) × (free_three p q r s ≡ some (tt, t))
        × IsFreeList t (r ∷ q ∷ p ∷ xs)
        × Only (p ∷ q ∷ r ∷ []) s t
  unfolding free_three
  free_three_lem {s} free ((qp, (rp, pxs)), ((rq, qxs), (rxs, _))) held_p held_q held_r =
      let pq : p ≢ q = λ e. qp (sym e) in
      let pr : p ≢ r = λ e. rp (sym e) in
      let qr : q ≢ r = λ e. rq (sym e) in
      let (s1, gave_p, free1, only_p) = page_free_lem free pxs held_p in
      let (s2, gave_q, free2, only_q) =
        page_free_lem free1 (pq, qxs) (Only-IsHeld q only_p (pq, tt) held_q) in
      let (s3, gave_r, free3, only_r) =
        page_free_lem free2 (qr, (pr, rxs))
          (Only-IsHeld r only_q (qr, tt) (Only-IsHeld r only_p (pr, tt) held_r)) in
      (
        s3,
        bind_ok _ (bind_ok _ gave_p ∙ gave_q) ∙ gave_r,
        free3,
        record {
          npages = only_r.npages ∙ only_q.npages ∙ only_p.npages;
          pages = λ j (np, (nq, (nr, _))).
              only_r.pages j (nr, tt) ∙ only_q.pages j (nq, tt) ∙ only_p.pages j (np, tt);
        },
      )

all_zero_lem : (n i : ℕ) (page : ℕ → ℕ) → ((j : ℕ) → page j ≡ 0) → all_zero n i page ≡ true
unfolding all_zero
all_zero_lem zero i page z = refl
all_zero_lem (suc n) i page z = rw (z i, all_zero_lem n (i + 1) page z) refl

-- The page is filled, given back, and comes back zero.
pub test_flags_lem :
    {s : Phys} {p : ℕ}
    → IsFreeList s []
    → IsHeld p s
    → (t : Phys) × (test_flags p s ≡ some (tt, t))
      × IsFreeList t []
      × IsHeld p t
      × Only (p ∷ []) s t
unfolding test_flags fill_page assert_zero
test_flags_lem {s} {p} free h =
    let filled = record s { words = update s.words p (λ _. 0x0101_0101) } in
    let fill : fill_page p 0x0101_0101 s ≡ some (tt, filled) =
      bind_ok _ (kaddr-page p s h.in_range) in
    let (s1, gave, free1, only1) =
      page_free_lem {s = filled} {p = p} {xs = []} (IsFreeList-same refl refl refl free) tt
        (record { in_range = h.in_range; unused = h.unused; unlinked = h.unlinked }) in
    let (s2, got, free2, held, only2, zeros) = must_alloc_lem true free1 in
    (
      s2,
      bind_ok _ fill
          ∙ bind_ok _ gave
          ∙ bind_ok _ got
          ∙ rw (==_self p) (
              bind_ok _ (kaddr-page p s2 held.in_range)
              ∙ rw (all_zero_lem 1024 0 (s2.words p) (zeros refl)) refl),
      free2,
      held,
      record {
        npages = only2.npages ∙ only1.npages;
        pages = λ j n. only2.pages j n ∙ only1.pages j n;
      },
    )
