-- ===== src/Phys/SelfTest.antt =====
-- check_page_alloc of kern/pmap.c, which panics unless page_alloc and page_free work. The message at
-- its end is not modelled. A loop along the free list has as many rounds as `rounds` allows: it is a
-- panic here where the list is longer.
pub mod Parts
pub mod Passes
use jos.Base.{
  ℕ, zero, suc, ◌+◌, ◌*◌, Bool, true, false, not, ◌&&◌, Option, none, some, ltb, ◌==◌, update,
}
use jos.Phys.{
  Phys, PageInfo, Action, ◌>>=◌, ◌>>◌, pure, assert, page2pa, kaddr, page_alloc, page_free, is_null,
}

-- The pages from `h` on.
unfoldable pub count_from : ℕ → (ℕ → PageInfo) → Option ℕ → Option ℕ
count_from zero f h = none
count_from (suc n) f none = some 0
count_from (suc n) f (some p) = elim (count_from n f (f p).pp_link) [
  | none ↦ none
  | some c ↦ some (suc c)
]

unfoldable pub count_free : ℕ → Action ℕ
unfolding count_from
count_free rounds s = elim (count_from rounds s.pages s.free_list) [
  | none ↦ none
  | some c ↦ some (c, s)
]

-- `assert((pp = page_alloc(flags)))`
unfoldable pub must_alloc : Bool → Action ℕ
must_alloc alloc_zero = page_alloc alloc_zero >>= λ r. elim r [ none ↦ λ s. none | some p ↦ pure p ]

-- `assert(!page_alloc(0))`
unfoldable pub none_left : Action (Unit {0})
none_left = page_alloc false >>= λ r. assert (is_null r)

-- The three allocations, and that the pages are not the same.
unfoldable pub take_three : Action (ℕ × ℕ × ℕ)
unfolding must_alloc
take_three = do
  p ← must_alloc false
  q ← must_alloc false
  r ← must_alloc false
  assert (not (q == p))
  assert (not (r == q) && not (r == p))
  pure (p, q, r)

unfoldable pub free_three : ℕ → ℕ → ℕ → Action (Unit {0})
free_three p q r = page_free p >> page_free q >> page_free r

-- `assert(page2pa(pp) < npages*PGSIZE)`
abbrev pub assert_in_memory : ℕ → Action (Unit {0})
assert_in_memory p s = assert (ltb (page2pa p) (s.npages * 4096)) s

-- `fl = page_free_list; page_free_list = 0`, and back.
abbrev pub steal_list : Action (Option ℕ)
steal_list s = some (s.free_list, record s { free_list = none })

abbrev pub restore_list : Option ℕ → Action (Unit {0})
restore_list fl s = some (tt, record s { free_list = fl })

-- `memset(page2kva(pp), c, PGSIZE)`, with the word that holds the byte four times.
unfoldable pub fill_page : ℕ → ℕ → Action (Unit {0})
fill_page p w =
    kaddr (page2pa p) >>= λ q s. some (tt, record s { words = update s.words q (λ _. w) })

-- Whether the `n` words from `i` on are 0.
unfoldable pub all_zero : ℕ → ℕ → (ℕ → ℕ) → Bool
all_zero zero i page = true
all_zero (suc n) i page = let rest = all_zero n (i + 1) page in page i == 0 && rest

unfoldable pub assert_zero : ℕ → Action (Unit {0})
unfolding all_zero
assert_zero p = kaddr (page2pa p) >>= λ q s. assert (all_zero 1024 0 (s.words q)) s

-- `memset(page2kva(pp0), 1, PGSIZE)` and what follows, up to the test of the memory.
unfoldable pub test_flags : ℕ → Action (Unit {0})
unfolding must_alloc fill_page assert_zero
test_flags p = do
  fill_page p 0x0101_0101
  page_free p
  z ← must_alloc true
  assert (z == p)
  assert_zero z

unfoldable pub check_page_alloc : ℕ → Action (Unit {0})
unfolding count_free take_three free_three none_left test_flags
check_page_alloc rounds = do
  nfree ← count_free rounds
  (p, q, r) ← take_three
  assert_in_memory p
  assert_in_memory q
  assert_in_memory r
  fl ← steal_list
  none_left
  free_three p q r
  (p', q', r') ← take_three
  none_left
  test_flags p'
  restore_list fl
  free_three p' q' r'
  left ← count_free rounds
  assert (left == nfree)
