-- ===== src/Phys.antt =====
-- Physical memory and its allocator: `pages`, `page_free_list` and the page functions of
-- kern/pmap.c, with the address conversions of kern/pmap.h.
--
-- A `struct PageInfo *` into `pages` is the index of the entry, which is the number of the physical
-- page; NULL is `none`. A physical page is its 1024 words. A kernel virtual address of a page is
-- written as the page's number, since KADDR and PADDR only add and subtract KERNBASE.
pub mod FreeList
pub mod Alloc
pub mod Init
pub mod Boot
pub mod SelfTest
use jos.Base.{
  ℕ, ◌+◌, ◌*◌, ◌%◌, ◌^◌, Bool, true, false, Option, none, some, List, ltb, ◌==◌, if◌then◌else◌,
  update, ◌≡◌, ap,
}
use jos.Mmu.{pgnum}

pub record PageInfo : Type 0 where
  pub pp_link : Option ℕ
  pub pp_ref : ℕ

pub record Phys : Type 0 where
  -- `npages`, `pages` and `page_free_list`
  pub npages : ℕ
  pub pages : ℕ → PageInfo
  pub free_list : Option ℕ
  -- the words of each physical page
  pub words : ℕ → ℕ → ℕ
  -- the addresses given to `invlpg`, the last one first
  pub flushed : List ℕ

-- A function of the kernel on this state; `none` is a panic.
abbrev pub Action : Type 0 → Type 0
Action A = Phys → Option (A × Phys)

abbrev pub and_then : {A B : Type 0} → Option (A × Phys) → (A → Action B) → Option (B × Phys)
and_then none f = none
and_then (some (a, s)) f = f a s

infixl 5 ◌>>=◌ ◌>>◌
abbrev pub ◌>>=◌ : {A B : Type 0} → Action A → (A → Action B) → Action B
◌>>=◌ m f s = and_then (m s) f

-- What follows a step that succeeds, or panics.
pub bind_ok :
    {A B : Type 0} {r : Option (A × Phys)} {a : A} {s : Phys} (f : A → Action B)
    → r ≡ some (a, s)
    → and_then r f ≡ f a s
bind_ok f e = ap (λ r. and_then r f) e

pub bind_none :
    {A B : Type 0} {r : Option (A × Phys)} (f : A → Action B) → r ≡ none → and_then r f ≡ none
bind_none f e = ap (λ r. and_then r f) e

abbrev pub ◌>>◌ : {A B : Type 0} → Action A → Action B → Action B
m >> k = m >>= λ _. k

abbrev pub pure : {A : Type 0} → A → Action A
pure a s = some (a, s)

-- `assert(b)`
abbrev pub assert : Bool → Action (Unit {0})
assert true s = some (tt, s)
assert false s = none

abbrev pub page_of : Phys → ℕ → PageInfo
page_of s p = s.pages p

abbrev pub set_page : ℕ → PageInfo → Phys → Phys
set_page p v s = record s { pages = update s.pages p v }

-- `*pte` and `*pte = w`, for a page table on page `t`
abbrev pub load : ℕ → ℕ → Phys → ℕ
load t i s = s.words t i

abbrev pub store : ℕ → ℕ → ℕ → Phys → Phys
store t i w s = record s { words = update s.words t (update (s.words t) i w) }

-- page2pa
abbrev pub page2pa : ℕ → ℕ
page2pa p = p * 4096

-- pa2page and KADDR panic on an address outside physical memory.
unfoldable pub pa2page : ℕ → Action ℕ
pa2page pa s = if ltb (pgnum pa) s.npages then some (pgnum pa, s) else none

unfoldable pub kaddr : ℕ → Action ℕ
kaddr pa s = if ltb (pgnum pa) s.npages then some (pgnum pa, s) else none

-- `memset(page2kva(pp), 0, PGSIZE)`
unfoldable pub clear_page : ℕ → Action (Unit {0})
clear_page p = do
  k ← kaddr (page2pa p)
  λ s. some (tt, record s { words = update s.words k (λ _. 0) })

-- `page_free_list = page_free_list->pp_link; NewPage->pp_link = NULL`
abbrev pub unlink : ℕ → Phys → Phys
unlink p s = record s {
  free_list = (s.pages p).pp_link;
  pages = update s.pages p (record { pp_link = none; pp_ref = (s.pages p).pp_ref });
}

-- page_alloc with the value of `page_free_list`.
unfoldable pub alloc_head : Bool → Option ℕ → Action (Option ℕ)
alloc_head alloc_zero none s = some (none, s)
alloc_head true (some p) s = (clear_page p >> pure (some p)) (unlink p s)
alloc_head false (some p) s = some (some p, unlink p s)

-- `flags & ALLOC_ZERO` is the argument.
unfoldable pub page_alloc : Bool → Action (Option ℕ)
page_alloc alloc_zero s = alloc_head alloc_zero s.free_list s

abbrev pub is_null : Option ℕ → Bool
is_null none = true
is_null (some p) = false

unfoldable pub page_free : ℕ → Action (Unit {0})
page_free p s =
    (do
      assert ((s.pages p).pp_ref == 0)
      assert (is_null (s.pages p).pp_link)
      λ t. some (
        tt,
        record t {
          pages = update t.pages p (record { pp_link = t.free_list; pp_ref = (t.pages p).pp_ref });
          free_list = some p;
        },
      ))
      s

-- `pp_ref` is a uint16_t.
abbrev pub add_ref : ℕ → Phys → Phys
add_ref p s =
    set_page p
      (record { pp_link = (s.pages p).pp_link; pp_ref = ((s.pages p).pp_ref + 1) % 2 ^ 16 }) s

abbrev pub drop_ref : ℕ → Phys → Phys
drop_ref p s =
    set_page p
      (record { pp_link = (s.pages p).pp_link; pp_ref = ((s.pages p).pp_ref + 0xffff) % 2 ^ 16 }) s

unfoldable pub page_decref : ℕ → Action (Unit {0})
page_decref p s =
    let t = drop_ref p s in if (t.pages p).pp_ref == 0 then page_free p t else some (tt, t)
