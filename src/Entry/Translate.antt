-- ===== src/Entry/Translate.antt =====
-- The regions that the entry page directory maps.
use jos.Base.{
  ℕ, ◌+◌, ◌-◌, ◌*◌, ◌/◌, ◌%◌, ◌^◌, ◌≤◌, ◌<◌, ◌≡◌, ◌≢◌, refl, ap, ◌∙◌, Bool, true, false, none, some,
  ◌&&◌, lt→ltb, has, bit_and-one, bit_and-two, bit_or-high, bit_or-halves, ==_self, ne→==, eq→==,
  word, arith,
}
use jos.Mmu.{kernbase, pdx, ptx}
use jos.Entry.{entry_pgtable, entry_pgdir, translate, entry_words}

entry_pgtable-value : (i : ℕ) → i < 1024 → entry_pgtable i ≡ i * 4096 + 3
unfolding entry_pgtable
entry_pgtable-value i h =
    let half : (i * 4096 + 1) / 2 ≡ i * 2048 = omega arith in
    rw
      (
        lt→ltb i 1024 h,
        bit_or-high 12 i 1 (omega arith),
        bit_or-halves (i * 4096 + 1) 2,
        half,
        bit_or-high 11 i 1 (omega arith),
      )
      (omega arith)

has-present : (w : ℕ) → w % 2 ≡ 1 → has w 1 ≡ true
has-present w e = rw (bit_and-one w, e) refl

has-writable : (w : ℕ) → w / 2 % 2 ≡ 1 → has w 2 ≡ true
has-writable w e = rw (bit_and-two w, e) refl

has-read_only : (w : ℕ) → w / 2 % 2 ≡ 0 → has w 2 ≡ false
has-read_only w e = rw (bit_and-two w, e) refl

and_right : (b : Bool) → (b && true) ≡ b
and_right true = refl
and_right false = refl

-- An entry of the directory that names the table.
through_table :
    (t va pde : ℕ)
    → entry_pgdir t (pdx va) ≡ pde
    → pde / 4096 ≡ t
    → pde % 2 ≡ 1
    → translate (entry_words t) (entry_pgdir t) va ≡ some (va % 2 ^ 22, has pde 2)
unfolding translate
through_table t va pde e frame present =
    let index : ptx va < 1024 = omega arith in
    let value = entry_pgtable-value (ptx va) index in
    let pte_present : has (ptx va * 4096 + 3) 1 ≡ true = has-present _ (omega arith) in
    let pte_writable : has (ptx va * 4096 + 3) 2 ≡ true = has-writable _ (omega arith) in
    let address : (ptx va * 4096 + 3) / 4096 * 4096 + va % 4096 ≡ va % 2 ^ 22 = omega arith in
    rw
      (
        translate,
        e,
        frame,
        ==_self t,
        value,
        has-present pde present,
        pte_present,
        pte_writable,
        address,
      )
      (ap (λ w. some (va % 2 ^ 22, w)) (and_right (has pde 2)))

no_table :
    (t va : ℕ) → pdx va ≢ 0 → pdx va ≢ 960 → translate (entry_words t) (entry_pgdir t) va ≡ none
unfolding translate entry_pgdir
no_table t va h k = rw (translate, entry_pgdir, ne→== (pdx va) 0 h, ne→== (pdx va) 960 k) refl

low_entry : (t i : ℕ) → i ≡ 0 → entry_pgdir t i ≡ t * 4096 + 1
unfolding entry_pgdir
low_entry t i e = rw (eq→== i 0 e) refl

high_entry : (t i : ℕ) → i ≡ 960 → entry_pgdir t i ≡ t * 4096 + 1 + 2
unfolding entry_pgdir
high_entry t i e = rw (ne→== i 0 (λ z. absurd (omega (arith, z, e))), eq→== i 960 e) refl

-- An address below 4 MB means itself, and can only be read; one of the 4 MB from KERNBASE on means
-- the address less KERNBASE, and can be written; any other 32-bit address faults.
pub translate-entry :
    (t va : ℕ)
    → va < word
    → (va < 2 ^ 22 → translate (entry_words t) (entry_pgdir t) va ≡ some (va, false))
      × (kernbase ≤ va
          → va < kernbase + 2 ^ 22
          → translate (entry_words t) (entry_pgdir t) va ≡ some (va - kernbase, true))
      × (2 ^ 22 ≤ va → va < kernbase → translate (entry_words t) (entry_pgdir t) va ≡ none)
      × (kernbase + 2 ^ 22 ≤ va → translate (entry_words t) (entry_pgdir t) va ≡ none)
translate-entry t va h = (
  λ low.
      let same : va % 2 ^ 22 ≡ va = omega arith in
      through_table t va (t * 4096 + 1) (low_entry t (pdx va) (omega arith)) (omega arith)
        (omega arith)
      ∙ rw (same, has-read_only (t * 4096 + 1) (omega arith)) refl,
  λ from below.
      let less : va % 2 ^ 22 ≡ va - kernbase = omega arith in
      through_table t va (t * 4096 + 1 + 2) (high_entry t (pdx va) (omega arith)) (omega arith)
        (omega arith)
      ∙ rw (less, has-writable (t * 4096 + 1 + 2) (omega arith)) refl,
  λ from below. no_table t va (λ e. omega (arith, e)) (λ e. omega (arith, e)),
  λ from. no_table t va (λ e. omega (arith, e)) (λ e. omega (arith, e)),
)
