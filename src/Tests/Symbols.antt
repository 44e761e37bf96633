-- ===== src/Tests/Symbols.antt =====
-- Examples for kern/kdebug.c: a table whose entries 1, 3 and 5 are functions, at 100, 200 and 300.
use jos.Base.{
  ℕ, zero, suc, ◌≢◌, ◌+◌, ◌*◌, ◌≤◌, ◌<◌, ◌≡◌, refl, some, if◌then◌else◌, ◌==◌, ◌%◌, arith,
}
use mathlib.Core.Bool.{false≢true}
use jos.Kdebug.{
  Stab, stab_binsearch, search_loop, search_round, find_back, round_with, compare_stab,
  search_result, scan_down,
}
use jos.Kdebug.Region.{value, InRegion, IsOrdered}
use jos.Kdebug.Found.{Brackets, stab_binsearch-Brackets, stab_binsearch-above}
use jos.Kdebug.Info.{Tables, Debug, search_tables}
use jos.Kdebug.Info.Line.{Lineless, search_tables-line}

abbrev table : ℕ → Stab
table i = record {
  n_strx = 0;
  n_type = if i % 2 == 1 then 0x24 else 0x44;
  n_other = 0;
  n_desc = 0;
  n_value = 50 * i + 50;
}

ordered_at : (addr : ℕ) → (addr + 1) % 50 ≢ 0 → IsOrdered table 0x24 0 6 addr
ordered_at addr h = record {
  increasing = λ i j p q l. omega arith;
  not_next = λ i p e. h (omega (arith, e));
}

first_function : (addr : ℕ) → InRegion table 0x24 0 6 addr 1
first_function addr = record { from = omega arith; below = omega arith; matches = refl }

stab_binsearch-Brackets_example :
    (l r : ℕ) × (stab_binsearch table 0x24 0 6 250 ≡ some (l + 1, r))
    × Brackets table 0x24 0 6 250 l r
stab_binsearch-Brackets_example =
    stab_binsearch-Brackets table 0x24 0 6 250 (ordered_at 250 (λ e. omega (arith, e)))
      (omega arith) 1 (first_function 250) (omega arith)

all_above : (i : ℕ) → InRegion table 0x24 0 6 60 i → 60 < value table 0x24 0 6 60 i
all_above zero p = absurd (false≢true p.matches)
all_above (suc i) p = omega arith

stab_binsearch-above_example :
    (r : ℕ × ℕ) × (stab_binsearch table 0x24 0 6 60 ≡ some r) × (r.0 ≤ r.1)
stab_binsearch-above_example =
    stab_binsearch-above table 0x24 0 6 60 (ordered_at 60 (λ e. omega (arith, e))) (omega arith) 1
      (first_function 60) all_above

-- Functions at 100 and 101: the search for 100 ends at the one at 101.
abbrev close_table : ℕ → Stab
close_table i = record (table i) { n_type = 0x24; n_value = 100 + i }

search_misses : stab_binsearch close_table 0x24 0 2 100 ≡ some (2, 2)
unfolding stab_binsearch search_loop search_round find_back round_with compare_stab search_result
    scan_down
search_misses = refl

-- Memory in which every entry is a file that starts at 0x01010101.
abbrev memory : ℕ → ℕ
memory a = if a % 12 == 4 then 0x64 else if a == 8191 then 0 else 1

abbrev tables : Tables
tables = record { stabs = 0; stab_end = 1200; stabstr = 8000; stabstr_end = 8192 }

search_tables-line_example :
    (d : Debug) × (search_tables memory tables 0xf010_0000 ≡ some d) × Lineless d
search_tables-line_example = search_tables-line memory tables 0xf010_0000 (omega arith)
