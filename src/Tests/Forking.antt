-- ===== src/Tests/Forking.antt =====
-- An example for duppage: environment 0 has page 3 at address 0, with PTE_W; its child, environment 1,
-- has a directory and a page table of its own, on pages 6 and 7.
use jos.Base.{true, ℕ, ◌*◌, ◌+◌, ◌≡◌, refl, ◌==◌, some, if◌then◌else◌, arith}
use jos.Phys.{Phys}
use jos.PageTable.Walk.{pte_of}
use jos.PageTable.Map.{HasTable}
use jos.Kernel.{Kernel, Env, ok}
use jos.Env.{found, envid2env}
use jos.User.Fork.{done, duppage}
use jos.User.Fork.Cow.{AreApart, cow, duppage-cow}
use jos.Tests.Data.{machine, kernel, table}

abbrev two_dirs : Phys
two_dirs = record machine {
  words = λ q i.
      if i == 0
      then (if q == 1 then 0x2007 else if q == 2 then 0x3007 else if q == 6 then 0x7007 else 0)
      else 0;
}

abbrev parent_and_child : ℕ → Env
parent_and_child i = if i == 1 then record (table 1) { env_pgdir = some 6 } else table i

abbrev forking : Kernel
forking = record kernel { phys = two_dirs; envs = parent_and_child }

parent-HasTable : HasTable two_dirs 1 0
parent-HasTable = record { present = refl; in_range = omega arith; apart = ground arith }

child-HasTable : HasTable two_dirs 6 0
child-HasTable = record { present = refl; in_range = omega arith; apart = ground arith }

two-AreApart : AreApart two_dirs 1 6 0
two-AreApart = record {
  dirs = ground arith;
  tables = ground arith;
  left = ground arith;
  right = ground arith;
}

child_found : envid2env 0x1001 true forking ≡ ok (found (some 1)) forking
unfolding envid2env
child_found = refl

duppage-cow_example :
    (k' : Kernel) × (duppage 0x1001 0 forking ≡ ok done k')
    × (pte_of k'.phys 1 0 ≡ 3 * 4096 + cow)
    × (pte_of k'.phys 6 0 ≡ 3 * 4096 + cow)
    × ((k'.phys.pages 3).pp_ref ≡ 2)
duppage-cow_example =
    duppage-cow forking 0 1 1 6 0x1001 refl refl refl child_found 0 refl parent-HasTable
      child-HasTable two-AreApart (omega arith) refl refl refl (omega arith) (omega arith)
