-- ===== src/User/Fork.antt =====
-- lib/fork.c and lib/pgfault.c: copy-on-write fork, in the calling environment, on the state of the
-- kernel. No other environment runs between its system calls.
pub mod Cow
use jos.Base.{
  ℕ, zero, suc, ◌+◌, ◌-◌, ◌*◌, ◌/◌, ◌%◌, Bool, not, ◌&&◌, ◌||◌, Option, none, some, ◌==◌,
  if◌then◌else◌, has, bit_and, round_down, update,
}
use jos.Mmu.{pg_size, pdx, pgnum, pte_p, pte_w, pte_u, pftemp, ustacktop, uxstacktop}
use jos.Errors.{Ret, ret, fail}
use jos.Kernel.{env_runnable, Kernel, ok, M, ◌>>=◌, ◌>>◌, pure, modify}
use jos.Syscall.{sys_exofork, sys_env_set_status, sys_env_set_pgfault_upcall}
use jos.Syscall.Memory.{sys_page_alloc, sys_page_map, sys_page_unmap}

abbrev pub pte_cow : ℕ
pte_cow = 0x800

-- `uvpd[i]` and `uvpt[n]`: the entries of the running environment's page tables.
abbrev pub dir_of : Kernel → ℕ
dir_of k = elim k.curenv [ none ↦ 0 | some c ↦ elim (k.envs c).env_pgdir [ none ↦ 0 | some d ↦ d ] ]

abbrev pub uvpd : Kernel → ℕ → ℕ
uvpd k i = k.phys.words (dir_of k) i

abbrev pub uvpt : Kernel → ℕ → ℕ
uvpt k n = k.phys.words (uvpd k (n / 1024) / 4096) (n % 1024)

-- A step of the library: it goes on, or the program calls panic().
pub data Step : Type 0 where
  done user_panic : Step

-- `if (r < 0) panic(...)`
abbrev pub must : M Ret → M Step
must m = m >>= λ r. elim r [ ret n ↦ pure done | fail err ↦ pure user_panic ]

abbrev pub then_step : M Step → M Step → M Step
then_step m n = m >>= λ r. elim r [ done ↦ n | user_panic ↦ pure user_panic ]

-- What duppage maps: the copy of a page that can be written, or already is copy-on-write.
unfoldable pub duppage : ℕ → ℕ → M Step
duppage envid pn k =
    let addr = pn * 4096 in
    (if has (uvpt k pn) pte_w || has (uvpt k pn) pte_cow
        then then_step (must (sys_page_map 0 addr envid addr (0x805)))
            (must (sys_page_map 0 addr 0 addr (0x805)))
        else must (sys_page_map 0 addr envid addr (0x005)))
      k

-- The test on a page of the loop of fork.
unfoldable pub is_shared : Kernel → ℕ → Bool
is_shared k addr =
    has (uvpd k (pdx addr)) pte_p
    && (has (uvpt k (pgnum addr)) pte_p && has (uvpt k (pgnum addr)) pte_u)

-- `for (addr = 0; addr < USTACKTOP; addr += PGSIZE)`, with `n` rounds left.
unfoldable pub dup_pages : ℕ → ℕ → ℕ → M Step
dup_pages zero addr envid k = ok done k
dup_pages (suc n) addr envid k =
    elim ((if is_shared k addr then duppage envid (pgnum addr) else pure done) k) [
      | ok r j ↦ elim r [
        | done ↦ dup_pages n (addr + pg_size) envid j
        | user_panic ↦ ok user_panic j
      ]
      | other ↦ other
    ]

-- set_pgfault_handler; `installed` is whether `_pgfault_handler` is set. `upcall` is the address of
-- _pgfault_upcall.
unfoldable pub set_pgfault_handler : Bool → ℕ → M Step
set_pgfault_handler installed upcall =
    if installed
    then pure done
    else then_step (must (sys_page_alloc 0 (uxstacktop - pg_size) 7))
        (must (sys_env_set_pgfault_upcall 0 upcall))

-- The parent's part, once the child exists.
unfoldable pub fill_child : ℕ → ℕ → M Step
fill_child upcall envid = then_step (dup_pages (ustacktop / 4096) 0 envid) (
    then_step (must (sys_page_alloc envid (uxstacktop - pg_size) 7)) (
      sys_env_set_pgfault_upcall envid upcall
      >> must (sys_env_set_status envid (some env_runnable))))

-- The child's envid, or `none` for a panic. In the child sys_exofork returns 0, and so does fork.
unfoldable pub fork : Bool → ℕ → M (Option ℕ)
fork installed upcall = do
  h ← set_pgfault_handler installed upcall
  elim h [
    | user_panic ↦ pure none
    | done ↦ do
      r ← sys_exofork
      elim r [
        | fail err ↦ pure none
        | ret n ↦
            if n == 0
            then pure (some 0)
            else (fill_child upcall n >>= λ s. elim s [
              | user_panic ↦ pure none
              | done ↦ pure (some n)
            ])
      ]
  ]

-- `memcpy(PFTEMP, addr, PGSIZE)`, of whole pages, through the page tables.
abbrev pub copy_page : ℕ → ℕ → Kernel → Kernel
copy_page dst src k =
    let s = k.phys in
    record k {
      phys = record s {
        words = update s.words (uvpt k (pgnum dst) / 4096) (s.words (uvpt k (pgnum src) / 4096));
      };
    }

-- The handler: a write to a copy-on-write page gets a copy of its own.
unfoldable pub pgfault : ℕ → ℕ → M Step
pgfault fault_va err k =
    if not (has err 2)
      || (not (has (uvpd k (pdx fault_va)) pte_p)
          || not (bit_and (uvpt k (pgnum fault_va)) 0x801 == 0x801))
    then ok user_panic k
    else (let addr = round_down fault_va pg_size in
        (then_step (must (sys_page_alloc 0 pftemp 7)) (
            modify (copy_page pftemp addr)
            >> then_step (must (sys_page_map 0 pftemp 0 addr 7)) (must (sys_page_unmap 0 pftemp))))
          k)
