-- ===== src/Errors.antt =====
-- The error codes of inc/error.h, and the int results that carry them: `ret n` is the number n,
-- `fail e` the negative number -e.
use jos.Base.{ℕ, ◌-◌}

pub data Error : Type 0 where
  e_unspecified e_bad_env e_inval e_no_mem e_no_free_env e_fault e_no_sys e_ipc_not_recv e_eof :
      Error

pub data Ret : Type 0 where
  ret : ℕ → Ret
  fail : Error → Ret

abbrev pub code : Error → ℕ
code e_unspecified = 1
code e_bad_env = 2
code e_inval = 3
code e_no_mem = 4
code e_no_free_env = 5
code e_fault = 6
code e_no_sys = 7
code e_ipc_not_recv = 8
code e_eof = 9

-- The result as a register holds it: 32 bits, two's complement.
abbrev pub eax_of : Ret → ℕ
eax_of (ret n) = n
eax_of (fail e) = 0x1_0000_0000 - code e
