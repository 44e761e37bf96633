-- ===== src/User/Stubs.antt =====
-- lib/syscall.c, lib/exit.c, lib/libmain.c and lib/console.c: the calls that a program makes, as the
-- number and the registers that it puts them in. Signed arguments are their 32-bit patterns.
pub mod Reached
use jos.Base.{
  ℕ, ◌+◌, ◌*◌, ◌%◌, Bool, true, false, not, ◌&&◌, Option, none, some, List, [], ◌∷◌, ltb, ◌==◌,
  if◌then◌else◌,
}
use jos.Kernel.{Trapframe}
use jos.Env.{envx}

-- `num`, `check` and the arguments `a1` to `a5` of syscall.
pub record Call : Type 0 where
  pub num : ℕ
  pub check : Bool
  pub a1 : ℕ
  pub a2 : ℕ
  pub a3 : ℕ
  pub a4 : ℕ
  pub a5 : ℕ

-- T_SYSCALL
abbrev pub t_syscall : ℕ
t_syscall = 48

-- The frame that `int` leaves, of a program in the state `tf`.
unfoldable pub raise : Call → Trapframe → Trapframe
raise c tf = record tf {
  tf_trapno = t_syscall;
  tf_regs = record (tf.tf_regs) {
    reg_eax = c.num;
    reg_edx = c.a1;
    reg_ecx = c.a2;
    reg_ebx = c.a3;
    reg_edi = c.a4;
    reg_esi = c.a5;
  };
}

-- `if(check && ret > 0) panic(...); return ret`, with `ret` as the register EAX holds it.
unfoldable pub checked : Call → ℕ → Option ℕ
checked c ret = if c.check && (ltb 0 ret && ltb ret 0x8000_0000) then none else some ret

abbrev pub plain_call : ℕ → Bool → ℕ → ℕ → ℕ → ℕ → ℕ → Call
plain_call num check a1 a2 a3 a4 a5 = record {
  num = num;
  check = check;
  a1 = a1;
  a2 = a2;
  a3 = a3;
  a4 = a4;
  a5 = a5;
}

unfoldable pub user_cputs : ℕ → ℕ → Call
user_cputs s len = plain_call 0 false s len 0 0 0

unfoldable pub user_cgetc : Call
user_cgetc = plain_call 1 false 0 0 0 0 0

unfoldable pub user_env_destroy : ℕ → Call
user_env_destroy envid = plain_call 3 true envid 0 0 0 0

unfoldable pub user_getenvid : Call
user_getenvid = plain_call 2 false 0 0 0 0 0

unfoldable pub user_yield : Call
user_yield = plain_call 10 false 0 0 0 0 0

unfoldable pub user_page_alloc : ℕ → ℕ → ℕ → Call
user_page_alloc envid va perm = plain_call 4 true envid va perm 0 0

unfoldable pub user_page_map : ℕ → ℕ → ℕ → ℕ → ℕ → Call
user_page_map srcenv srcva dstenv dstva perm = plain_call 5 true srcenv srcva dstenv dstva perm

unfoldable pub user_page_unmap : ℕ → ℕ → Call
user_page_unmap envid va = plain_call 6 true envid va 0 0 0

unfoldable pub user_env_set_status : ℕ → ℕ → Call
user_env_set_status envid status = plain_call 8 true envid status 0 0 0

unfoldable pub user_env_set_pgfault_upcall : ℕ → ℕ → Call
user_env_set_pgfault_upcall envid upcall = plain_call 9 true envid upcall 0 0 0

unfoldable pub user_ipc_try_send : ℕ → ℕ → ℕ → ℕ → Call
user_ipc_try_send envid value srcva perm = plain_call 11 false envid value srcva perm 0

unfoldable pub user_ipc_recv : ℕ → Call
user_ipc_recv dstva = plain_call 12 true dstva 0 0 0 0

-- exit: it destroys the caller.
unfoldable pub exit : Call
unfolding user_env_destroy
exit = user_env_destroy 0

-- The slot that libmain makes `thisenv` point at, from what sys_getenvid returns.
unfoldable pub thisenv_slot : ℕ → ℕ
thisenv_slot envid = envx envid

-- cputchar(ch): the byte is at the address of the local `c`.
unfoldable pub user_cputchar : ℕ → Call
unfolding user_cputs
user_cputchar c_addr = user_cputs c_addr 1

-- getchar, on what the calls of sys_cgetc return: the character and the number of calls of sys_yield
-- before it. With no other answer it goes on for ever, `none`.
unfoldable pub user_getchar : List ℕ → Option (ℕ × ℕ)
user_getchar [] = none
user_getchar (r ∷ rest) =
    let later = user_getchar rest in
    if r == 0 then elim later [ none ↦ none | some (c, n) ↦ some (c, n + 1) ] else some (r, 0)
