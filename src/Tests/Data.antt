-- ===== src/Tests/Data.antt =====
-- A small machine for the examples: sixteen pages, of which 4 and 5 are free. Page 1 is a page
-- directory and page 2 its first page table, which maps page 3 at address 0 and nothing at 4096.
use jos.Base.{ℕ, refl, ◌&&◌, ◌==◌, true, false, none, some, [], ◌∷◌, if◌then◌else◌, arith}
use jos.Phys.{PageInfo, Phys}
use jos.Phys.FreeList.{IsFreeList}
use jos.PageTable.Walk.{IsDir}
use jos.PageTable.Map.{HasTable}
use jos.Kernel.{
  PushRegs, Trapframe, Env, Kernel, CpuStatus, Status, env_free, env_runnable, env_running,
  env_not_runnable,
}

abbrev pub words : ℕ → ℕ → ℕ
words q i = if q == 1 && i == 0 then 0x2007 else if q == 2 && i == 0 then 0x3005 else 0

abbrev pub infos : ℕ → PageInfo
infos p =
    if p == 4
    then record { pp_link = some 5; pp_ref = 0 }
    else if p == 5
    then record { pp_link = none; pp_ref = 0 }
    else record { pp_link = none; pp_ref = 1 }

abbrev pub machine : Phys
machine = record { npages = 16; pages = infos; free_list = some 4; words = words; flushed = [] }

-- The same machine with no page on the list.
abbrev pub used_up : Phys
used_up = record machine { free_list = none }

pub machine-IsFreeList : IsFreeList machine (4 ∷ 5 ∷ [])
machine-IsFreeList = record {
  chain = (refl, (refl, tt));
  distinct = ground arith;
  unused = ground arith;
}

pub machine-IsDir : IsDir machine 1
machine-IsDir n h = ground arith

pub machine-HasTable : HasTable machine 1 0
machine-HasTable = record { present = refl; in_range = omega arith; apart = ground arith }

pub machine-HasTable_next : HasTable machine 1 4096
machine-HasTable_next = record { present = refl; in_range = omega arith; apart = ground arith }

-- A kernel with three environments: 0 runs and has the directory of `machine`, 1 is its child and
-- waits for a message, 2 belongs to somebody else and is runnable.
abbrev pub no_regs : PushRegs
no_regs = record {
  reg_edi = 0;
  reg_esi = 0;
  reg_ebp = 0;
  reg_oesp = 0;
  reg_ebx = 0;
  reg_edx = 0;
  reg_ecx = 0;
  reg_eax = 7;
}

abbrev pub no_frame : Trapframe
no_frame = record {
  tf_regs = no_regs;
  tf_es = 0;
  tf_ds = 0;
  tf_trapno = 0;
  tf_err = 0;
  tf_eip = 0;
  tf_cs = 0;
  tf_eflags = 0;
  tf_esp = 0;
  tf_ss = 0;
}

abbrev pub new_env : ℕ → ℕ → Status → Env
new_env id parent st = record {
  env_tf = no_frame;
  env_link = none;
  env_id = id;
  env_parent_id = parent;
  env_type = 0;
  env_status = st;
  env_runs = 0;
  env_cpunum = 0;
  env_pgdir = some 1;
  env_pgfault_upcall = 0;
  env_ipc_recving = false;
  env_ipc_dstva = 0;
  env_ipc_value = 0;
  env_ipc_from = 0;
  env_ipc_perm = 0;
}

abbrev pub table : ℕ → Env
table i =
    if i == 0
    then new_env 0x1000 0 env_running
    else if i == 1
    then record (new_env 0x1001 0x1000 env_not_runnable) { env_ipc_recving = true }
    else if i == 2
    then new_env 0x1002 0x1001 env_runnable
    else new_env 0 0 env_free

abbrev pub kernel : Kernel
kernel = record {
  phys = machine;
  envs = table;
  env_free_list = some 3;
  kern_pgdir = 6;
  curenv = some 0;
  cr3 = 1;
  cpu_status = CpuStatus.cpu_started;
  cpunum = 0;
  locked = true;
  cons = record { buf = λ i. 0; rpos = 0; wpos = 0 };
  serial_in = [];
  kbd_in = [];
  printed = [];
}
