-- ===== src/Lib.antt =====
-- Verification of the JOS kernel (kern/, inc/), of its boot loader (boot/) and of its user library
-- (lib/).
--
-- The boot loader reads the kernel from the disk (boot/main.c). The kernel turns paging on with a
-- constant page table (kern/entrypgdir.c), manages physical pages (kern/pmap.c), maps them through
-- two-level page tables, finds its CPUs (kern/mpconfig.c), runs environments on them under one lock
-- (kern/env.c, kern/sched.c, kern/spinlock.c), and serves system calls and traps (kern/syscall.c,
-- kern/trap.c); its console has a keyboard and a screen (kern/console.c). The user library has
-- strings and printing (lib/string.c, lib/printfmt.c, lib/printf.c), message passing (lib/ipc.c) and
-- a copy-on-write fork (lib/fork.c), which calls the kernel.
--
-- Base: numbers, Boolean tests, lists, bit operations and 32-bit words. Mmu: the constants and
-- macros of inc/mmu.h and inc/memlayout.h. Errors: inc/error.h and results of calls. Elf: inc/elf.h.
--
-- Boot: boot/main.c. Entry: kern/entrypgdir.c. Mp: kern/mpconfig.c. Startup: boot_aps and mp_main of
-- kern/init.c with kern/mpentry.S, as a system of steps of the CPUs. Device: the writes of kern/lapic.c,
-- kern/picirq.c and kern/kclock.c. Descriptor: the descriptors of inc/mmu.h, `gdt`, env_init_percpu and
-- trap_init_percpu. Startup.Panic: the messages of panic. Boot.Segment, Entry.Translate, Mp.Numbered, Startup.Invariant,
-- Startup.Stacks, Device.Lapic.Target, Descriptor.Decoded, Descriptor.Stacks: theorems.
--
-- Phys: `pages`, `page_free_list` and the functions on them of kern/pmap.c. A page is its number,
-- a null pointer `none`, a panic `none` of the result. Phys.Boot: what runs before there is a list.
-- Phys.FreeList: the list as page numbers. Phys.SelfTest: check_page_alloc. Phys.Alloc, Phys.Init,
-- Phys.SelfTest.Parts and Phys.SelfTest.Passes: theorems.
--
-- PageTable: pgdir_walk, page_insert, page_lookup, page_remove, tlb_invalidate. PageTable.Regions:
-- boot_map_region, mem_init_mp, mmio_map_region. PageTable.MemInit: mem_init. PageTable.UserMem:
-- user_mem_check. PageTable.SelfTest: the other self-tests of kern/pmap.c. PageTable.Walk, PageTable.Map,
-- PageTable.Insert, PageTable.Remove, PageTable.UserMem.Range: theorems.
--
-- Kernel: the state that environments, scheduler, system calls and traps share, as one CPU sees it,
-- and how a call ends: it returns, it runs an environment, it halts, or it panics.
--
-- Env: kern/env.c, with env_free in Env.Free and the ELF loader in Env.Loader. Sched: kern/sched.c
-- and env_destroy. Syscall: kern/syscall.c, with Syscall.Memory, Syscall.Ipc and Syscall.Dispatch.
-- Trap: kern/trap.c, with what it prints in Trap.Printed. Env.Unused: the list that env_free_list heads. Env.Ids, Env.Unused.Startup,
-- Syscall.Exofork, Syscall.Memory.Mapped, Sched.Order, Sched.Fair, Syscall.Isolation, Syscall.Ipc.Deliver, Syscall.Memory.Grant,
-- Syscall.Memory.Allocate, Trap.Breakpoint: theorems.
--
-- Spinlock: kern/spinlock.c as a system of steps of any number of CPUs. Console: kern/console.c, the
-- input buffer, with Console.Screen, Console.Keyboard and Console.Ports. Readline: lib/readline.c. Console.Fifo,
-- Console.Screen.Shown, Console.Keyboard.Keys, Readline.Edited: theorems.
--
-- Monitor: runcmd of kern/monitor.c, with the commands in Monitor.Commands. Monitor.Args,
-- Monitor.Commands.Faults: theorems.
--
-- Kdebug: stab_binsearch of kern/kdebug.c, and debuginfo_eip in Kdebug.Info. Kdebug.Ends,
-- Kdebug.Region, Kdebug.Found, Kdebug.Info.Line: theorems.
--
-- Str: lib/string.c. Print: printnum and vsnprintf of lib/printfmt.c, vprintfmt in Print.Format, and
-- lib/printf.c in Print.Buffered, and
-- kern/printf.c in Print.Cprintf. User: lib/ipc.c, lib/fork.c and lib/pgfault.c; User.Primes:
-- user/primes.c as a system of steps of its processes; User.Stubs: lib/syscall.c, lib/exit.c,
-- lib/libmain.c and lib/console.c. User.Stubs.Reached, User.Fork.Cow, User.Primes.Chain,
-- User.Primes.Output, Str.Text,
-- Str.Mem.Copy, Str.Mem.Fill, Print.Digits, Print.Buffer, Print.Format.Ends, Print.Format.Decimal,
-- Print.Buffered.Flush, Print.Cprintf.OnScreen and User.Ipc.Loop: theorems.
--
-- Tests: the theorems on small machines and short texts.
--
-- Machine integers are natural numbers with the wrap-around written out. Loops with a fixed number
-- of rounds recurse on the rounds that are left: 1024 entries or environments, the pages of a range,
-- the bytes of a block, the entries of a table. printnum recurses on fuel, and a number above the
-- one printed is enough; so do vprintfmt, for which the length of the format is enough,
-- stab_binsearch, for which twice the length of the table is, and readseg, for which the number of
-- sectors is; a self-test that follows the free list takes a number of rounds, and more than the list
-- has pages is enough. ipc_send, which may try for ever, takes the list of the kernel's answers, and
-- readline, which may wait for ever, the list of those of getchar. A width or a precision of a
-- format is not cut to 32 bits.
--
-- Parameters: what devices answer (Device, Console.Ports), the words of the stack that mon_backtrace
-- walks (Monitor.Commands), the NVRAM and the end of the kernel image (Phys.Boot), the bytes that devices hold
-- (Console, Readline), the bytes of the drive (Boot), the memory that the firmware leaves (Mp), the
-- stores of a trap frame and of a program's segments through the page tables (Trap, Env.Loader), the
-- memory with the tables of symbols (Kdebug.Info), and the kernel's answers (User.Ipc).
--
-- Not modelled: the order of calls in i386_init (kern/init.c), the short programs of user/ other than
-- primes.c, and most messages on the console.
pub mod Base
pub mod Mmu
pub mod Elf
pub mod Boot
pub mod Entry
pub mod Mp
pub mod Startup
pub mod Device
pub mod Descriptor
pub mod Readline
pub mod Errors
pub mod Phys
pub mod PageTable
pub mod Console
pub mod Kernel
pub mod Env
pub mod Sched
pub mod Syscall
pub mod Trap
pub mod Spinlock
pub mod Str
pub mod Kdebug
pub mod Monitor
pub mod Print
pub mod User
pub mod Tests
