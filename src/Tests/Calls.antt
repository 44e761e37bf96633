-- ===== src/Tests/Calls.antt =====
-- Examples for the stubs of lib/syscall.c and for mon_backtrace.
use jos.Base.{ℕ, ◌≢◌, refl, Option, none, some, [], ◌==◌, if◌then◌else◌, arith}
use jos.Monitor.Commands.{returned, backtrace}
use jos.Monitor.Commands.Faults.{backtrace-faults}
use jos.User.Stubs.Reached.{ReachesKernel, stubs-ReachesKernel}
use jos.Tests.Data.{no_frame}

stubs-ReachesKernel_example : ReachesKernel (λ a ws s. s) 0 (some 0) no_frame 0x1001 4096 7 8192 7
stubs-ReachesKernel_example =
    stubs-ReachesKernel (λ a ws s. s) 0 (some 0) no_frame 0x1001 4096 7 8192 7

-- A stack whose first frame is the last one, and nothing mapped at address 4.
abbrev one_frame : ℕ → Option ℕ
one_frame a = if a == 4 then none else if a == 0xf011_0000 then some 0 else some 0xf010_0040

backtrace-faults_example : backtrace one_frame 3 0xf011_0000 ≢ returned []
backtrace-faults_example = backtrace-faults one_frame 3 0xf011_0000 [] refl (ground arith)
