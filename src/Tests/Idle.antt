-- ===== src/Tests/Idle.antt =====
-- Examples for the end of sched_yield, for the breakpoint trap and for ipc_send.
use jos.Base.{ℕ, ◌≡◌, refl, true, false, ◌==◌, if◌then◌else◌, arith}
use jos.Kernel.{Kernel, Env, Trapframe, env_free, env_running, env_not_runnable, panic}
use jos.Env.{nenv}
use jos.Sched.{any_alive, search_start}
use jos.Sched.Order.{Idle}
use jos.Trap.{trap}
use jos.Trap.Breakpoint.{trap-breakpoint}
use jos.Tests.Data.{kernel, new_env, no_frame}

-- Environment 0 waits, 1 runs on another CPU.
abbrev waiting_envs : ℕ → Env
waiting_envs i =
    if i == 0
    then new_env 0x1000 0 env_not_runnable
    else if i == 1
    then new_env 0x1001 0x1000 env_running
    else new_env 0 0 env_free

abbrev waiting : Kernel
waiting = record kernel { envs = waiting_envs }

waiting-Idle : Idle (search_start waiting) waiting.envs nenv 0
waiting-Idle j h = ground arith

waiting_alive : any_alive nenv waiting.envs ≡ true
unfolding any_alive
waiting_alive = refl

abbrev int3 : Trapframe
int3 = record no_frame { tf_trapno = 3; tf_eflags = 0x202; tf_cs = 0x1b }

trap-breakpoint_example : trap (λ a ws s. s) 0 int3 (record kernel { locked = false }) ≡ panic
trap-breakpoint_example =
    trap-breakpoint (λ a ws s. s) 0 int3 (record kernel { locked = false }) refl refl refl
