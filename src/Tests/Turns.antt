-- ===== src/Tests/Turns.antt =====
-- An example for the turns of sched_yield: environments 0, 1 and 2, of which 1 has its turn before 2.
use jos.Base.{ℕ, ap, Option, none, true, ◌≡◌, ◌<◌, refl, some, ◌==◌, if◌then◌else◌, arith}
use mathlib.Core.Path.{subst}
use jos.Kernel.{Kernel, Env, env_free, env_running, env_runnable, running}
use jos.Env.{nenv, envx, enter, make_current, env_run}
use jos.Sched.{sched_yield, find_runnable}
use jos.Sched.Fair.{IsReady, Resumes, Waits, Waits-fair}
use jos.Tests.Data.{kernel, new_env}

slot_of : Option ℕ → ℕ
slot_of none = 0
slot_of (some e) = e

abbrev three_envs : ℕ → Env
three_envs i =
    if i == 0
    then new_env 0x1000 0 env_running
    else if i == 1
    then new_env 0x1001 0x1000 env_runnable
    else if i == 2
    then new_env 0x1002 0x1000 env_runnable
    else new_env 0 0 env_free

abbrev first_turn : Kernel
first_turn = record kernel { envs = three_envs }

abbrev second_turn : Kernel
second_turn = record (enter 1 1 (make_current 1 first_turn)) { locked = true }

first-IsReady : IsReady 2 first_turn
first-IsReady = record {
  held = refl;
  slot = omega arith;
  runnable = refl;
  dirs = λ e h. (1, ground arith);
}

second-IsReady : IsReady 2 second_turn
second-IsReady = record {
  held = refl;
  slot = omega arith;
  runnable = refl;
  dirs = λ e h. (1, ground arith);
}

runs_one : sched_yield first_turn ≡ running (enter 1 1 (make_current 1 first_turn))
unfolding sched_yield find_runnable env_run
runs_one = refl

slot_is_one : (e : ℕ) → second_turn.curenv ≡ some e → 1 ≡ e
unfolding slot_of
slot_is_one e h = ap slot_of h

one-Resumes : Resumes (enter 1 1 (make_current 1 first_turn)) second_turn
one-Resumes = record {
  same_env = refl;
  own_slot = λ e h. subst (λ n. envx (second_turn.envs n).env_id ≡ n) (slot_is_one e h) refl;
}

two-Waits : Waits 2 1 first_turn
two-Waits =
    Waits.passed 0 first_turn (enter 1 1 (make_current 1 first_turn)) second_turn first-IsReady
      runs_one (λ e. omega (arith, slot_is_one 2 e)) one-Resumes
      (Waits.next second_turn second-IsReady)

Waits-fair_example : 1 < nenv
Waits-fair_example = Waits-fair 2 1 first_turn two-Waits
