-- ===== src/User/Ipc.antt =====
-- lib/ipc.c. The system calls are parameters: what the kernel answers to each.
pub mod Loop
use jos.Base.{
  ℕ, zero, suc, ◌+◌, Bool, true, false, Option, none, some, List, [], ◌∷◌, ◌==◌, if◌then◌else◌,
}
use jos.Errors.{Ret, ret, fail, e_ipc_not_recv}
use jos.Kernel.{Env}

-- `if (pg == NULL) pg = (void *) -1`
abbrev pub page_arg : ℕ → ℕ
page_arg pg = if pg == 0 then 0xffff_ffff else pg

-- A store through a pointer that may be NULL: `none` where nothing is stored.
abbrev pub when : Bool → ℕ → Option ℕ
when true v = some v
when false v = none

-- The result, `*from_env_store` and `*perm_store`. `thisenv` is the environment after the call.
unfoldable pub ipc_recv : (ℕ → Ret) → Env → Bool → ℕ → Bool → Ret × Option ℕ × Option ℕ
ipc_recv sys_ipc_recv thisenv from_env_store pg perm_store = elim (sys_ipc_recv (page_arg pg)) [
  | fail err ↦ (fail err, when from_env_store 0, when perm_store 0)
  | ret n ↦ (
    ret thisenv.env_ipc_value,
    when from_env_store thisenv.env_ipc_from,
    when perm_store thisenv.env_ipc_perm,
  )
]

-- How far ipc_send got: the message went out, panic(), or every try in the list was refused; each
-- with the number of calls of sys_yield.
pub data Sending : Type 0 where
  sent panicked trying : ℕ → Sending

abbrev pub is_not_recv : Ret → Bool
is_not_recv (fail e_ipc_not_recv) = true
is_not_recv _ = false

abbrev pub one_more : Sending → Sending
one_more (sent n) = sent (n + 1)
one_more (panicked n) = panicked (n + 1)
one_more (trying n) = trying (n + 1)

-- The loop; `tries` has what sys_ipc_try_send answers at each try.
unfoldable pub send_loop : List Ret → Sending
send_loop [] = trying 0
send_loop (r ∷ rs) =
    let again = one_more (send_loop rs) in
    elim r [ ret n ↦ sent 0 | fail err ↦ if is_not_recv (fail err) then again else panicked 0 ]

unfoldable pub ipc_send : List (ℕ → ℕ → ℕ → ℕ → Ret) → ℕ → ℕ → ℕ → ℕ → Sending
unfolding send_loop
ipc_send tries to_env val pg perm = send_loop (answers tries)
  where
    answers : List (ℕ → ℕ → ℕ → ℕ → Ret) → List Ret
    answers [] = []
    answers (f ∷ fs) = f to_env val (page_arg pg) perm ∷ answers fs

-- The entries `i ..` of `envs`, with `n` rounds left.
unfoldable pub find_env : ℕ → ℕ → ℕ → (ℕ → Env) → ℕ
find_env zero i type envs = 0
find_env (suc n) i type envs = elim ((envs i).env_type == type) [
  | true ↦ (envs i).env_id
  | false ↦ find_env n (i + 1) type envs
]

unfoldable pub ipc_find_env : ℕ → (ℕ → Env) → ℕ
unfolding find_env
ipc_find_env type envs = find_env 1024 0 type envs
