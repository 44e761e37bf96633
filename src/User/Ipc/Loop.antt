-- ===== src/User/Ipc/Loop.antt =====
-- How the loop of ipc_send (lib/ipc.c) ends, by what the kernel answers to its tries.
use jos.Base.{ℕ, zero, suc, ◌+◌, ◌≡◌, refl, ap, ◌∙◌, false, List, [], ◌∷◌, ◌++◌, replicate, arith}
use jos.Errors.{Error, Ret, ret, fail, e_ipc_not_recv}
use jos.User.Ipc.{Sending, sent, panicked, trying, is_not_recv, one_more, send_loop}

-- What the kernel answers while the receiver does not wait.
abbrev pub refusals : ℕ → List Ret
refusals n = replicate n (fail e_ipc_not_recv)

after_refusals :
    (n : ℕ) (rest : List Ret) (f : ℕ → Sending)
    → ((m : ℕ) → one_more (f m) ≡ f (m + 1))
    → send_loop rest ≡ f 0
    → send_loop (refusals n ++ rest) ≡ f n
unfolding send_loop
after_refusals zero rest f step e = e
after_refusals (suc n) rest f step e =
    ap one_more (after_refusals n rest f step e) ∙ step n ∙ ap f (omega arith)

-- ipc_send tries again, after sys_yield, as long as the kernel answers -E_IPC_NOT_RECV: `n` such
-- answers and then 0 end it with the message sent after `n` calls of sys_yield; then another error
-- ends it in panic(); and after the `n` answers alone it is still trying.
pub send_loop-ends :
    (n m : ℕ) (err : Error) (rest : List Ret)
    → is_not_recv (fail err) ≡ false
    → (send_loop (refusals n ++ ret m ∷ rest) ≡ sent n)
      × (send_loop (refusals n ++ fail err ∷ rest) ≡ panicked n)
      × (send_loop (refusals n ++ []) ≡ trying n)
unfolding send_loop
send_loop-ends n m err rest other = (
  after_refusals n (ret m ∷ rest) sent (λ j. refl) refl,
  after_refusals n (fail err ∷ rest) panicked (λ j. refl) (rw other refl),
  after_refusals n [] trying (λ j. refl) refl,
)
