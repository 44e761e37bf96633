-- ===== src/Env/Unused/Startup.antt =====
-- The list of unused environments after env_init of kern/env.c.
use jos.Base.{
  ℕ, zero, suc, ◌+◌, ◌≤◌, ◌<◌, ◌≡◌, ◌≢◌, refl, ap, sym, none, some, List, [], ◌∷◌, NotIn, update,
  arith,
}
use mathlib.Core.Path.{subst}
use jos.Kernel.{Kernel, env_free}
use jos.Env.{nenv, init_envs, env_init}
use jos.Env.Unused.{Links, IsEnvList, Links-same, still-unused}

-- The `n` numbers from `i` on.
unfoldable pub slots : ℕ → ℕ → List ℕ
slots i zero = []
slots i (suc n) = i ∷ slots (i + 1) n

NotIn-slots : (x i n : ℕ) → x < i → NotIn x (slots i n)
unfolding slots
NotIn-slots x i zero lt = tt
NotIn-slots x i (suc n) lt =
    (λ e. absurd (omega (arith, e, lt)), NotIn-slots x (i + 1) n (omega (arith, lt)))

-- One round of the loop puts `n` before the list.
push_slot :
    (n : ℕ) (k : Kernel) (xs : List ℕ)
    → n < nenv
    → NotIn n xs
    → IsEnvList k xs
    → IsEnvList
        (record k {
          envs =
              update k.envs n (record (k.envs n) {
                env_id = 0;
                env_link = k.env_free_list;
                env_status = env_free;
              });
          env_free_list = some n;
        })
        (n ∷ xs)
push_slot n k xs lt out l =
    let made = record (k.envs n) {
      env_id = 0;
      env_link = k.env_free_list;
      env_status = env_free;
    } in
    let at_n : update k.envs n made n ≡ made = ground arith in
    let others : (j : ℕ) → j ≢ n → update k.envs n made j ≡ k.envs j = λ j h. ground arith in
    record {
      links = (
        refl,
        subst (λ v. Links (update k.envs n made) v.env_link xs) (sym at_n)
            (Links-same {f = k.envs} {g = update k.envs n made} n others k.env_free_list xs out
              l.links),
      );
      distinct = (out, l.distinct);
      unused = (
        (ap (λ v. v.env_status) at_n, lt),
        still-unused {f = k.envs} {g = update k.envs n made} n others xs out l.unused,
      );
    }

init_envs-slots :
    (n m : ℕ) (k : Kernel)
    → n + m ≤ nenv
    → IsEnvList k (slots n m)
    → IsEnvList (init_envs n k) (slots 0 (n + m))
unfolding init_envs slots
init_envs-slots zero m k le l = subst (λ c. IsEnvList k (slots 0 c)) (omega arith) l
init_envs-slots (suc n) m k le l =
    let here : suc n ≡ n + 1 = omega arith in
    subst (λ c. IsEnvList (init_envs (suc n) k) (slots 0 c)) (omega arith)
      (init_envs-slots n (suc m) _ (omega (arith, le)) (
        push_slot n k (slots (n + 1) m) (omega (arith, le)) (NotIn-slots n (n + 1) m (omega arith))
          (subst (λ c. IsEnvList k (slots c m)) here l)))

-- After env_init the unused environments are all NENV slots, in the order of the table, so that the
-- first env_alloc takes `envs[0]`.
pub env_init-slots : (k : Kernel) → IsEnvList (env_init k) (slots 0 nenv)
unfolding env_init slots
env_init-slots k =
    init_envs-slots nenv 0 (record k { env_free_list = none }) (omega arith)
      (record { links = tt; distinct = tt; unused = tt })
