-- ===== src/Env/Unused.antt =====
-- The list that `env_free_list` of kern/env.c heads: env_init and env_alloc.
pub mod Startup
use jos.Base.{
  ℕ, zero, suc, ◌+◌, ◌<◌, ◌≡◌, ◌≢◌, refl, ap, sym, ◌∙◌, true, Option, none, some, List, [], ◌∷◌,
  All, NotIn, Distinct, bit_or, update, ◌⊎◌, inl, inr, arith,
}
use mathlib.Core.Path.{subst}
use mathlib.Core.List.{cons≢nil}
use jos.Errors.{Error, ret, fail, e_no_mem, e_no_free_env}
use jos.Phys.{Phys, page_alloc, alloc_head}
use jos.Mmu.{pdx, uvpt, pte_p, pte_u}
use jos.Phys.{add_ref, store, page2pa}
use jos.Phys.FreeList.{IsFreeList, Chain-same, unused-same}
use jos.Phys.Alloc.{page_alloc-pop, kaddr-page}
use jos.Kernel.{Env, Kernel, env_free, ok, and_then, run_ok, phys_ok, set_env}
use jos.Env.{nenv, setup_pgdir, env_setup_vm, env_alloc, commit_env}

-- Following `env_link` from `h` visits the environments `xs` and ends.
abbrev pub Links : (ℕ → Env) → Option ℕ → List ℕ → Type 0
Links f none [] = Unit
Links f none (x ∷ xs) = ⊥
Links f (some e) [] = ⊥
Links f (some e) (x ∷ xs) = (e ≡ x) × Links f (f e).env_link xs

-- The unused environments are `xs`: each once, each a slot of the table with status ENV_FREE.
pub record IsEnvList (k : Kernel) (xs : List ℕ) : Type 0 where
  pub links : Links k.envs k.env_free_list xs
  pub distinct : Distinct xs
  pub unused : All (λ e. ((k.envs e).env_status ≡ env_free) × (e < nenv)) xs

-- A change of an environment outside the list does not touch the list.
module _ {f g : ℕ → Env} (q : ℕ) (same : (j : ℕ) → j ≢ q → g j ≡ f j) where
  pub Links-same : (h : Option ℕ) (xs : List ℕ) → NotIn q xs → Links f h xs → Links g h xs
  Links-same none [] n c = c
  Links-same none (x ∷ xs) n c = c
  Links-same (some p) [] n c = c
  Links-same (some p) (x ∷ xs) n c =
      let e : g p ≡ f p = same p (ground arith) in
      (c.0, rw e (Links-same (f p).env_link xs n.1 c.1))

  pub still-unused :
      (xs : List ℕ)
      → NotIn q xs
      → All (λ e. ((f e).env_status ≡ env_free) × (e < nenv)) xs
      → All (λ e. ((g e).env_status ≡ env_free) × (e < nenv)) xs
  still-unused [] n u = u
  still-unused (x ∷ xs) n u =
      let e : g x ≡ f x = same x n.0 in ((rw e u.0.0, u.0.1), still-unused xs n.1 u.1)

Links-none : (f : ℕ → Env) (h : Option ℕ) → Links f h [] → h ≡ none
Links-none f none c = refl
Links-none f (some e) c = absurd c

Links-head :
    (f : ℕ → Env) (h : Option ℕ) (e : ℕ) (xs : List ℕ)
    → Links f h (e ∷ xs)
    → (h ≡ some e) × Links f (f e).env_link xs
Links-head f none e xs c = absurd c
Links-head f (some q) e xs c = (ap some c.0, subst (λ (r : ℕ). Links f (f r).env_link xs) c.0 c.1)

-- Of the list `e ∷ xs`, the head and the links of the others.
pub IsEnvList-head :
    {k : Kernel} {e : ℕ} {xs : List ℕ}
    → IsEnvList k (e ∷ xs)
    → (k.env_free_list ≡ some e) × Links k.envs (k.envs e).env_link xs
IsEnvList-head {k} {e} {xs} l = Links-head k.envs k.env_free_list e xs l.links

setup_pgdir-no_page :
    (kern_pgdir : ℕ) (s : Phys) → s.free_list ≡ none → setup_pgdir kern_pgdir s ≡ some (none, s)
unfolding setup_pgdir page_alloc alloc_head
setup_pgdir-no_page kern_pgdir s h = rw (setup_pgdir, page_alloc, h) refl

no_directory :
    (k : Kernel) (e : ℕ) → k.phys.free_list ≡ none → env_setup_vm e k ≡ ok (fail e_no_mem) k
unfolding env_setup_vm
no_directory k e h = phys_ok _ k (setup_pgdir-no_page k.kern_pgdir k.phys h)

-- Why there is no new environment.
abbrev pub refusal : List ℕ → Error
refusal [] = e_no_free_env
refusal (e ∷ rest) = e_no_mem

-- env_alloc takes the head.
pub env_alloc-head :
    (k : Kernel) (parent_id e : ℕ)
    → k.env_free_list ≡ some e
    → env_alloc parent_id k ≡ and_then (env_setup_vm e k) (λ r. commit_env e parent_id r)
unfolding env_alloc
env_alloc-head k parent_id e h = simp (env_alloc, h)

-- env_alloc with no unused environment, or with no free page.
pub env_alloc_refuses :
    (k : Kernel) (parent_id : ℕ) (xs : List ℕ)
    → IsEnvList k xs
    → (xs ≡ []) ⊎ (k.phys.free_list ≡ none)
    → env_alloc parent_id k ≡ ok (fail (refusal xs), none) k
unfolding env_alloc commit_env
env_alloc_refuses k parent_id [] l full =
    simp (env_alloc, Links-none k.envs k.env_free_list l.links)
env_alloc_refuses k parent_id (e ∷ rest) l (inr full) =
    env_alloc-head k parent_id e (IsEnvList-head l).0 ∙ run_ok _ (no_directory k e full)
env_alloc_refuses k parent_id (e ∷ rest) l (inl is_empty) = absurd (cons≢nil is_empty)

-- A directory on the page `p` that copies the kernel's and maps itself at UVPT.
abbrev made : ℕ → ℕ → Phys → Phys
made p kern_pgdir s =
    store p (pdx uvpt) (bit_or (bit_or (page2pa p) pte_p) pte_u)
      (record s { words = update s.words p (s.words kern_pgdir) })

-- The directory that setup_pgdir makes on the page `p`: the kernel's, but for the entry for UVPT.
pub setup_pgdir_lem :
    (kern_pgdir p : ℕ) (s : Phys) (ps : List ℕ)
    → IsFreeList s (p ∷ ps)
    → kern_pgdir ≢ p
    → (t : Phys) × (setup_pgdir kern_pgdir s ≡ some (some p, t))
      × IsFreeList t ps
      × ((i : ℕ) → i ≢ pdx uvpt → t.words p i ≡ s.words kern_pgdir i)
unfolding setup_pgdir
setup_pgdir_lem kern_pgdir p s ps free other =
    let (t, popped, rest, _, _, _, same) = page_alloc-pop free true in
    let got = kaddr-page p (add_ref p t) (omega (arith, same.npages, free.unused.0.1)) in
    (
      made p kern_pgdir (add_ref p t),
      rw (setup_pgdir, popped, got) refl,
      record {
        chain =
            Chain-same {f = t.pages} {g = (add_ref p t).pages} p (λ j n. ground arith) t.free_list
              ps free.distinct.0 rest.chain;
        distinct = rest.distinct;
        unused =
            unused-same {f = t.pages} {g = (add_ref p t).pages} p (λ j n. ground arith) t.npages ps
              free.distinct.0 rest.unused;
      },
      λ i n. ground (arith, ap (λ w. w i) (same.words kern_pgdir other)),
    )

-- env_setup_vm gives the environment that directory.
pub env_setup_vm_lem :
    (k : Kernel) (e p : ℕ) (ps : List ℕ)
    → IsFreeList k.phys (p ∷ ps)
    → k.kern_pgdir ≢ p
    → (t : Phys) × (env_setup_vm e k
        ≡ ok (ret 0) (set_env e (record (k.envs e) { env_pgdir = some p }) (record k { phys = t })))
      × IsFreeList t ps
      × ((i : ℕ) → i ≢ pdx uvpt → t.words p i ≡ k.phys.words k.kern_pgdir i)
unfolding env_setup_vm
env_setup_vm_lem k e p ps free other =
    let (t, built, rest, copied) = setup_pgdir_lem k.kern_pgdir p k.phys ps free other in
    (t, phys_ok _ k built, rest, copied)
