-- ===== src/Env/Ids.antt =====
-- The ids of environments: next_id and envid2env of kern/env.c.
use jos.Base.{
  ℕ, ◌/◌, ◌^◌, ◌<◌, ◌≡◌, ◌≢◌, ◌⊎◌, ◌↔◌, Bool, false, some, bit_or-high, add32, word, arith,
}
use jos.Kernel.{Kernel, env_free, ok, is_status}
use jos.Env.{envx, found, envid2env, next_id}

-- The id that env_alloc makes for the slot `e` from the slot's 32-bit old id names the slot, is
-- positive as an envid_t, and is not the old id.
pub next_id-fresh :
    (old e : ℕ)
    → old < word
    → e < 1024
    → (envx (next_id old e) ≡ e)
      × (0 < next_id old e)
      × (next_id old e < 2 ^ 31)
      × (next_id old e ≢ old)
unfolding next_id
next_id-fresh old e h lt =
    ground (arith, bit_or-high 10 (add32 old 4096 / 1024) e lt, bit_or-high 10 4 e lt)

-- What a caller may do to the environment `e` with the id `envid`.
pub record Names (k : Kernel) (c envid : ℕ) (checkperm : Bool) (e : ℕ) : Type 0 where
  pub slot : e ≡ envx envid
  pub alive : is_status (k.envs e).env_status env_free ≡ false
  pub current_id : (k.envs e).env_id ≡ envid
  pub permitted : (checkperm ≡ false) ⊎ ((e ≡ c) ⊎ ((k.envs e).env_parent_id ≡ (k.envs c).env_id))

module _ {k : Kernel} {c : ℕ} (cur : k.curenv ≡ some c) (envid : ℕ) (checkperm : Bool) where
  -- Where envid2env stores an environment for an id other than 0, the id is that of a live
  -- environment in its own slot, and with `checkperm` this is the caller or a child of the caller.
  pub envid2env_sound :
      (e : ℕ)
      → envid ≢ 0
      → envid2env envid checkperm k ≡ ok (found (some e)) k
      → Names k c envid checkperm e
  unfolding envid2env
  envid2env_sound e nz h = ground arith

  -- Where a live environment has the id `envid`, not 0, in its own slot, and with `checkperm` is
  -- the caller or a child of the caller, envid2env stores it and returns 0.
  pub envid2env_complete :
      (e : ℕ)
      → envid ≢ 0
      → Names k c envid checkperm e
      → envid2env envid checkperm k ≡ ok (found (some e)) k
  unfolding envid2env
  envid2env_complete e nz n = ground (arith, n.slot, n.alive, n.current_id, n.permitted)

  -- For an id other than 0, envid2env stores the environment `e` and returns 0 just where `e` is the
  -- live environment with that id in the slot of the id, and with `checkperm` it is the caller or a
  -- child of the caller. The caller is a running environment.
  pub envid2env_iff :
      (e : ℕ)
      → envid ≢ 0
      → (envid2env envid checkperm k ≡ ok (found (some e)) k) ↔ Names k c envid checkperm e
  envid2env_iff e nz = (envid2env_sound e nz, envid2env_complete e nz)
