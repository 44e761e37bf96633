-- ===== src/Kdebug.antt =====
-- kern/kdebug.c: stab_binsearch, the search of the table of debugging symbols.
--
-- `region_right` and `r` may be -1, and region_left too when the search returns: each is written as
-- the index after it (`right_end`, `end`, `left_end`).
pub mod Ends
pub mod Region
pub mod Found
pub mod Info
use jos.Base.{
  ℕ, zero, suc, ◌+◌, ◌-◌, ◌*◌, ◌/◌, ◌%◌, Bool, true, false, Option, none, some, ltb, ◌==◌,
  if◌then◌else◌, word,
}

-- `struct Stab` of inc/stab.h
pub record Stab : Type 0 where
  pub n_strx : ℕ
  pub n_type : ℕ
  pub n_other : ℕ
  pub n_desc : ℕ
  pub n_value : ℕ

-- The variables of the search: `l`, `r`, `*region_left`, `*region_right`, `any_matches`, `addr`.
pub record Search : Type 0 where
  pub l : ℕ
  pub end : ℕ
  pub left : ℕ
  pub right_end : ℕ
  pub any_matches : Bool
  pub addr : ℕ

-- `(l + r) / 2`
abbrev pub middle : Search → ℕ
middle s = (s.l + (s.end - 1)) / 2

module _ (stabs : ℕ → Stab) (type : ℕ) where
  abbrev pub is_type : ℕ → Bool
  is_type i = (stabs i).n_type == type

  -- `while (m >= l && stabs[m].n_type != type) m--`, for the `n` indices from `l` on; `none` is
  -- `m < l`.
  unfoldable pub find_back : ℕ → ℕ → Option ℕ
  find_back zero l = none
  find_back (suc n) l = let rest = find_back n l in if is_type (l + n) then some (l + n) else rest

  -- The three-way comparison with the stab at `m`.
  unfoldable pub compare_stab : ℕ → ℕ → Search → Search
  compare_stab m true_m s =
      if ltb (stabs m).n_value s.addr
      then record s { any_matches = true; left = m; l = true_m + 1 }
      else if ltb s.addr (stabs m).n_value
      then record s { any_matches = true; right_end = m; end = m }
      else record s { any_matches = true; left = m; l = m; addr = (s.addr + 1) % word }

  -- One round of `while (l <= r)`, with what the search for the type found.
  unfoldable pub round_with : ℕ → Option ℕ → Search → Search
  round_with true_m none s = record s { l = true_m + 1 }
  round_with true_m (some m) s = compare_stab m true_m s

  unfoldable pub search_round : Search → Search
  search_round s = round_with (middle s) (find_back (middle s + 1 - s.l) s.l) s

  -- `none` is fuel that ran out.
  unfoldable pub search_loop : ℕ → Search → Option Search
  search_loop zero s = none
  search_loop (suc fuel) s = elim (ltb s.l s.end) [
    | true ↦ search_loop fuel (search_round s)
    | false ↦ some s
  ]

  -- `for (l = *region_right; l > *region_left && stabs[l].n_type != type; l--)` from `left + n`.
  unfoldable pub scan_down : ℕ → ℕ → ℕ
  scan_down zero left = left
  scan_down (suc n) left =
      let rest = scan_down n left in if is_type (left + suc n) then left + suc n else rest

  -- `*region_left` and `*region_right` at the end, each plus one.
  unfoldable pub search_result : Search → ℕ × ℕ
  search_result s =
      if s.any_matches
      then (
        (if ltb s.left s.right_end
            then scan_down (s.right_end - 1 - s.left) s.left + 1
            else s.right_end),
        s.right_end,
      )
      else (s.left + 1, s.left)

  abbrev pub search_start : ℕ → ℕ → ℕ → Search
  search_start left right_end addr = record {
    l = left;
    end = right_end;
    left = left;
    right_end = right_end;
    any_matches = false;
    addr = addr;
  }

  -- Twice the length of the region is enough fuel.
  unfoldable pub stab_binsearch : ℕ → ℕ → ℕ → Option (ℕ × ℕ)
  stab_binsearch left right_end addr =
      elim (search_loop (2 * (right_end - left) + 2) (search_start left right_end addr)) [
        | none ↦ none
        | some s ↦ some (search_result s)
      ]
