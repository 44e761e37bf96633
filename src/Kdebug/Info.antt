-- ===== src/Kdebug/Info.antt =====
-- debuginfo_eip of kern/kdebug.c. `read` is the memory that the running CPU sees, as bytes by virtual
-- address; the linker's symbols for the kernel's own tables are a parameter.
--
-- A name is an offset into the string table, `none` for "<unknown>". A line or a file that would be
-- at index -1 is written as the index after it.
pub mod Line
use jos.Base.{
  ℕ, zero, suc, ◌+◌, ◌-◌, ◌*◌, ◌/◌, Bool, true, false, Option, none, some, List, ◌∷◌, [], ◌++◌, not,
  ◌&&◌, ◌||◌, ltb, leb, ◌==◌, if◌then◌else◌, bytes, sub32, read16, read32, codes,
}
use jos.Mmu.{pte_u, ulim}
use jos.Str.{strfind}
use jos.Phys.{Phys, Action, pure, ◌>>=◌}
use jos.PageTable.UserMem.{user_mem_check}
use jos.Kdebug.{Stab, stab_binsearch}

-- `struct Eipdebuginfo`
pub record Eipdebuginfo : Type 0 where
  pub eip_file : Option ℕ
  pub eip_line : ℕ
  pub eip_fn_name : Option ℕ
  pub eip_fn_namelen : ℕ
  pub eip_fn_addr : ℕ
  pub eip_fn_narg : ℕ

-- `struct UserStabData`
pub record Tables : Type 0 where
  pub stabs : ℕ
  pub stab_end : ℕ
  pub stabstr : ℕ
  pub stabstr_end : ℕ

abbrev pub n_fun : ℕ
n_fun = 0x24

abbrev pub n_so : ℕ
n_so = 0x64

abbrev pub n_sol : ℕ
n_sol = 0x84

abbrev pub n_psym : ℕ
n_psym = 0xa0

abbrev pub ustabdata : ℕ
ustabdata = 0x20_0000

-- What debuginfo_eip returns: 0 or -1, with the information so far; `wild` is a read before the
-- table, `lost` a string without an end.
pub data Debug : Type 0 where
  known : Eipdebuginfo → Debug
  unknown : Eipdebuginfo → Debug
  wild : Debug
  lost : Debug

abbrev pub initial : ℕ → Eipdebuginfo
initial addr = record {
  eip_file = none;
  eip_line = 0;
  eip_fn_name = none;
  eip_fn_namelen = 9;
  eip_fn_addr = addr;
  eip_fn_narg = 0;
}

module _ (read : ℕ → ℕ) where
  -- `stabs[i]`
  abbrev pub stab_at : ℕ → ℕ → Stab
  stab_at stabs i = record {
    n_strx = read32 read (stabs + 12 * i);
    n_type = read (stabs + 12 * i + 4);
    n_other = read (stabs + 12 * i + 5);
    n_desc = read16 read (stabs + 12 * i + 6);
    n_value = read32 read (stabs + 12 * i + 8);
  }

  -- `stab_end - stabs`, a number of entries, as a 32-bit pattern.
  abbrev pub entries : Tables → ℕ
  entries t =
      if leb t.stabs t.stab_end
      then (t.stab_end - t.stabs) / 12
      else sub32 0 ((t.stabs - t.stab_end) / 12)

  abbrev pub user_tables : Tables
  user_tables = record {
    stabs = read32 read ustabdata;
    stab_end = read32 read (ustabdata + 4);
    stabstr = read32 read (ustabdata + 8);
    stabstr_end = read32 read (ustabdata + 12);
  }

  abbrev pub is_ok : Option ℕ → Bool
  is_ok none = true
  is_ok (some va) = false

  -- The checks of the two tables that the user program names.
  unfoldable pub check_tables : ℕ → Action (Option Tables)
  check_tables pgdir = do
    r2 ← user_mem_check pgdir user_tables.stabs (entries user_tables) pte_u
    r3 ←
        (if not (is_ok r2)
          then pure r2
          else user_mem_check pgdir user_tables.stabstr
              (sub32 user_tables.stabstr_end user_tables.stabstr) pte_u)
    pure (if is_ok r3 then some user_tables else none)

  -- The tables of the user program whose directory is `pgdir`, if the checks of its memory succeed.
  unfoldable pub find_user_tables : ℕ → Action (Option Tables)
  unfolding check_tables
  find_user_tables pgdir = do
    r1 ← user_mem_check pgdir ustabdata 16 pte_u
    (if not (is_ok r1) then pure none else check_tables pgdir)

  -- A name of the string table from its offset, to the end of the table, with what strfind sees.
  abbrev pub name_text : Tables → Option ℕ → List ℕ
  name_text t none = codes "<unknown>" ++ 0 ∷ []
  name_text t (some strx) = bytes read (t.stabstr + strx) (t.stabstr_end - t.stabstr - strx)

  abbrev pub name_at : Tables → ℕ → Option ℕ → Option ℕ
  name_at t i old =
      let strx = (stab_at t.stabs i).n_strx in
      if ltb strx (t.stabstr_end - t.stabstr) then some strx else old

  -- `while (lline >= lfile && …) lline--` over the `n` entries from `lfile` on; `none` is
  -- `lline < lfile`.
  unfoldable pub find_file : Tables → ℕ → ℕ → Option ℕ
  find_file t zero lfile = none
  find_file t (suc n) lfile =
      let rest = find_file t n lfile in
      let s = stab_at t.stabs (lfile + n) in
      if s.n_type == n_sol || s.n_type == n_so && not (s.n_value == 0)
      then some (lfile + n)
      else rest

  -- The parameters from `lline` on, of `n` entries.
  unfoldable pub count_args : Tables → ℕ → ℕ → ℕ
  count_args t zero lline = 0
  count_args t (suc n) lline =
      let rest = count_args t n (lline + 1) in
      if (stab_at t.stabs lline).n_type == n_psym then 1 + rest else 0

  -- From the search for the file of the line on. The regions are an index and the index after the
  -- last: of the file, of the function, and where the line is looked for.
  unfoldable pub fill_rest : Tables → ℕ → ℕ → ℕ → ℕ → Eipdebuginfo → Debug
  unfolding find_file count_args
  fill_rest t lfile lfun rfun_end lline info = elim (strfind (name_text t info.eip_fn_name) b':') [
    | none ↦ lost
    | some n ↦
        let file : Option ℕ = elim (find_file t (lline + 1 - lfile) lfile) [
          | none ↦ info.eip_file
          | some i ↦ name_at t i info.eip_file
        ] in
        known (record info {
          eip_fn_namelen = n;
          eip_file = file;
          eip_fn_narg = count_args t (rfun_end - 1 - (lfun + 1)) (lfun + 1);
        })
  ]

  abbrev pub with_function : Tables → ℕ → Eipdebuginfo → Eipdebuginfo
  with_function t lfun info = record info {
    eip_fn_name = name_at t lfun info.eip_fn_name;
    eip_fn_addr = (stab_at t.stabs lfun).n_value;
  }

  -- With the region of the file, `lfile` above 0.
  unfoldable pub fill_function : Tables → ℕ → ℕ → ℕ → Eipdebuginfo → Option Debug
  unfolding fill_rest
  fill_function t addr lfile rfile_end info =
      elim (stab_binsearch (stab_at t.stabs) n_fun lfile rfile_end addr) [
        | none ↦ none
        | some (lfun_end, rfun_end) ↦
            let lfun = lfun_end - 1 in
            some (
              if leb lfun_end rfun_end
              then fill_rest t lfile lfun rfun_end lfun (with_function t lfun info)
              else fill_rest t lfile lfun rfun_end lfile (record info { eip_fn_addr = addr }))
      ]

  unfoldable pub search_tables : Tables → ℕ → Option Debug
  unfolding fill_function
  search_tables t addr =
      if leb t.stabstr_end t.stabstr || not (read (t.stabstr_end - 1) == 0)
      then some (unknown (initial addr))
      else elim (stab_binsearch (stab_at t.stabs) n_so 0 ((t.stab_end - t.stabs) / 12) addr) [
        | none ↦ none
        | some (lfile_end, rfile_end) ↦
            if lfile_end == 1
            then some (unknown (initial addr))
            else if lfile_end == 0
            then some wild
            else fill_function t addr (lfile_end - 1) rfile_end (initial addr)
      ]

  -- `none` is a panic of user_mem_check; a search always ends.
  unfoldable pub debuginfo_eip : Tables → ℕ → ℕ → Action (Option Debug)
  unfolding search_tables find_user_tables
  debuginfo_eip kernel_tables pgdir addr = do
    found ← (if leb ulim addr then pure (some kernel_tables) else find_user_tables pgdir)
    elim found [
      | none ↦ pure (some (unknown (initial addr)))
      | some t ↦ pure (search_tables t addr)
    ]
