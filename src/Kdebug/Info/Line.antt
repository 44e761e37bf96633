-- ===== src/Kdebug/Info/Line.antt =====
-- debuginfo_eip on its tables: it ends, and finds no line.
use jos.Base.{
  ℕ, ◌-◌, ◌/◌, ◌≡◌, refl, inl, inr, Option, some, Option-cases, Bool-cases, leb, ◌==◌, not, ◌||◌,
  ◌<◌, word,
}
use jos.Str.{strfind}
use jos.Kdebug.Ends.{stab_binsearch-ends}
use jos.Kdebug.Info.{
  Eipdebuginfo, Tables, Debug, known, unknown, wild, lost, initial, n_fun, n_so, stab_at, name_text,
  fill_rest, with_function, fill_function, search_tables,
}

-- The information has no line.
abbrev pub Lineless : Debug → Type 0
Lineless (known info) = info.eip_line ≡ 0
Lineless (unknown info) = info.eip_line ≡ 0
Lineless wild = Unit
Lineless lost = Unit

module _ (read : ℕ → ℕ) (t : Tables) where
  fill_rest-Lineless :
      (lfile lfun rfun_end lline : ℕ) (info : Eipdebuginfo)
      → info.eip_line ≡ 0
      → Lineless (fill_rest read t lfile lfun rfun_end lline info)
  unfolding fill_rest
  fill_rest-Lineless lfile lfun rfun_end lline info h =
      elim (Option-cases (strfind (name_text read t info.eip_fn_name) b':')) [
        | inl e ↦ rw (fill_rest, e) tt
        | inr (n, e) ↦ rw (fill_rest, e) h
      ]

  -- A search that ends, without a line.
  EndsLineless : Option Debug → Type 0
  EndsLineless o = (d : Debug) × (o ≡ some d) × Lineless d

  fill_function-EndsLineless :
      (addr lfile rfile_end : ℕ) (info : Eipdebuginfo)
      → addr < word
      → info.eip_line ≡ 0
      → EndsLineless (fill_function read t addr lfile rfile_end info)
  unfolding EndsLineless fill_function
  fill_function-EndsLineless addr lfile rfile_end info w h =
      let ((lfun_end, rfun_end), e) =
        stab_binsearch-ends (stab_at read t.stabs) n_fun lfile rfile_end addr w in
      elim (Bool-cases (leb lfun_end rfun_end)) [
        | inl in_region ↦
            rw (fill_function, e, in_region)
              (
                _,
                refl,
                fill_rest-Lineless lfile (lfun_end - 1) rfun_end (lfun_end - 1)
                    (with_function read t (lfun_end - 1) info) h,
              )
        | inr missing ↦
            rw (fill_function, e, missing)
              (
                _,
                refl,
                fill_rest-Lineless lfile (lfun_end - 1) rfun_end lfile
                    (record info { eip_fn_addr = addr }) h,
              )
      ]

  search_tables-EndsLineless : (addr : ℕ) → addr < word → EndsLineless (search_tables read t addr)
  unfolding EndsLineless search_tables
  search_tables-EndsLineless addr w =
      elim (Bool-cases (leb t.stabstr_end t.stabstr || not (read (t.stabstr_end - 1) == 0))) [
        | inl bad ↦ rw (search_tables, bad) (_, refl, refl)
        | inr good ↦
            let ((lfile_end, rfile_end), e) =
              stab_binsearch-ends (stab_at read t.stabs) n_so 0 ((t.stab_end - t.stabs) / 12) addr
                w in
            rw (search_tables, good, e)
              (elim (Bool-cases (lfile_end == 1)) [
                | inl first ↦ rw first (_, refl, refl)
                | inr other ↦ rw other (elim (Bool-cases (lfile_end == 0)) [
                  | inl before ↦ rw before (wild, refl, tt)
                  | inr found ↦ rw found (
                      fill_function-EndsLineless addr (lfile_end - 1) rfile_end (initial addr) w
                        refl)
                ])
              ])
      ]

-- On every memory and every table of symbols, for every 32-bit address: the searches of debuginfo_eip
-- end, and the information that it gives, whether it succeeds or not, has the line number 0.
pub search_tables-line :
    (read : ℕ → ℕ) (t : Tables) (addr : ℕ)
    → addr < word
    → (d : Debug) × (search_tables read t addr ≡ some d) × Lineless d
unfolding EndsLineless
search_tables-line read t addr w = search_tables-EndsLineless read t addr w
