-- ===== src/Boot/Segment.antt =====
-- What readseg loads.
use jos.Base.{
  ℕ, zero, suc, ◌+◌, ◌-◌, ◌*◌, ◌/◌, ◌%◌, ◌≤◌, ◌<◌, ◌≡◌, refl, ◌∙◌, inl, inr, some, Bool-cases, ltb,
  ltb→lt, word, add32, arith,
}
use jos.Boot.{selected, readsect, read_sectors, readseg}

module _ (drive : ℕ → ℕ → ℕ) where
  readsect-before :
      (dst offset : ℕ) (mem : ℕ → ℕ) (a : ℕ) → a < dst → readsect drive dst offset mem a ≡ mem a
  unfolding readsect
  readsect-before dst offset mem a h = ground arith

  readsect-behind :
      (dst offset : ℕ) (mem : ℕ → ℕ) (a : ℕ)
      → dst + 512 ≤ a
      → readsect drive dst offset mem a ≡ mem a
  unfolding readsect
  readsect-behind dst offset mem a h = ground arith

  readsect-inside :
      (dst offset : ℕ) (mem : ℕ → ℕ) (a : ℕ)
      → dst ≤ a
      → a < dst + 512
      → readsect drive dst offset mem a ≡ drive (selected offset) (a - dst)
  unfolding readsect
  readsect-inside dst offset mem a h k = ground arith

  -- Memory after the sectors from `offset` on were read to `pa` and further, up to `end_pa`.
  record Loaded (pa end_pa offset : ℕ) (mem mem' : ℕ → ℕ) : Type 0 where
    pub inside :
        (a : ℕ)
        → pa ≤ a
        → a < end_pa
        → mem' a ≡ drive (selected (offset + (a - pa) / 512)) ((a - pa) % 512)
    pub before : (a : ℕ) → a < pa → mem' a ≡ mem a
    pub behind : (a : ℕ) → pa ≤ a → end_pa + 511 ≤ a → mem' a ≡ mem a

  read_sectors-Loaded :
      (fuel pa end_pa offset : ℕ) (mem : ℕ → ℕ)
      → end_pa + 512 ≤ word
      → pa ≤ end_pa + 511
      → offset + fuel ≤ word
      → end_pa + 512 ≤ pa + fuel * 512
      → (mem' : ℕ → ℕ) × (read_sectors drive fuel pa end_pa offset mem ≡ some mem')
        × Loaded pa end_pa offset mem mem'
  unfolding read_sectors
  read_sectors-Loaded zero pa end_pa offset mem h l k e = absurd (omega arith)
  read_sectors-Loaded (suc fuel) pa end_pa offset mem h l k e = elim (Bool-cases (ltb pa end_pa)) [
    | inl more ↦
        let below : pa < end_pa = ltb→lt pa end_pa more in
        let pa' : add32 pa 512 ≡ pa + 512 = omega arith in
        let offset' : add32 offset 1 ≡ offset + 1 = omega arith in
        let next = readsect drive pa offset mem in
        let step : read_sectors drive (suc fuel) pa end_pa offset mem
            ≡ read_sectors drive fuel (pa + 512) end_pa (offset + 1) next =
          rw (read_sectors, more, pa', offset') refl in
        let (mem', runs, rest) =
          read_sectors-Loaded fuel (pa + 512) end_pa (offset + 1) next h (omega arith) (omega arith)
            (omega arith) in
        (
          mem',
          step ∙ runs,
          record {
            inside = λ a p q. elim (Bool-cases (ltb a (pa + 512))) [
              | inl first ↦
                  let near : a < pa + 512 = ltb→lt a (pa + 512) first in
                  let here : offset + (a - pa) / 512 ≡ offset = omega arith in
                  let place : (a - pa) % 512 ≡ a - pa = omega arith in
                  rw (here, place) (rest.before a near ∙ readsect-inside pa offset mem a p near)
              | inr later ↦
                  let far : pa + 512 ≤ a = ground arith in
                  let there : offset + (a - pa) / 512 ≡ offset + 1 + (a - (pa + 512)) / 512 =
                    omega arith in
                  let place : (a - pa) % 512 ≡ (a - (pa + 512)) % 512 = omega arith in
                  rw (there, place) (rest.inside a far q)
            ];
            before = λ a p. rest.before a (omega arith) ∙ readsect-before pa offset mem a p;
            behind = λ a p q.
                rest.behind a (omega arith) q ∙ readsect-behind pa offset mem a (omega arith);
          },
        )
    | inr done ↦ (
      mem,
      rw (read_sectors, done) refl,
      record {
        inside = λ a p q. absurd (ground arith);
        before = λ a p. refl;
        behind = λ a p q. refl;
      },
    )
  ]

-- For a segment that ends at least 512 bytes below 4 GB in memory and 2048 bytes below it in the
-- kernel image, and begins at the same place in a sector in both: readseg ends, each byte of the
-- segment is the one of the image, which begins at sector 1 of the drive, and memory below the
-- segment's first sector and from 511 bytes behind its end on is unchanged.
pub readseg-loads :
    (drive : ℕ → ℕ → ℕ) (pa count offset : ℕ) (mem : ℕ → ℕ)
    → pa + count + 512 ≤ word
    → offset + count + 2048 ≤ word
    → pa % 512 ≡ offset % 512
    → (mem' : ℕ → ℕ) × (readseg drive pa count offset mem ≡ some mem')
      × ((j : ℕ)
          → j < count
          → mem' (pa + j) ≡ drive (selected ((offset + j) / 512 + 1)) ((offset + j) % 512))
      × ((a : ℕ) → a < pa - pa % 512 → mem' a ≡ mem a)
      × ((a : ℕ) → pa + count + 511 ≤ a → mem' a ≡ mem a)
unfolding readseg
readseg-loads drive pa count offset mem h k e =
    let end_pa : add32 pa count ≡ pa + count = omega arith in
    let start : readseg drive pa count offset mem
        ≡ read_sectors drive (count / 512 + 3) (pa - pa % 512) (pa + count) (offset / 512 + 1) mem =
      rw (readseg, end_pa) refl in
    let (mem', runs, loaded) =
      read_sectors-Loaded drive (count / 512 + 3) (pa - pa % 512) (pa + count) (offset / 512 + 1)
        mem h (omega arith) (omega arith) (omega arith) in
    (
      mem',
      start ∙ runs,
      λ j l.
          let sector : offset / 512 + 1 + (pa + j - (pa - pa % 512)) / 512
              ≡ (offset + j) / 512 + 1 =
            omega (arith, e) in
          let place : (pa + j - (pa - pa % 512)) % 512 ≡ (offset + j) % 512 = omega (arith, e) in
          loaded.inside (pa + j) (omega arith) (omega arith) ∙ rw (sector, place) refl,
      loaded.before,
      λ a l. loaded.behind a (omega arith) l,
    )
