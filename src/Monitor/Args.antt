-- ===== src/Monitor/Args.antt =====
-- The arguments that runcmd finds in a line.
use jos.Base.{
  ℕ, zero, suc, ◌+◌, ◌≤◌, ◌<◌, ◌≡◌, refl, sym, ◌∙◌, inl, inr, Bool, true, false, some, List, [],
  ◌∷◌, ◌++◌, ◌==◌, length, length-append, append_assoc, append_nil, Bool-cases, ==→eq, ltb, ltb→lt,
  arith,
}
use mathlib.Core.Path.{subst}
use mathlib.Core.Bool.{false≢true}
use jos.Monitor.{is_blank, is_white, in_word, Parsed, parse_args}
use jos.Monitor.Scan.{Gobbled, gobble-Gobbled, Skipped, skip_word-Skipped}

-- The words of the line `buf` from `pos` on, up to its end or, if there are more of them, to the
-- next word: where each begins, with `buf'` the line in which each is ended by a 0.
pub data Words (buf buf' : ℕ → ℕ) : ℕ → List ℕ → Bool → Type 0 where
  no_more :
      (pos e : ℕ) (more : Bool)
      → pos ≤ e
      → ((k : ℕ) → pos ≤ k → k < e → is_blank (buf k) ≡ true)
      → in_word (buf e) ≡ more
      → is_blank (buf e) ≡ false
      → Words buf buf' pos [] more
  word :
      (pos a b : ℕ) (args : List ℕ) (more : Bool)
      → pos ≤ a
      → ((k : ℕ) → pos ≤ k → k < a → is_blank (buf k) ≡ true)
      → a < b
      → ((k : ℕ) → a ≤ k → k < b → (in_word (buf k) ≡ true) × (buf' k ≡ buf k))
      → in_word (buf b) ≡ false
      → buf' b ≡ 0
      → Words buf buf' b args more
      → Words buf buf' pos (a ∷ args) more

record Parses (buf : ℕ → ℕ) (pos : ℕ) (cur : ℕ → ℕ) (argv : List ℕ) (p : Parsed) (new : List ℕ)
    : Type 0 where
  pub appended : p.argv ≡ argv ++ new
  pub words : Words buf p.line pos new p.too_many
  pub before : (k : ℕ) → k < pos → p.line k ≡ cur k
  pub ended : in_word (buf pos) ≡ false → p.line pos ≡ 0
  pub few : length p.argv ≤ 15
  pub full : p.too_many ≡ true → length p.argv ≡ 15

is_word : (c : ℕ) → (c == 0) ≡ false → is_blank c ≡ false → in_word c ≡ true
is_word c z b = elim (Bool-cases (is_white c)) [
  | inl white ↦ absurd (false≢true (sym b ∙ rw (z, white) refl))
  | inr other ↦ rw (z, other) refl
]

zero_at_end : (c : ℕ) → in_word c ≡ false → is_blank c ≡ false → c ≡ 0
zero_at_end c w b = elim (Bool-cases (c == 0)) [
  | inl zeroth ↦ ==→eq c 0 zeroth
  | inr other ↦ absurd (false≢true (sym w ∙ is_word c other b))
]

-- After the blanks from `pos` to `a`.
module _ (pos last : ℕ) (buf cur : ℕ → ℕ) (a : ℕ) (buf' : ℕ → ℕ)
    (same : (k : ℕ) → pos ≤ k → cur k ≡ buf k) (g : Gobbled pos last cur a buf') where
  later_same : (k : ℕ) → a ≤ k → buf' k ≡ buf k
  later_same k h = g.behind k h ∙ same k (omega (arith, g.from))

  blanks_before : (k : ℕ) → pos ≤ k → k < a → is_blank (buf k) ≡ true
  blanks_before k h l = subst (λ (c : ℕ). is_blank c ≡ true) (same k h) (g.blanks k h l)

  stops_here : is_blank (buf a) ≡ false
  stops_here = subst (λ (c : ℕ). is_blank c ≡ false) (same a g.from) g.stops

  -- The byte at `pos` is a 0 now, if it does not begin a word.
  zero_at : in_word (buf pos) ≡ false → buf' pos ≡ 0
  zero_at w = elim (Bool-cases (ltb pos a)) [
    | inl lt ↦ g.zeros pos (omega arith) (ltb→lt pos a lt)
    | inr ge ↦
        let here : a ≡ pos = ground (arith, g.from) in
        let still : buf' pos ≡ buf pos = later_same pos (omega (arith, here)) in
        still ∙ zero_at_end (buf pos) w (subst (λ i. is_blank (buf i) ≡ false) here stops_here)
  ]

  at_stop :
      (argv : List ℕ) (more : Bool)
      → in_word (buf a) ≡ more
      → length argv ≤ 15
      → (more ≡ true → length argv ≡ 15)
      → Parses buf pos cur argv (record { argv = argv; line = buf'; too_many = more }) []
  at_stop argv more w few full = record {
    appended = sym (append_nil argv);
    words = Words.no_more pos a more g.from blanks_before w stops_here;
    before = g.before;
    ended = zero_at;
    few = few;
    full = full;
  }

  stop_behind : (b : ℕ) → Skipped a last buf' b → in_word (buf b) ≡ false
  stop_behind b s = subst (λ (c : ℕ). in_word c ≡ false) (later_same b s.from) s.stops

  not_empty : (b : ℕ) → in_word (buf a) ≡ true → Skipped a last buf' b → a < b
  not_empty b w s = elim (Bool-cases (a == b)) [
    | inl equal ↦ absurd (
        false≢true
          (sym (stop_behind b s) ∙ subst (λ i. in_word (buf i) ≡ true) (==→eq a b equal) w))
    | inr other ↦ ground (arith, s.from)
  ]

  one_word :
      (argv : List ℕ) (b : ℕ) (p : Parsed) (new : List ℕ)
      → in_word (buf a) ≡ true
      → Skipped a last buf' b
      → Parses buf b buf' (argv ++ a ∷ []) p new
      → Parses buf pos cur argv p (a ∷ new)
  one_word argv b p new w s r =
      let lt : a < b = not_empty b w s in
      record {
        appended = r.appended ∙ append_assoc argv (a ∷ []) new;
        words =
            Words.word pos a b new p.too_many g.from blanks_before lt
              (λ k h l. (
                subst (λ (c : ℕ). in_word c ≡ true) (later_same k h) (s.word k h l),
                r.before k l ∙ later_same k h,
              ))
              (stop_behind b s) (r.ended (stop_behind b s)) r.words;
        before = λ k l. r.before k (omega (arith, g.from)) ∙ g.before k l;
        ended = λ e. r.before pos (omega (arith, g.from)) ∙ zero_at e;
        few = r.few;
        full = r.full;
      }

parse_args-Parses :
    (n fuel pos last : ℕ) (buf cur : ℕ → ℕ) (argv : List ℕ)
    → buf last ≡ 0
    → pos ≤ last
    → last < n
    → last < pos + fuel
    → ((k : ℕ) → pos ≤ k → cur k ≡ buf k)
    → length argv ≤ 15
    → (p : Parsed) × (new : List ℕ) × (parse_args n fuel pos cur argv ≡ some p)
      × Parses buf pos cur argv p new
unfolding parse_args
parse_args-Parses n zero pos last buf cur argv z h m k same few = absurd (omega arith)
parse_args-Parses n (suc fuel) pos last buf cur argv z h m k same few =
    let (a, buf', gobbled, g) = gobble-Gobbled n pos last cur (same last h ∙ z) h (omega arith) in
    elim (Bool-cases (buf' a == 0)) [
      | inl end ↦
          let at_end : buf a ≡ 0 =
            sym (later_same pos last buf cur a buf' same g a (omega arith))
            ∙ ==→eq (buf' a) 0 end in
          (
            record { argv = argv; line = buf'; too_many = false },
            [],
            rw (parse_args, gobbled, end) refl,
            at_stop pos last buf cur a buf' same g argv false (rw at_end refl) few
                (λ e. absurd (false≢true e)),
          )
      | inr char ↦
          let begins : in_word (buf a) ≡ true =
            is_word (buf a)
              (subst (λ (c : ℕ). (c == 0) ≡ false)
                (later_same pos last buf cur a buf' same g a (omega arith)) char)
              (stops_here pos last buf cur a buf' same g) in
          elim (Bool-cases (length argv == 15)) [
            | inl full ↦ (
              record { argv = argv; line = buf'; too_many = true },
              [],
              rw (parse_args, gobbled, char, full) refl,
              at_stop pos last buf cur a buf' same g argv true begins few
                  (λ e. ==→eq (length argv) 15 full),
            )
            | inr room ↦
                let ended : buf' last ≡ 0 =
                  later_same pos last buf cur a buf' same g last g.within ∙ z in
                let (b, skipped, s) =
                  skip_word-Skipped n a last buf' ended g.within (omega (arith, g.from)) in
                let lt : a < b = not_empty pos last buf cur a buf' same g b begins s in
                let (p, new, runs, r) =
                  parse_args-Parses n fuel b last buf buf' (argv ++ a ∷ []) z s.within m
                    (omega (arith, g.from))
                    (λ i l. later_same pos last buf cur a buf' same g i (omega arith))
                    (ground (arith, length-append argv (a ∷ []))) in
                (
                  p,
                  a ∷ new,
                  rw (parse_args, gobbled, char, room, skipped) runs,
                  one_word pos last buf cur a buf' same g argv b p new begins s r,
                )
          ]
    ]

-- A line of fewer than `n` bytes, its 0 included, with `n` rounds for each loop: the parser of runcmd
-- ends; `argv` has the beginnings of the words of the line in their order, at most 15 of them, each
-- ended by a 0 in the line that it leaves; it has all of them, or, where it reports too many, just
-- 15 with another word behind them.
pub parse_args-Words :
    (n last : ℕ) (buf : ℕ → ℕ)
    → buf last ≡ 0
    → last < n
    → (p : Parsed) × (parse_args n n 0 buf [] ≡ some p)
      × Words buf p.line 0 p.argv p.too_many
      × (length p.argv ≤ 15)
      × (p.too_many ≡ true → length p.argv ≡ 15)
parse_args-Words n last buf z h =
    let (p, new, runs, r) =
      parse_args-Parses n n 0 last buf buf [] z (omega arith) h (omega arith) (λ k l. refl)
        (omega arith) in
    (
      p,
      runs,
      subst (λ args. Words buf p.line 0 args p.too_many) (sym r.appended) r.words,
      r.few,
      r.full,
    )
