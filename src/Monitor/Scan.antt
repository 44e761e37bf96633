-- ===== src/Monitor/Scan.antt =====
-- The two inner loops of the parser of runcmd.
use jos.Base.{
  ℕ, zero, suc, ◌+◌, ◌≤◌, ◌<◌, ◌≡◌, refl, ap, sym, ◌∙◌, inl, inr, Bool, true, false, some, ◌==◌,
  update, Bool-cases, ne→==, ==→eq, ==_self, arith,
}
use mathlib.Core.Path.{subst}
use mathlib.Core.Bool.{false≢true}
use jos.Monitor.{is_blank, in_word, gobble, skip_word}

-- A byte that a loop goes over is not the 0 at the end.
before_end :
    (test : ℕ → Bool) (buf : ℕ → ℕ) (pos n : ℕ)
    → test 0 ≡ false
    → buf n ≡ 0
    → pos ≤ n
    → test (buf pos) ≡ true
    → pos < n
before_end test buf pos n stop z h t = elim (Bool-cases (pos == n)) [
  | inl same ↦
      absurd
        (false≢true (sym stop ∙ subst (λ (c : ℕ). test c ≡ true) (ap buf (==→eq pos n same) ∙ z) t))
  | inr other ↦ ground arith
]

elsewhere : (buf : ℕ → ℕ) (pos k : ℕ) → pos < k → update buf pos 0 k ≡ buf k
elsewhere buf pos k h = rw (ne→== k pos (λ e. absurd (omega (arith, e)))) refl

pub record Gobbled (pos n : ℕ) (buf : ℕ → ℕ) (e : ℕ) (buf' : ℕ → ℕ) : Type 0 where
  pub from : pos ≤ e
  pub within : e ≤ n
  pub blanks : (k : ℕ) → pos ≤ k → k < e → is_blank (buf k) ≡ true
  pub stops : is_blank (buf e) ≡ false
  pub before : (k : ℕ) → k < pos → buf' k ≡ buf k
  pub behind : (k : ℕ) → e ≤ k → buf' k ≡ buf k
  pub zeros : (k : ℕ) → pos ≤ k → k < e → buf' k ≡ 0

pub gobble-Gobbled :
    (fuel pos n : ℕ) (buf : ℕ → ℕ)
    → buf n ≡ 0
    → pos ≤ n
    → n < pos + fuel
    → (e : ℕ) × (buf' : ℕ → ℕ) × (gobble fuel pos buf ≡ some (e, buf')) × Gobbled pos n buf e buf'
unfolding gobble
gobble-Gobbled zero pos n buf z h k = absurd (omega arith)
gobble-Gobbled (suc fuel) pos n buf z h k = elim (Bool-cases (is_blank (buf pos))) [
  | inr stop ↦ (
    pos,
    buf,
    rw (gobble, stop) refl,
    record {
      from = omega arith;
      within = h;
      blanks = λ j p q. absurd (omega arith);
      stops = stop;
      before = λ j p. refl;
      behind = λ j p. refl;
      zeros = λ j p q. absurd (omega arith);
    },
  )
  | inl blank ↦
      let inside : pos < n = before_end is_blank buf pos n refl z h blank in
      let zeroed : ℕ → ℕ = update buf pos 0 in
      let (e, buf', runs, g) =
        gobble-Gobbled fuel (pos + 1) n zeroed (elsewhere buf pos n inside ∙ z) (omega arith)
          (omega arith) in
      (
        e,
        buf',
        rw (gobble, blank) runs,
        record {
          from = omega (arith, g.from);
          within = g.within;
          blanks = λ j p q. elim (Bool-cases (j == pos)) [
            | inl here ↦ subst (λ i. is_blank (buf i) ≡ true) (sym (==→eq j pos here)) blank
            | inr later ↦
                subst (λ (c : ℕ). is_blank c ≡ true) (elsewhere buf pos j (ground arith))
                  (g.blanks j (ground arith) q)
          ];
          stops =
              subst (λ (c : ℕ). is_blank c ≡ false) (elsewhere buf pos e (omega (arith, g.from)))
                g.stops;
          before = λ j p.
              g.before j (omega arith) ∙ rw (ne→== j pos (λ e. absurd (omega (arith, e)))) refl;
          behind = λ j p. g.behind j p ∙ elsewhere buf pos j (omega (arith, g.from));
          zeros = λ j p q. elim (Bool-cases (j == pos)) [
            | inl here ↦ rw (==→eq j pos here) (g.before pos (omega arith) ∙ rw (==_self pos) refl)
            | inr later ↦ g.zeros j (ground arith) q
          ];
        },
      )
]

pub record Skipped (pos n : ℕ) (buf : ℕ → ℕ) (e : ℕ) : Type 0 where
  pub from : pos ≤ e
  pub within : e ≤ n
  pub word : (k : ℕ) → pos ≤ k → k < e → in_word (buf k) ≡ true
  pub stops : in_word (buf e) ≡ false

pub skip_word-Skipped :
    (fuel pos n : ℕ) (buf : ℕ → ℕ)
    → buf n ≡ 0
    → pos ≤ n
    → n < pos + fuel
    → (e : ℕ) × (skip_word fuel pos buf ≡ some e) × Skipped pos n buf e
unfolding skip_word
skip_word-Skipped zero pos n buf z h k = absurd (omega arith)
skip_word-Skipped (suc fuel) pos n buf z h k = elim (Bool-cases (in_word (buf pos))) [
  | inr stop ↦ (
    pos,
    rw (skip_word, stop) refl,
    record { from = omega arith; within = h; word = λ j p q. absurd (omega arith); stops = stop },
  )
  | inl char ↦
      let inside : pos < n = before_end in_word buf pos n refl z h char in
      let (e, runs, s) = skip_word-Skipped fuel (pos + 1) n buf z (omega arith) (omega arith) in
      (
        e,
        rw (skip_word, char) runs,
        record {
          from = omega (arith, s.from);
          within = s.within;
          word = λ j p q. elim (Bool-cases (j == pos)) [
            | inl here ↦ subst (λ i. in_word (buf i) ≡ true) (sym (==→eq j pos here)) char
            | inr later ↦ s.word j (ground arith) q
          ];
          stops = s.stops;
        },
      )
]
