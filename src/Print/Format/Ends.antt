-- ===== src/Print/Format/Ends.antt =====
-- vprintfmt ends.
use jos.Base.{
  ℕ, zero, suc, ◌+◌, ◌≤◌, ◌<◌, ◌≡◌, refl, inl, inr, Option, none, some, List, [], ◌∷◌, length,
  Bool-cases, Option-cases, Bool, true, false, ◌==◌, arith,
}
use mathlib.Core.Path.{subst}
use jos.Print.Format.{
  Arg, Spec, Output, printed, fault, out_of_fuel, after, at_start, read_on, conversion, missing,
  spec_step, parse_spec, puts, literal, bad_call, convert, vprintfmt,
}

-- How much of the format is left, plus one.
abbrev left_over : Option (ℕ × Spec × List ℕ × List Arg) → ℕ
left_over none = 0
left_over (some (ch, sp, rest, args)) = length rest + 1

-- A conversion takes at least its own character of the format.
parse_spec-le :
    (fmt : List ℕ) (number : Option ℕ) (sp : Spec) (args : List Arg)
    → left_over (parse_spec fmt number sp args) ≤ length fmt
unfolding parse_spec
parse_spec-le [] number sp args = omega arith
parse_spec-le (c ∷ fmt) number sp args =
    elim (spec_step c number sp args)
      as (λ st.
        left_over (elim st [
          | read_on number' sp' args' ↦ parse_spec fmt number' sp' args'
          | conversion sp' ↦ some (c, sp', fmt, args)
          | missing ↦ none
        ])
        ≤ suc (length fmt)) [
          | read_on number' sp' args' ↦ omega (arith, parse_spec-le fmt number' sp' args')
          | conversion sp' ↦ omega arith
          | missing ↦ omega arith
        ]

abbrev pub finishes : Output → Bool
finishes out_of_fuel = false
finishes _ = true

finishes-after : (s : List ℕ) (o : Output) → finishes o ≡ true → finishes (after s o) ≡ true
finishes-after s (printed t) e = refl
finishes-after s fault e = refl
finishes-after s out_of_fuel e = e

-- With more fuel than the format has bytes, vprintfmt is followed to its end, whatever the format and
-- the arguments are.
pub vprintfmt-ends :
    (fuel : ℕ) (fmt : List ℕ) (args : List Arg)
    → length fmt < fuel
    → finishes (vprintfmt fuel fmt args) ≡ true
unfolding vprintfmt
vprintfmt-ends zero fmt args h = absurd (omega arith)
vprintfmt-ends (suc fuel) [] args h = refl
vprintfmt-ends (suc fuel) (c ∷ fmt) args h = elim (Bool-cases (c == b'%')) [
  | inr plain ↦
      rw (vprintfmt, plain)
        (elim (Bool-cases (c == 0)) [
          | inl last ↦ rw last refl
          | inr more ↦ rw more (
              finishes-after (c ∷ []) (vprintfmt fuel fmt args)
                (vprintfmt-ends fuel fmt args (omega arith)))
        ])
  | inl escape ↦
      rw (vprintfmt, escape)
        (elim (Option-cases (parse_spec fmt none at_start args)) [
          | inl bad ↦ rw bad refl
          | inr ((ch, sp, rest, args'), found) ↦
              let shorter : left_over (some (ch, sp, rest, args')) ≤ length fmt =
                subst (λ o. left_over o ≤ length fmt) found
                  (parse_spec-le fmt none at_start args) in
              rw found
                (elim (convert ch sp args')
                  as (λ conv.
                    finishes (elim conv [
                      | puts out args'' ↦ after out (vprintfmt fuel rest args'')
                      | literal ↦ after (b'%' ∷ []) (vprintfmt fuel fmt args')
                      | bad_call ↦ fault
                    ])
                    ≡ true) [
                      | puts out args'' ↦
                          finishes-after out (vprintfmt fuel rest args'')
                            (vprintfmt-ends fuel rest args'' (omega arith))
                      | literal ↦
                          finishes-after (b'%' ∷ []) (vprintfmt fuel fmt args')
                            (vprintfmt-ends fuel fmt args' (omega arith))
                      | bad_call ↦ refl
                    ])
        ])
]
