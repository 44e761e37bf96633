-- ===== src/Tests/Format.antt =====
-- Examples for formatted output.
use jos.Base.{ℕ, ◌≡◌, ◌++◌, true, List, [], ◌∷◌, map, codes, All, arith}
use jos.Print.Format.{int_arg, printed, vprintfmt}
use jos.Print.Format.Ends.{finishes, vprintfmt-ends}
use jos.Print.Format.Decimal.{vprintfmt-strtol}
use jos.Str.Num.{strtol}
use jos.Print.Buffered.{vcprintf}
use jos.Print.Buffered.Flush.{joined, low_byte, IsShort, vcprintf-prints}

-- An escape that is not known, and an argument that is missing.
abbrev odd_format : List ℕ
odd_format = codes "a%-5q%d" ++ 0 ∷ []

vprintfmt-ends_example : finishes (vprintfmt 9 odd_format []) ≡ true
vprintfmt-ends_example = vprintfmt-ends 9 odd_format [] (omega arith)

-- -2
vprintfmt-strtol_example :
    (out : List ℕ) × (vprintfmt 3 (codes "%d" ++ 0 ∷ []) (int_arg 0xffff_fffe ∷ []) ≡ printed out)
    × (strtol out 10 ≡ (0xffff_fffe, []))
vprintfmt-strtol_example = vprintfmt-strtol 0xffff_fffe (omega arith)

vcprintf-prints_example :
    ((vcprintf (λ i. 0) (codes "ab")).0 ≡ 2)
    × (joined (vcprintf (λ i. 0) (codes "ab")).1 ≡ map low_byte (codes "ab"))
    × All IsShort (vcprintf (λ i. 0) (codes "ab")).1
vcprintf-prints_example = vcprintf-prints (λ i. 0) (codes "ab")
