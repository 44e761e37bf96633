-- ===== src/Print/Format.antt =====
-- vprintfmt of lib/printfmt.c. What it puts is the ints that putch gets, as 32-bit patterns. The format
-- is its bytes with the final 0; the arguments are a list, an integer as its bit pattern and a string as
-- the bytes from its pointer on (`none` is NULL). A call whose arguments do not fit the format, and a
-- read past the end of a string, are `fault`. The specification of a conversion is read in Escape.
mod Escape
pub mod Decimal
pub mod Ends
unfoldable pub use Escape.*
use jos.Base.{
  ℕ, zero, suc, ◌+◌, ◌-◌, ◌*◌, ◌/◌, ◌%◌, ◌^◌, Bool, true, false, not, ◌&&◌, ◌||◌, Option, none,
  some, List, [], ◌∷◌, ◌++◌, ltb, leb, ◌==◌, if◌then◌else◌, replicate, length, word, codes,
}
use jos.Str.{strnlen}
use jos.Print.{printnum}

-- What is printed before vprintfmt returns. `out_of_fuel` is a run that was not followed to its end.
pub data Output : Type 0 where
  printed : List ℕ → Output
  fault : Output
  out_of_fuel : Output

abbrev pub after : List ℕ → Output → Output
after s (printed t) = printed (s ++ t)
after s fault = fault
after s out_of_fuel = out_of_fuel

-- getuint, and getint as a 64-bit pattern
unfoldable pub getuint : ℕ → ℕ → ℕ
getuint n lflag = if leb 2 lflag then n % 2 ^ 64 else n % word

unfoldable pub getint : ℕ → ℕ → ℕ
getint n lflag =
    if leb 2 lflag
    then n % 2 ^ 64
    else if ltb (n % word) (2 ^ 31)
    then n % word
    else n % word + (2 ^ 64 - word)

-- `number:`. More fuel than the number is enough.
unfoldable pub put_number : ℕ → ℕ → Spec → List ℕ
put_number num base sp = printnum (suc num) num base (at_least_zero sp.width) sp.padc

-- A `char` of a string, which is signed, as the int that putch gets.
abbrev pub char_int : ℕ → ℕ
char_int c = if ltb c 128 then c else c + (word - 256)

-- The characters of a string, up to its 0 or to `precision` of them; the byte after those is read.
unfoldable pub put_chars : List ℕ → Option ℕ → Bool → Option (List ℕ)
put_chars [] precision alt = none
put_chars (c ∷ s) none alt =
    let rest = put_chars s none alt in
    if c == 0 then some [] else elim rest [
      | none ↦ none
      | some t ↦ some ((if alt && (ltb c b' ' || ltb b'~' c) then b'?' else char_int c) ∷ t)
    ]
put_chars (c ∷ s) (some zero) alt = some []
put_chars (c ∷ s) (some (suc n)) alt =
    let rest = put_chars s (some n) alt in
    if c == 0 then some [] else elim rest [
      | none ↦ none
      | some t ↦ some ((if alt && (ltb c b' ' || ltb b'~' c) then b'?' else char_int c) ∷ t)
    ]

-- `strnlen(p, precision)`; a negative precision is a size above that of memory.
abbrev pub length_up_to : List ℕ → Option ℕ → Option ℕ
length_up_to s none = strnlen s 0xffff_ffff
length_up_to s (some n) = strnlen s n

abbrev pub null_text : List ℕ
null_text = codes "(null)" ++ 0 ∷ []

-- `%s`: the padding before, the characters, and the padding after. `width` is not above 0 at the end
-- where there was padding before.
unfoldable pub put_string : Option (List ℕ) → Spec → Option (List ℕ)
put_string p sp =
    let s : List ℕ = elim p [ none ↦ null_text | some t ↦ t ] in
    let w = at_least_zero sp.width in
    elim (put_chars s sp.precision sp.altflag) [
      | none ↦ none
      | some t ↦
          if ltb 0 w && not (sp.padc == b'-')
          then elim (length_up_to s sp.precision) [
            | none ↦ none
            | some n ↦ some (replicate (w - n) sp.padc ++ t)
          ]
          else some (t ++ replicate (w - length t) b' ')
    ]

-- `%d`
unfoldable pub put_signed : ℕ → Spec → List ℕ
put_signed n sp =
    let num = getint n sp.lflag in
    if ltb num (2 ^ 63) then put_number num 10 sp else b'-' ∷ put_number (2 ^ 64 - num) 10 sp

-- error_string, with what the source leaves NULL
unfoldable pub error_string : ℕ → Option (List ℕ)
error_string n =
    if n == 1
    then some (codes "unspecified error")
    else if n == 2
    then some (codes "bad environment")
    else if n == 3
    then some (codes "invalid parameter")
    else if n == 4
    then some (codes "out of memory")
    else if n == 5
    then some (codes "out of environments")
    else if n == 6
    then some (codes "segmentation fault")
    else if n == 8
    then some (codes "env is not recving")
    else if n == 9
    then some (codes "unexpected end of file")
    else none

-- `%e`, for an int that is not the least: the calls of printfmt with "error %d" and "%s".
unfoldable pub put_error : ℕ → List ℕ
put_error n =
    let err = if ltb (n % word) (2 ^ 31) then n % word else word - n % word in
    elim (error_string err) [ none ↦ codes "error " ++ put_signed err at_start | some t ↦ t ]

-- What a conversion prints, and the arguments that are left.
pub data Conversion : Type 0 where
  puts : List ℕ → List Arg → Conversion
  literal : Conversion
  bad_call : Conversion

abbrev pub with_int : List Arg → (ℕ → List ℕ) → Conversion
with_int (int_arg n ∷ args) f = puts (f n) args
with_int (string_arg p ∷ args) f = bad_call
with_int [] f = bad_call

abbrev pub with_string : List Arg → (Option (List ℕ) → Option (List ℕ)) → Conversion
with_string (string_arg p ∷ args) f = elim (f p) [ none ↦ bad_call | some t ↦ puts t args ]
with_string (int_arg n ∷ args) f = bad_call
with_string [] f = bad_call

abbrev pub is_least : List Arg → Bool
is_least (int_arg n ∷ args) = n % word == 2 ^ 31
is_least _ = false

unfoldable pub convert : ℕ → Spec → List Arg → Conversion
convert c sp args =
    if c == b'c'
    then with_int args (λ n. n % word ∷ [])
    else if c == b'e'
    then (if is_least args then bad_call else with_int args put_error)
    else if c == b's'
    then with_string args (λ p. put_string p sp)
    else if c == b'd'
    then with_int args (λ n. put_signed n sp)
    else if c == b'u'
    then with_int args (λ n. put_number (getuint n sp.lflag) 10 sp)
    else if c == b'o'
    then puts (codes "XXX") args
    else if c == b'p'
    then with_int args (λ n. codes "0x" ++ put_number (n % word) 16 sp)
    else if c == b'x'
    then with_int args (λ n. put_number (getuint n sp.lflag) 16 sp)
    else if c == b'%'
    then puts (b'%' ∷ []) args
    else literal

-- The loop. After an escape that it does not know, it prints '%' and goes on behind the '%'.
unfoldable pub vprintfmt : ℕ → List ℕ → List Arg → Output
vprintfmt zero fmt args = out_of_fuel
vprintfmt (suc fuel) [] args = fault
vprintfmt (suc fuel) (c ∷ fmt) args = elim (c == b'%') [
  | false ↦ elim (c == 0) [ true ↦ printed [] | false ↦ after (c ∷ []) (vprintfmt fuel fmt args) ]
  | true ↦ elim (parse_spec fmt none at_start args) [
    | none ↦ fault
    | some (ch, sp, rest, args') ↦ elim (convert ch sp args') [
      | puts out args'' ↦ after out (vprintfmt fuel rest args'')
      | literal ↦ after (b'%' ∷ []) (vprintfmt fuel fmt args')
      | bad_call ↦ fault
    ]
  ]
]
