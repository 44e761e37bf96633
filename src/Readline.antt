-- ===== src/Readline.antt =====
-- lib/readline.c. The answers of getchar are a list of ints as bit patterns.
pub mod Edited
use jos.Base.{
  ℕ, ◌+◌, ◌-◌, ◌%◌, ◌^◌, Bool, List, [], ◌∷◌, ◌++◌, ◌&&◌, ◌||◌, ltb, leb, ◌==◌, if◌then◌else◌,
  update,
}

abbrev pub buflen : ℕ
buflen = 1024

-- `i`, the static `buf`, and the characters that are printed.
pub record Line : Type 0 where
  pub i : ℕ
  pub buf : ℕ → ℕ
  pub echo : List ℕ

-- The line that is returned, NULL after an error of getchar, or a wait for more input.
pub data Reading : Type 0 where
  got : Line → Reading
  read_error : Line → Reading
  waiting : Line → Reading

abbrev pub say : Bool → ℕ → Line → Line
say echoing c l = record l { echo = l.echo ++ (if echoing then c ∷ [] else []) }

abbrev pub store_char : ℕ → Line → Line
store_char c l = record l { buf = update l.buf l.i (c % 256) }

abbrev pub is_erase : ℕ → Bool
is_erase c = c == 8 || c == 0x7F

abbrev pub is_end : ℕ → Bool
is_end c = c == b'\n' || c == b'\r'

-- The loop.
unfoldable pub read_loop : Bool → List ℕ → Line → Reading
read_loop echoing [] l = waiting l
read_loop echoing (c ∷ cs) l =
    let erased = read_loop echoing cs (say echoing 8 (record l { i = l.i - 1 })) in
    let added = read_loop echoing cs (record (store_char c (say echoing c l)) { i = l.i + 1 }) in
    let ignored = read_loop echoing cs l in
    if leb (2 ^ 31) c
    then read_error l
    else if is_erase c && ltb 0 l.i
    then erased
    else if leb b' ' c && ltb l.i (buflen - 1)
    then added
    else if is_end c
    then got (store_char 0 (say echoing b'\n' l))
    else ignored

-- `prompt` is what the first cprintf prints, if the pointer is not NULL; `buf` is what the static
-- buffer holds.
unfoldable pub readline : Bool → List ℕ → (ℕ → ℕ) → List ℕ → Reading
unfolding read_loop
readline echoing prompt buf input =
    read_loop echoing input (record { i = 0; buf = buf; echo = prompt })
