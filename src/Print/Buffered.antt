-- ===== src/Print/Buffered.antt =====
-- lib/printf.c: what vprintfmt puts goes into a buffer, and sys_cputs gets the buffer when it is full
-- and at the end. The calls of sys_cputs are a list of what each is given, the first call first.
pub mod Flush
use jos.Base.{ℕ, zero, suc, ◌+◌, ◌-◌, ◌%◌, List, [], ◌∷◌, ◌++◌, ◌==◌, if◌then◌else◌, update, bytes}

-- `struct printbuf`, with the system calls that were made.
pub record Printbuf : Type 0 where
  pub idx : ℕ
  pub cnt : ℕ
  pub buf : ℕ → ℕ
  pub calls : List (List ℕ)

-- `sys_cputs(b->buf, b->idx)`
abbrev pub cputs_buf : Printbuf → Printbuf
cputs_buf b = record b { calls = b.calls ++ bytes b.buf 0 b.idx ∷ [] }

-- `buf` has bytes: a character keeps its low 8 bits.
unfoldable pub putch : ℕ → Printbuf → Printbuf
putch ch b0 =
    let b = record b0 { buf = update b0.buf b0.idx (ch % 256); idx = b0.idx + 1 } in
    let b' = if b.idx == 256 - 1 then record (cputs_buf b) { idx = 0 } else b in
    record b' { cnt = b'.cnt + 1 }

unfoldable pub putch_all : List ℕ → Printbuf → Printbuf
unfolding putch
putch_all [] b = b
putch_all (c ∷ cs) b = putch_all cs (putch c b)

-- The result, and the calls of sys_cputs. `garbage` is what the buffer holds before, and `out` what
-- vprintfmt puts.
unfoldable pub vcprintf : (ℕ → ℕ) → List ℕ → ℕ × List (List ℕ)
unfolding putch_all
vcprintf garbage out =
    let b = putch_all out (record { idx = 0; cnt = 0; buf = garbage; calls = [] }) in
    (b.cnt, (cputs_buf b).calls)
