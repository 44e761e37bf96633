-- ===== src/Monitor/Commands/Faults.antt =====
-- That mon_backtrace of kern/monitor.c does not return.
use jos.Base.{
  ℕ, zero, suc, ◌≡◌, ◌≢◌, refl, sym, ◌∙◌, Option, none, List, inl, inr, Option-cases, Bool-cases,
  ◌==◌, ==→eq, ne→==, Bool, true, false, ap, [], ◌∷◌, add32, codes, arith,
}
use mathlib.Core.Bool.{false≢true}
use jos.Print.Cprintf.Messages.{Message}
use jos.Trap.Printed.{text_line}
use jos.Monitor.Commands.{
  Walk, returned, page_fault, more_frames, with_load, after_frame, frame_lines, walk_frames,
  backtrace,
}

abbrev is_returned : Walk → Bool
is_returned (returned ms) = true
is_returned page_fault = false
is_returned more_frames = false

after_frame-returned :
    (ms : List Message) (w : Walk) → is_returned (after_frame ms w) ≡ is_returned w
after_frame-returned ms (returned rest) = refl
after_frame-returned ms page_fault = refl
after_frame-returned ms more_frames = refl

-- What follows a load of the next frame does not return, if it does not for any frame but NULL.
next_frame :
    (load : ℕ → Option ℕ) (n next : ℕ) (ms : List Message)
    → load 4 ≡ none
    → ((a eip : ℕ) → a ≢ 0 → is_returned (walk_frames load n a eip) ≡ false)
    → is_returned (
        with_load (load (add32 next 4)) (λ ret_at. after_frame ms (walk_frames load n next ret_at)))
      ≡ false
next_frame load n next ms hole ih = elim (Bool-cases (next == 0)) [
  | inl at_null ↦
      let missing : load (add32 next 4) ≡ none =
        ap (λ (a : ℕ). load (add32 a 4)) (==→eq next 0 at_null) ∙ hole in
      rw missing refl
  | inr other ↦ elim (Option-cases (load (add32 next 4))) [
    | inl missing ↦ rw missing refl
    | inr (r, found) ↦
        rw found (after_frame-returned ms (walk_frames load n next r) ∙ ih next r (ground arith))
  ]
]

walk_frames-faults :
    (load : ℕ → Option ℕ) (n ebp eip : ℕ)
    → load 4 ≡ none
    → ebp ≢ 0
    → is_returned (walk_frames load n ebp eip) ≡ false
unfolding walk_frames
walk_frames-faults load zero ebp eip hole start = refl
walk_frames-faults load (suc n) ebp eip hole start =
    let going : (ebp == 0) ≡ false = ne→== ebp 0 start in
    elim (Option-cases (frame_lines load ebp eip)) [
      | inl missing ↦ rw (walk_frames, going, missing) refl
      | inr (ms, read) ↦ elim (Option-cases (load ebp)) [
        | inl missing ↦ rw (walk_frames, going, read, missing) refl
        | inr (next, found) ↦
            rw (walk_frames, going, read, found)
              (next_frame load n next ms hole (λ a r h. walk_frames-faults load n a r hole h))
      ]
    ]

-- Where the word at address 4 cannot be read, mon_backtrace does not return, from a frame pointer that
-- is not NULL and for any chain of frames and any number of rounds: the return address of the frame
-- behind the last one is read through NULL.
pub backtrace-faults :
    (load : ℕ → Option ℕ) (rounds ebp : ℕ) (ms : List Message)
    → load 4 ≡ none
    → ebp ≢ 0
    → backtrace load rounds ebp ≢ returned ms
unfolding backtrace
backtrace-faults load rounds ebp ms hole start e = false≢true (sym never ∙ ap is_returned e)
  where
    never : is_returned (backtrace load rounds ebp) ≡ false
    never = elim (Option-cases (load (add32 ebp 4))) [
      | inl missing ↦ rw (backtrace, missing) refl
      | inr (eip, found) ↦
          rw (backtrace, found)
            (after_frame-returned (text_line (codes "Stack backtrace:") ∷ [])
                (walk_frames load rounds ebp eip)
              ∙ walk_frames-faults load rounds ebp eip hole start)
    ]
