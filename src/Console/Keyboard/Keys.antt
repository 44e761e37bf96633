-- ===== src/Console/Keyboard/Keys.antt =====
-- Keys that are pressed and released.
use jos.Base.{
  ℕ, zero, suc, ◌+◌, ◌<◌, ◌≡◌, ◌≢◌, refl, sym, inl, inr, Bool-cases, and_true, Bool, true, false,
  ◌&&◌, not, some, ◌==◌, ==→eq, ne→==, has, bit_and, bit_or, arith,
}
use mathlib.Core.Bool.{false≢true}
use mathlib.Core.Path.{subst}
use jos.Console.Keyboard.{
  Kbd, shiftcode, togglecode, clear, bit_xor, e0esc, key_pressed, kbd_proc_data,
}

abbrev every : ℕ → (ℕ → Bool) → Bool
every zero test = true
every (suc n) test = test n && every n test

every_sound : (n : ℕ) (test : ℕ → Bool) → every n test ≡ true → (s : ℕ) → s < n → test s ≡ true
every_sound zero test e s h = absurd (omega arith)
every_sound (suc n) test e s h =
    let (last, rest) = and_true (test n) (every n test) e in
    elim (Bool-cases (s == n)) [
      | inl here ↦ subst (λ (x : ℕ). test x ≡ true) (sym (==→eq s n here)) last
      | inr below ↦ every_sound n test rest s (ground arith)
    ]

-- What is tested of a state of the modifiers and a key.
unfoldable returns : ℕ → ℕ → Bool
unfolding shiftcode togglecode
returns s key =
    let held = bit_xor (bit_or s (shiftcode key)) (togglecode key) in
    not (has held e0esc)
    && (clear held (bit_or (shiftcode key) e0esc)
        == clear (bit_xor s (togglecode key)) (shiftcode key))

unfoldable all_return : Bool
unfolding returns
all_return = every 64 (λ s. every 128 (returns s))

every_key : all_return ≡ true
unfolding all_return
every_key = refl

-- The top bit of a byte tells a release, and the others the key.
unfoldable makes_break : ℕ → Bool
makes_break key = not (has key 0x80) && (has (key + 128) 0x80 && bit_and (key + 128) 0x7F == key)

every_code : every 128 makes_break ≡ true
unfolding makes_break
every_code = refl

unfoldable no_escape : ℕ → Bool
no_escape s = not (has s e0esc)

none_escaped : every 64 no_escape ≡ true
unfolding no_escape
none_escaped = refl

not-true : (b : Bool) → not b ≡ true → b ≡ false
not-true true e = absurd (false≢true e)
not-true false e = refl

code_bits :
    (key : ℕ)
    → key < 128
    → (has key 0x80 ≡ false) × (has (key + 128) 0x80 ≡ true) × (bit_and (key + 128) 0x7F ≡ key)
unfolding makes_break
code_bits key h =
    let (make, rest) =
      and_true (not (has key 0x80)) _ (every_sound 128 makes_break every_code key h) in
    let (release, same) = and_true (has (key + 128) 0x80) _ rest in
    (not-true (has key 0x80) make, release, ==→eq _ key same)

unescaped : (s : ℕ) → s < 64 → has s e0esc ≡ false
unfolding no_escape
unescaped s h = not-true (has s e0esc) (every_sound 64 no_escape none_escaped s h)

held_bits :
    (s key : ℕ)
    → s < 64
    → key < 128
    → (has (bit_xor (bit_or s (shiftcode key)) (togglecode key)) e0esc ≡ false)
      × (clear (bit_xor (bit_or s (shiftcode key)) (togglecode key)) (bit_or (shiftcode key) e0esc)
          ≡ clear (bit_xor s (togglecode key)) (shiftcode key))
unfolding all_return returns
held_bits s key h k =
    let row : every 128 (returns s) ≡ true =
      every_sound 64 (λ t. every 128 (returns t)) every_key s h in
    let (held, same) = and_true _ _ (every_sound 128 (returns s) row key k) in
    (not-true _ held, ==→eq _ _ same)

-- The state has the six modifiers only, so that no escape is pending, and the key has a code below 128
-- whose release is not the escape byte itself. When it is
-- pressed and released, of the modifiers only its toggle has changed, and a modifier of its own is
-- off.
pub press-release :
    (key : ℕ) (k : Kbd)
    → key < 128
    → key ≢ 0x60
    → k.shift < 64
    → (kbd_proc_data (some (key + 128)) (kbd_proc_data (some key) k).1).1.shift
      ≡ clear (bit_xor k.shift (togglecode key)) (shiftcode key)
unfolding kbd_proc_data key_pressed
press-release key k h n l =
    let (make, release, code) = code_bits key h in
    let (held, same) = held_bits k.shift key l h in
    rw
      (
        kbd_proc_data,
        ne→== key 0xE0 (λ e. absurd (omega (arith, e))),
        make,
        unescaped k.shift l,
        ne→== (key + 128) 0xE0 (λ e. n (omega (arith, e))),
        release,
        held,
        code,
      )
      same
