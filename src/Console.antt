-- ===== src/Console.antt =====
-- c_io.c: the reading of characters from the keyboard, with their echo on the screen.
pub mod Lines
use systems_os.Prelude.{ℕ, zero, suc, ◌-◌, ◌%◌, List, [], ◌∷◌, ◌==◌, if◌then◌else◌}
use systems_os.Machine.{Run, ok, panic, fault, out_of_fuel, Cmd, and_then}
use systems_os.Keyboard.{Keyboard, wait, first_char, drop_char}
use systems_os.Screen.{Screen, putchar, sext8}

pub record Console : Type 0 where
  pub keyboard : Keyboard
  pub screen : Screen

-- A command on the keyboard leaves the screen as it is.
abbrev pub with_screen : {A : Type 0} → Screen → Run Keyboard A → Run Console A
with_screen s (ok a k) = ok a (record { keyboard = k; screen = s })
with_screen s panic = panic
with_screen s fault = fault
with_screen s out_of_fuel = out_of_fuel

-- `c_getchar`: a character is echoed unless it is `EOT`. The results are the character and the
-- codes that the keyboard has not yet delivered.
abbrev pub eot : ℕ
eot = 4

abbrev pub echo : ℕ → Screen → Screen
echo ch s = if ch == eot then s else putchar ch s

abbrev pub shown : Console → Console
shown c = record {
  keyboard = drop_char c.keyboard;
  screen = echo (sext8 (first_char c.keyboard)) c.screen;
}

unfoldable pub getchar : List ℕ → Cmd Console (ℕ × List ℕ)
getchar codes c =
    and_then (with_screen c.screen (wait codes c.keyboard))
      λ codes' c'. ok (sext8 (first_char c'.keyboard), codes') (shown c')

-- `c_gets`: the characters that it stores in front of the NUL. The loop has no more than
-- `size - 1` rounds.
abbrev pub and_char : ℕ → Run Console (List ℕ × List ℕ) → Run Console (List ℕ × List ℕ)
and_char ch r = and_then r λ (cs, codes) c. ok (ch % 256 ∷ cs, codes) c

unfoldable pub gets_loop : ℕ → List ℕ → Cmd Console (List ℕ × List ℕ)
gets_loop zero codes c = ok ([], codes) c
gets_loop (suc n) codes c = and_then (getchar codes c) λ (ch, codes') c'.
    if ch == eot
    then ok ([], codes') c'
    else if ch == 10
    then ok (ch % 256 ∷ [], codes') c'
    else and_char ch (gets_loop n codes' c')

unfoldable pub gets : ℕ → List ℕ → Cmd Console (List ℕ × List ℕ)
gets size codes c = gets_loop (size - 1) codes c
