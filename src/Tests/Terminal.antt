-- ===== src/Tests/Terminal.antt =====
-- The console: keys that are pressed, lines that are read, and text on the screen.
use systems_os.Prelude.{true, false, ◌%◌, ◌^◌, ◌+◌, length, ◌≤◌, ℕ, ◌≡◌, refl, List, [], ◌∷◌, arith}
use systems_os.Machine.{Returns, ok}
use systems_os.Keyboard.{Keyboard, start_keyboard, input_scan_code, scan_code, store_char}
use systems_os.Keyboard.Ring.{IsRing, Scanned, queued, input_scan_code-Scanned}
use systems_os.Screen.{
  Screen, io_init, setcursor, putchar, scroll, setscroll, blank_lines, blank_cells, copy_lines,
  copy_cells, puts, clearscroll,
}
use systems_os.Screen.Region.{IsScreen, Scrolled, scroll-Scrolled}
use systems_os.Screen.Typing.{Kept}
use systems_os.Screen.Putchar.{putchar-Kept}
use systems_os.Screen.Cursor.{Shown, putchar-Shown, io_init-IsScreen}
use systems_os.Printf.{printf}
use systems_os.Printf.Pieces.{
  Piece, plain, directive, decimal_number, hex, string, written, meaning,
}
use systems_os.Printf.Meaning.{printf-meaning}
use systems_os.Convert.{cvtdec, cvtdec0, cvthex, hex_loop, cvtoct}
use systems_os.Convert.Powers.{read_base, cvthex-read, cvtoct-read}
use systems_os.Console.{Console, gets}
use systems_os.Console.Lines.{Line, gets-Line}

abbrev pub keys : Keyboard
keys = start_keyboard λ i. 0

pub keys-IsRing : IsRing keys
keys-IsRing = record { char = omega arith; space = omega arith }

-- The key of `a`.
input_scan_code-Scanned_example : Scanned keys 0x1e (input_scan_code 0x1e keys)
input_scan_code-Scanned_example = input_scan_code-Scanned keys 0x1e keys-IsRing

-- A code that the table does not define is stored as well.
undefined_stored : queued (input_scan_code 0x7f keys) ≡ 0xff ∷ []
unfolding input_scan_code store_char scan_code
undefined_stored = refl

-- `hi`, the return key and `x` are pressed.
abbrev pub pressed : List ℕ → Keyboard → Keyboard
pressed [] k = k
pressed (code ∷ codes) k = pressed codes (input_scan_code code k)

pub pressed-IsRing : (codes : List ℕ) (k : Keyboard) → IsRing k → IsRing (pressed codes k)
pressed-IsRing [] k i = i
pressed-IsRing (code ∷ codes) k i =
    pressed-IsRing codes (input_scan_code code k) (input_scan_code-Scanned k code i).0

abbrev pub zero_screen : Screen
zero_screen = record {
  cell = λ i. 0;
  scroll_min_x = 0;
  scroll_min_y = 0;
  scroll_max_x = 0;
  scroll_max_y = 0;
  curr_x = 0;
  curr_y = 0;
  min_x = 0;
  min_y = 0;
  max_x = 0;
  max_y = 0;
  cursor_high = 0;
  cursor_low = 0;
}

abbrev pub clear : Screen
clear = io_init zero_screen

clear-IsScreen : IsScreen clear
clear-IsScreen = io_init-IsScreen zero_screen

abbrev pub terminal : Console
terminal = record { keyboard = pressed (0x23 ∷ 0x17 ∷ 0x1c ∷ 0x2d ∷ []) keys; screen = clear }

gets-Line_example :
    Returns (Line terminal [] (104 ∷ 105 ∷ 10 ∷ []) (120 ∷ [])) (gets 20 [] terminal)
unfolding input_scan_code store_char scan_code
gets-Line_example =
    gets-Line terminal [] 20 (104 ∷ 105 ∷ 10 ∷ []) (120 ∷ [])
      (pressed-IsRing (0x23 ∷ 0x17 ∷ 0x1c ∷ 0x2d ∷ []) keys keys-IsRing) refl

putchar-Kept_example : Kept clear (putchar 10 clear)
putchar-Kept_example = putchar-Kept 10 clear clear-IsScreen

scroll-Scrolled_example : Scrolled 3 clear (scroll 3 clear)
scroll-Scrolled_example = scroll-Scrolled 3 clear clear-IsScreen.region

putchar-Shown_example : Shown clear 65 (putchar 65 clear)
unfolding io_init setcursor
putchar-Shown_example =
    putchar-Shown 65 clear clear-IsScreen (omega arith) (omega arith) (omega arith)

-- A character in a region of one line and two columns, and the text that follows it.
abbrev tiny : Screen
tiny = puts (65 ∷ 66 ∷ 67 ∷ []) (setscroll 10 2 11 2 clear)

tiny_lem : (tiny.cell 170 ≡ 0x743) × (tiny.cell 171 ≡ 0x720) × (tiny.curr_x ≡ 11)
unfolding puts putchar setscroll io_init setcursor scroll clearscroll blank_lines blank_cells
    copy_lines copy_cells
tiny_lem = (refl, refl, refl)

-- Numbers as text.
cvthex-read_example :
    (read_base 16 0 (cvthex 0x8000_00af) ≡ 0x8000_00af) × (length (cvthex 0x8000_00af) ≤ 8)
cvthex-read_example = cvthex-read 0x8000_00af (omega arith)

cvtoct-read_example : read_base 8 0 (cvtoct 1) ≡ 2
cvtoct-read_example = cvtoct-read 1 (omega arith)

cvthex_lem : cvthex 0xaf ≡ 65 ∷ 70 ∷ []
unfolding cvthex hex_loop
cvthex_lem = refl

-- `n=%-3d|%02x%s`, with a string at address 9.
abbrev format : List Piece
format =
    plain 110
    ∷ plain 61
    ∷ directive true false (3 ∷ []) decimal_number
    ∷ plain 124
    ∷ directive false true (2 ∷ []) hex
    ∷ directive false false [] string
    ∷ []

abbrev strings : ℕ → List ℕ
strings a = 33 ∷ []

abbrev arguments : ℕ → ℕ
arguments n = (n + 7) % 2 ^ 32

printf-meaning_example :
    printf strings arguments (written format) clear
    ≡ ok tt (puts (meaning strings arguments 0 format) clear)
printf-meaning_example =
    printf-meaning strings arguments format clear
      (
        omega arith,
        (
          omega arith,
          (
            (omega arith, tt),
            omega arith,
            omega arith,
            (omega arith, ((omega arith, tt), omega arith, omega arith, (tt, tt, omega arith, tt))),
          ),
        ),
      )
      (λ i. omega arith) (λ a. omega arith)

written_lem :
    written format ≡ 110 ∷ 61 ∷ 37 ∷ 45 ∷ 51 ∷ 100 ∷ 124 ∷ 37 ∷ 48 ∷ 50 ∷ 120 ∷ 37 ∷ 115 ∷ []
written_lem = refl

-- `n=7  |08!`.
meaning_lem : meaning strings arguments 0 format ≡ 110 ∷ 61 ∷ 55 ∷ 32 ∷ 32 ∷ 124 ∷ 48 ∷ 56 ∷ 33 ∷ []
unfolding cvtdec cvtdec0 cvthex hex_loop
meaning_lem = refl
