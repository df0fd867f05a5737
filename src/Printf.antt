-- ===== src/Printf.antt =====
-- c_io.c: formatted output. The strings of the program are a function of their addresses, and the
-- arguments a function of their positions. A format is the list of its characters.
pub mod Text
pub mod Pieces
pub mod Meaning
use systems_os.Prelude.{
  ℕ, zero, suc, ◌+◌, ◌-◌, ◌*◌, ◌%◌, ◌^◌, Bool, true, false, not, ◌&&◌, ◌||◌, Option, none, some,
  List, [], ◌∷◌, length, ◌==◌, ltb, leb, if◌then◌else◌,
}
use systems_os.Machine.{ok, fault, out_of_fuel, Cmd, and_then, add32, sub32}
use systems_os.Screen.{Screen, putchar, putchar_at, puts, puts_at, sext8}
use systems_os.Convert.{cvtdec, cvthex, cvtoct}

abbrev pub minus_one : ℕ
minus_one = 0xffff_ffff

-- Whether a place is given.
abbrev pub placed : ℕ → ℕ → Bool
placed x y = not ((x == minus_one) && (y == minus_one))

-- `pad`, with the rounds of its loop; the result is the new column.
unfoldable pub pad : ℕ → ℕ → ℕ → ℕ → Cmd Screen ℕ
pad zero x y padchar s = ok x s
pad (suc n) x y padchar s =
    let there = pad n (add32 x 1) y padchar (putchar_at x y padchar s) in
    let here = pad n x y padchar (putchar padchar s) in if placed x y then there else here

-- A positive `int` as a number of rounds.
abbrev pub positive : ℕ → ℕ
positive w = if ltb w (2 ^ 31) then w else 0

-- The options of a format.
pub record Options : Type 0 where
  pub leftadjust : Bool
  pub padchar : ℕ
  pub width : ℕ

-- `padstr`.
abbrev pub show_at : ℕ → ℕ → List ℕ → ℕ → Cmd Screen ℕ
show_at x y str len s =
    if placed x y then ok (add32 x len) (puts_at x y str s) else ok x (puts str s)

abbrev pub before : Options → ℕ → ℕ
before o extra = if o.leftadjust then 0 else positive extra

abbrev pub behind : Options → ℕ → ℕ
behind o extra = if o.leftadjust then positive extra else 0

unfoldable pub padstr : ℕ → ℕ → List ℕ → ℕ → Options → Cmd Screen ℕ
padstr x y str len o s =
    let extra = sub32 o.width len in
    and_then (pad (before o extra) x y o.padchar s)
      λ x1 s1. and_then (show_at x1 y str len s1) λ x2 s2. pad (behind o extra) x2 y o.padchar s2

-- The options at the start of a format code, and what follows them.
abbrev pub take_minus : List ℕ → Bool × List ℕ
take_minus [] = (false, [])
take_minus (c ∷ cs) = if c == 45 then (true, cs) else (false, c ∷ cs)

abbrev pub take_zero : List ℕ → ℕ × List ℕ
take_zero [] = (32, [])
take_zero (c ∷ cs) = if c == 48 then (48, cs) else (32, c ∷ cs)

abbrev pub take_width : ℕ → List ℕ → ℕ × List ℕ
take_width w [] = (w, [])
take_width w (c ∷ cs) =
    let rest = take_width ((w * 10 + (c - 48)) % 2 ^ 32) cs in
    if leb 48 c && leb c 57 then rest else (w, c ∷ cs)

abbrev pub take_options : List ℕ → Options × List ℕ
take_options fmt =
    let (left, fmt1) = take_minus fmt in
    let (fill, fmt2) = take_zero fmt1 in
    let (width, fmt3) = take_width 0 fmt2 in
    (record { leftadjust = left; padchar = fill; width = width }, fmt3)

-- What a format code converts an argument to, with the length that is passed on: a NUL that is
-- printed as a character shows nothing.
abbrev pub decimal : Option (List ℕ) → Option (List ℕ × ℕ)
decimal none = none
decimal (some ds) = some (ds, length ds)

abbrev pub character : ℕ → List ℕ
character w = if w % 256 == 0 then [] else w % 256 ∷ []

abbrev pub converted : (ℕ → List ℕ) → ℕ → ℕ → Option (List ℕ × ℕ)
converted strings code w =
    if code == 99
    then some (character w, 1)
    else if code == 100
    then decimal (cvtdec w)
    else if code == 115
    then some (strings w, length (strings w))
    else if code == 120
    then some (cvthex w, length (cvthex w))
    else if code == 111
    then some (cvtoct w, length (cvtoct w))
    else none

-- The column and the line after a character that is shown at a place.
abbrev pub next_x : Screen → ℕ → ℕ → ℕ
next_x s ch x = if (ch == 10) || (ch == 13) then s.scroll_min_x else add32 x 1

abbrev pub next_y : ℕ → ℕ → ℕ
next_y ch y = if ch == 10 then add32 y 1 else y

-- A format code: `more` goes on with the next argument, column and format. A format that ends inside
-- a code is read beyond its end.
abbrev pub Rest : Type 0
Rest = ℕ → ℕ → List ℕ → Cmd Screen (Unit {0})

abbrev pub print_converted :
    Rest → ℕ → ℕ → ℕ → Options → List ℕ → Option (List ℕ × ℕ) → Cmd Screen (Unit {0})
print_converted more ap x y o fmt none s = more ap x fmt s
print_converted more ap x y o fmt (some (str, len)) s =
    and_then (padstr x y str len o s) λ x1 s1. more (ap + 1) x1 fmt s1

abbrev pub print_code :
    Rest → (ℕ → List ℕ) → (ℕ → ℕ) → ℕ → ℕ → ℕ → Options → List ℕ → Cmd Screen (Unit {0})
print_code more strings args ap x y o [] s = fault
print_code more strings args ap x y o (code ∷ fmt) s =
    print_converted more ap x y o fmt (converted strings code (args ap)) s

-- `__c_do_printf`, with the loop on fuel; `ap` is the position of the next argument.
unfoldable pub do_printf : ℕ → (ℕ → List ℕ) → (ℕ → ℕ) → ℕ → ℕ → ℕ → List ℕ → Cmd Screen (Unit {0})
do_printf zero strings args ap x y fmt s = out_of_fuel
do_printf (suc fuel) strings args ap x y [] s = ok tt s
do_printf (suc fuel) strings args ap x y (ch ∷ fmt) s =
    let more : Rest = λ ap1 x1 fmt1. do_printf fuel strings args ap1 x1 y fmt1 in
    let code = print_code more strings args ap x y (take_options fmt).0 (take_options fmt).1 s in
    let there =
      do_printf fuel strings args ap (next_x s ch x) (next_y ch y) fmt
        (putchar_at x y (sext8 ch) s) in
    let here = do_printf fuel strings args ap x y fmt (putchar (sext8 ch) s) in
    if ch == 37 then code else if placed x y then there else here

-- `c_printf` and `c_printf_at`.
unfoldable pub printf : (ℕ → List ℕ) → (ℕ → ℕ) → List ℕ → Cmd Screen (Unit {0})
printf strings args fmt = do_printf (suc (length fmt)) strings args 0 minus_one minus_one fmt

unfoldable pub printf_at : (ℕ → List ℕ) → (ℕ → ℕ) → ℕ → ℕ → List ℕ → Cmd Screen (Unit {0})
printf_at strings args x y fmt = do_printf (suc (length fmt)) strings args 0 x y fmt
