-- ===== src/Screen.antt =====
-- c_io.c: the screen, its scrolling region and the cursor. A cell of the video memory is known by
-- its distance from the memory's start; coordinates are `unsigned int`s.
pub mod Cells
pub mod Region
pub mod Typing
pub mod Putchar
pub mod Cursor
use Prim.Native.Nat.{bit_or, bit_and}
use systems_os.Prelude.{
  seq, ℕ, zero, suc, ◌+◌, ◌-◌, ◌*◌, ◌/◌, ◌%◌, ◌^◌, ◌&&◌, List, [], ◌∷◌, ◌==◌, ltb, leb,
  if◌then◌else◌,
}
use systems_os.Machine.{add32, sub32}

-- The global variables, the video memory and the location that the device was told last.
pub record Screen : Type 0 where
  pub cell : ℕ → ℕ
  pub scroll_min_x : ℕ
  pub scroll_min_y : ℕ
  pub scroll_max_x : ℕ
  pub scroll_max_y : ℕ
  pub curr_x : ℕ
  pub curr_y : ℕ
  pub min_x : ℕ
  pub min_y : ℕ
  pub max_x : ℕ
  pub max_y : ℕ
  pub cursor_high : ℕ
  pub cursor_low : ℕ

-- `VIDEO_ADDR`, in a space of 2^32 bytes with two to a cell.
abbrev pub video_addr : ℕ → ℕ → ℕ
video_addr x y = (y * 80 + x) % 2 ^ 31

-- `bound`.
abbrev pub bound : ℕ → ℕ → ℕ → ℕ
bound lo value hi = let v = if ltb value lo then lo else value in if ltb hi v then hi else v

-- `__c_setcursor`.
abbrev pub cursor_line : Screen → ℕ
cursor_line s = if ltb s.scroll_max_y s.curr_y then s.scroll_max_y else s.curr_y

unfoldable pub setcursor : Screen → Screen
setcursor s =
    let addr = (cursor_line s * 80 + s.curr_x) % 2 ^ 32 in
    record s { cursor_high = addr / 2 ^ 8 % 2 ^ 8; cursor_low = addr % 2 ^ 8 }

-- `__c_putchar_at`: the character has its attributes with it, or is white on black.
abbrev pub attributed : ℕ → ℕ
attributed c = if ltb 0xff c then c % 2 ^ 16 else bit_or c 0x700

abbrev pub set_cell : ℕ → ℕ → Screen → Screen
set_cell a v s = record s { cell = λ i. if i == a then v else s.cell i }

abbrev pub put_at : ℕ → ℕ → ℕ → Screen → Screen
put_at x y c s =
    if leb x s.max_x && leb y s.max_y then set_cell (video_addr x y) (attributed c) s else s

-- `c_setscroll`.
abbrev pub bounded : ℕ → ℕ → ℕ → ℕ → Screen → Screen
bounded s_min_x s_min_y s_max_x s_max_y s = record s {
  scroll_min_x = bound s.min_x s_min_x s.max_x;
  scroll_min_y = bound s.min_y s_min_y s.max_y;
  scroll_max_x = bound (bound s.min_x s_min_x s.max_x) s_max_x s.max_x;
  scroll_max_y = bound (bound s.min_y s_min_y s.max_y) s_max_y s.max_y;
  curr_x = bound s.min_x s_min_x s.max_x;
  curr_y = bound s.min_y s_min_y s.max_y;
}

unfoldable pub setscroll : ℕ → ℕ → ℕ → ℕ → Screen → Screen
setscroll s_min_x s_min_y s_max_x s_max_y s = setcursor (bounded s_min_x s_min_y s_max_x s_max_y s)

-- `c_moveto`.
abbrev pub moved_to : ℕ → ℕ → Screen → Screen
moved_to x y s = record s {
  curr_x = bound s.scroll_min_x (add32 x s.scroll_min_x) s.scroll_max_x;
  curr_y = bound s.scroll_min_y (add32 y s.scroll_min_y) s.scroll_max_y;
}

unfoldable pub moveto : ℕ → ℕ → Screen → Screen
moveto x y s = setcursor (moved_to x y s)

-- Blanks from a place on in a line. A loop from `x` to `limit` has `limit + 1 - x` rounds.
unfoldable pub erase : ℕ → ℕ → ℕ → Screen → Screen
erase zero x y s = s
erase (suc n) x y s = erase n (x + 1) y (put_at x y 32 s)

abbrev pub erase_to : ℕ → ℕ → ℕ → Screen → Screen
erase_to x limit y s = erase (limit + 1 - x) x y s

-- `c_putchar_at`.
abbrev pub line_limit : ℕ → Screen → ℕ
line_limit x s =
    if ltb s.scroll_max_x x
    then s.max_x
    else if leb s.scroll_min_x x
    then s.scroll_max_x
    else sub32 s.scroll_min_x 1

unfoldable pub putchar_at : ℕ → ℕ → ℕ → Screen → Screen
putchar_at x y c s =
    if bit_and c 0x7f == 10 then erase_to x (line_limit x s) y s else put_at x y c s

-- Runs of cells: blanks are written, or cells are copied, one by one from the first on.
abbrev pub blank : ℕ
blank = 0x720

unfoldable pub blank_cells : ℕ → ℕ → Screen → Screen
blank_cells zero a s = s
blank_cells (suc n) a s = blank_cells n (a + 1) (set_cell a blank s)

unfoldable pub copy_cells : ℕ → ℕ → ℕ → Screen → Screen
copy_cells zero from to s = s
copy_cells (suc n) from to s = copy_cells n (from + 1) (to + 1) (set_cell to (s.cell from) s)

-- The characters in a line of the scrolling region.
abbrev pub nchars : Screen → ℕ
nchars s = s.scroll_max_x - s.scroll_min_x + 1

-- The lines of the loops of `c_clearscroll` and `c_scroll`, as many as the first argument.
unfoldable pub blank_lines : ℕ → ℕ → Screen → Screen
blank_lines zero line s = s
blank_lines (suc n) line s =
    blank_lines n (line + 1) (blank_cells (nchars s) (video_addr s.scroll_min_x line) s)

unfoldable pub copy_lines : ℕ → ℕ → ℕ → Screen → Screen
copy_lines zero line lines s = s
copy_lines (suc n) line lines s = copy_lines n (line + 1) lines (
    copy_cells (nchars s) (video_addr s.scroll_min_x (line + lines))
      (video_addr s.scroll_min_x line) s)

-- `c_clearscroll`.
unfoldable pub clearscroll : Screen → Screen
clearscroll s = blank_lines (s.scroll_max_y + 1 - s.scroll_min_y) s.scroll_min_y s

-- `c_clearscreen`.
unfoldable pub clearscreen : Screen → Screen
clearscreen s =
    blank_cells ((s.max_y - s.min_y + 1) * (s.max_x - s.min_x + 1)) (video_addr s.min_x s.min_y) s

-- `c_scroll`: all lines are cleared, or some move up and the last ones are cleared.
abbrev pub scroll_all : Screen → Screen
scroll_all s =
    setcursor (record (clearscroll s) { curr_x = s.scroll_min_x; curr_y = s.scroll_min_y })

abbrev pub scroll_some : ℕ → Screen → Screen
scroll_some lines s =
    let kept = s.scroll_max_y - lines + 1 - s.scroll_min_y in
    blank_lines (s.scroll_max_y + 1 - (s.scroll_min_y + kept)) (s.scroll_min_y + kept)
      (copy_lines kept s.scroll_min_y lines s)

unfoldable pub scroll : ℕ → Screen → Screen
scroll lines s =
    if ltb (s.scroll_max_y - s.scroll_min_y) lines then scroll_all s else scroll_some lines s

-- `c_putchar`: off the bottom of the region, the lines move up first.
abbrev pub in_region : Screen → Screen
in_region s =
    if ltb s.scroll_max_y s.curr_y
    then record (scroll (s.curr_y - s.scroll_max_y) s) { curr_y = s.scroll_max_y }
    else s

abbrev pub next_line : Screen → Screen
next_line s = record s { curr_x = s.scroll_min_x; curr_y = add32 s.curr_y 1 }

abbrev pub new_line : Screen → Screen
new_line s = next_line (erase_to s.curr_x s.scroll_max_x s.curr_y s)

abbrev pub advance : Screen → Screen
advance s =
    if ltb s.scroll_max_x (add32 s.curr_x 1)
    then next_line s
    else record s { curr_x = add32 s.curr_x 1 }

abbrev pub typed : ℕ → Screen → Screen
typed c s =
    if bit_and c 0xff == 10
    then new_line s
    else if bit_and c 0xff == 13
    then record s { curr_x = s.scroll_min_x }
    else advance (put_at s.curr_x s.curr_y c s)

unfoldable pub putchar : ℕ → Screen → Screen
putchar c s = setcursor (typed c (in_region s))

-- A `char` as an `int` or an `unsigned int`: it has a sign.
abbrev pub sext8 : ℕ → ℕ
sext8 c = if ltb (c % 256) 128 then c % 256 else c % 256 + (2 ^ 32 - 256)

-- `c_puts`, `c_putbuf` and `c_puts_at`. A string is the list of its characters; a buffer may hold a
-- NUL as well.
unfoldable pub puts : List ℕ → Screen → Screen
puts [] s = s
puts (c ∷ cs) s = puts cs (putchar (sext8 c) s)

abbrev pub putbuf : (ℕ → ℕ) → ℕ → Screen → Screen
putbuf str num s = puts (seq str num) s

abbrev pub puts_at : ℕ → ℕ → List ℕ → Screen → Screen
puts_at x y [] s = s
puts_at x y (c ∷ cs) s =
    let rest = puts_at (add32 x 1) y cs (putchar_at x y (sext8 c) s) in
    if leb x s.max_x then rest else s

-- `c_io_init`, without the handler of the keyboard.
unfoldable pub io_init : Screen → Screen
io_init s = setcursor (record s {
  min_x = 0;
  min_y = 0;
  max_x = 79;
  max_y = 24;
  scroll_min_x = 0;
  scroll_min_y = 0;
  scroll_max_x = 79;
  scroll_max_y = 24;
  curr_y = 0;
  curr_x = 0;
})
