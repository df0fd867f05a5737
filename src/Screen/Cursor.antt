-- ===== src/Screen/Cursor.antt =====
-- Where `c_putchar`, `c_setscroll`, `c_moveto` and `c_io_init` leave the cursor.
use Prim.Native.Nat.{bit_and}
use systems_os.Prelude.{
  ℕ, suc, ◌+◌, ◌-◌, ◌*◌, ◌≤◌, ◌<◌, ◌≡◌, ◌≢◌, refl, false, arith, ◌==◌, ltb, if◌then◌else◌, ap, ◌∙◌,
  Bool-cases, inl, inr, ne→eqb,
}
use native.Mathlib.Nat.{suc-mul}
use systems_os.Machine.{add32}
use systems_os.Screen.{
  Screen, bound, setcursor, cursor_line, bounded, setscroll, moved_to, moveto, attributed,
  next_line, putchar, io_init,
}
use systems_os.Screen.Region.{IsRegion, IsScreen, same_bounds, SameBounds-IsRegion}
use systems_os.Screen.Typing.{setcursor-Kept, put_at-cell}

-- A character is shown at the cursor, which moves on by one place.
abbrev pub location : Screen → ℕ
location s =
    (s.curr_y - s.scroll_min_y) * (s.scroll_max_x - s.scroll_min_x + 1)
    + (s.curr_x - s.scroll_min_x)

pub record Shown (s : Screen) (c : ℕ) (s' : Screen) : Type 0 where
  pub cells :
      (i : ℕ) → s'.cell i ≡ (if i == s.curr_y * 80 + s.curr_x then attributed c else s.cell i)
  pub location : location s' ≡ location s + 1
  pub cursor : s'.cursor_high * 256 + s'.cursor_low ≡ cursor_line s' * 80 + s'.curr_x

row_end :
    (lo y left x right : ℕ)
    → lo ≤ y
    → left ≤ x
    → x ≡ right
    → y < 25
    → (add32 y 1 - lo) * (right - left + 1) + (left - left)
      ≡ (y - lo) * (right - left + 1) + (x - left) + 1
row_end lo y left x right top l r low =
    let down : add32 y 1 - lo ≡ suc (y - lo) = omega arith in
    ap (λ d. d * (right - left + 1) + (left - left)) down
    ∙ omega (arith, suc-mul (y - lo) (right - left + 1))

column_next :
    (s : Screen) → IsScreen s → location (record s { curr_x = add32 s.curr_x 1 }) ≡ location s + 1
column_next s i = omega (arith, i.left, i.right, i.region.sides.right)

setcursor_lem :
    (s : Screen)
    → s.scroll_max_y < 25
    → s.curr_x < 80
    → (setcursor s).cursor_high * 256 + (setcursor s).cursor_low
      ≡ cursor_line (setcursor s) * 80 + (setcursor s).curr_x
unfolding setcursor
setcursor_lem s b r = ground arith

-- With the cursor in the region, `c_putchar` of a character that is neither LF nor CR writes it
-- at the cursor and changes no other cell, moves the cursor on by one place in the order of
-- reading, and tells the device the place.
pub putchar-Shown :
    (c : ℕ) (s : Screen)
    → IsScreen s
    → s.curr_y ≤ s.scroll_max_y
    → bit_and c 0xff ≢ 10
    → bit_and c 0xff ≢ 13
    → Shown s c (putchar c s)
unfolding putchar setcursor
putchar-Shown c s i low feed return =
    let stay : ltb s.scroll_max_y s.curr_y ≡ false = ground arith in
    let no_feed = ne→eqb (bit_and c 0xff) 10 feed in
    let no_return = ne→eqb (bit_and c 0xff) 13 return in
    elim (Bool-cases (ltb s.scroll_max_x (add32 s.curr_x 1))) [
      | inl t ↦
          rw (stay, no_feed, no_return, put_at-cell s c i low, t)
            (record {
              cells = λ j. refl;
              location =
                  row_end s.scroll_min_y s.curr_y s.scroll_min_x s.curr_x s.scroll_max_x i.top
                    i.left (ground (arith, i.right, i.region.sides.right))
                    (omega (arith, i.region.bottom));
              cursor =
                  setcursor_lem (next_line s) i.region.bottom
                    (omega (arith, i.region.sides.order, i.region.sides.right));
            })
      | inr t ↦
          rw (stay, no_feed, no_return, put_at-cell s c i low, t)
            (record {
              cells = λ j. refl;
              location = column_next s i;
              cursor =
                  setcursor_lem (record s { curr_x = add32 s.curr_x 1 }) i.region.bottom
                    (ground (arith, i.region.sides.right));
            })
    ]

-- What `bound` returns.
bound-between : (lo value hi : ℕ) → lo ≤ hi → (lo ≤ bound lo value hi) × (bound lo value hi ≤ hi)
bound-between lo value hi h = (ground arith, ground arith)

bounded-IsScreen : (a b c d : ℕ) (s : Screen) → IsRegion s → IsScreen (bounded a b c d s)
bounded-IsScreen a b c d s r = record {
  region = record {
    min_x = r.min_x;
    min_y = r.min_y;
    max_x = r.max_x;
    max_y = r.max_y;
    sides = record { order = ground (arith, r.max_x, r.min_x); right = ground (arith, r.max_x) };
    order = ground (arith, r.max_y, r.min_y);
    bottom = ground (arith, r.max_y);
  };
  left = omega arith;
  right = ground (arith, r.max_x, r.min_x);
  top = omega arith;
  below = ground (arith, r.max_y, r.min_y);
}

moved_to-IsScreen : (x y : ℕ) (s : Screen) → IsRegion s → IsScreen (moved_to x y s)
moved_to-IsScreen x y s r = record {
  region =
      SameBounds-IsRegion s (moved_to x y s)
        (same_bounds s s.cell (moved_to x y s).curr_x (moved_to x y s).curr_y s.cursor_high
          s.cursor_low)
        r;
  left = ground (arith, r.sides.order);
  right = ground (arith, r.sides.order);
  top = ground (arith, r.order);
  below = ground (arith, r.order);
}

-- When the screen's bounds are those of `c_io_init`, `c_setscroll` and `c_moveto` leave the
-- region on the screen and the cursor in the region, whatever their arguments.
pub setscroll-IsScreen :
    (s : Screen) (a b c d x y : ℕ)
    → IsRegion s
    → IsScreen (setscroll a b c d s) × IsScreen (moveto x y s)
unfolding setscroll moveto
setscroll-IsScreen s a b c d x y r = (
  (setcursor-Kept (bounded a b c d s) (bounded-IsScreen a b c d s r)).screen,
  (setcursor-Kept (moved_to x y s) (moved_to-IsScreen x y s r)).screen,
)

-- The set-up leaves the cursor at the start of the screen.
pub io_init-IsScreen : (s : Screen) → IsScreen (io_init s)
unfolding io_init setcursor
io_init-IsScreen s = record {
  region = record {
    min_x = refl;
    min_y = refl;
    max_x = refl;
    max_y = refl;
    sides = record { order = omega arith; right = omega arith };
    order = omega arith;
    bottom = omega arith;
  };
  left = omega arith;
  right = omega arith;
  top = omega arith;
  below = omega arith;
}
