-- ===== src/Screen/Putchar.antt =====
-- `c_putchar` and the functions that place the cursor.
use systems_os.Prelude.{
  ℕ, ◌+◌, ◌-◌, ◌*◌, ◌/◌, ◌≤◌, ◌<◌, refl, List, [], ◌∷◌, arith, ltb, leb, if◌then◌else◌, ap, ◌∙◌,
  Bool-cases, inl, inr,
}
use systems_os.Screen.{Screen, setcursor, scroll, blank, typed, putchar, sext8, puts}
use systems_os.Screen.Region.{
  IsScreen, SameBounds, same_bounds, SameBounds-IsRegion, scroll-Scrolled,
}
use systems_os.Screen.Typing.{Kept, Kept-trans, setcursor-Kept, typed-Kept}

-- The lines have moved up, where they must.
abbrev raised : Screen → Screen
raised s = record (scroll (s.curr_y - s.scroll_max_y) s) { curr_y = s.scroll_max_y }

raised-Kept : (s : Screen) → IsScreen s → s.scroll_max_y < s.curr_y → Kept s (raised s)
raised-Kept s i low =
    let n = s.curr_y - s.scroll_max_y in
    let r = scroll-Scrolled n s i.region in
    let e = r.bounds in
    let b : SameBounds s (raised s) = record {
      scroll_min_x = e.scroll_min_x;
      scroll_min_y = e.scroll_min_y;
      scroll_max_x = e.scroll_max_x;
      scroll_max_y = e.scroll_max_y;
      min_x = e.min_x;
      min_y = e.min_y;
      max_x = e.max_x;
      max_y = e.max_y;
    } in
    record {
      screen = record {
        region = SameBounds-IsRegion s (raised s) b i.region;
        left = ground (arith, r.column, e.scroll_min_x, i.left);
        right = ground (arith, r.column, e.scroll_max_x, i.right, i.region.sides.order);
        top = omega (arith, e.scroll_min_y, i.region.order);
        below = omega (arith, e.scroll_max_y);
      };
      bounds = b;
      outside = λ j o.
          r.cells j
          ∙ ap
              (λ b.
                if b
                then (if leb (j / 80 + n) s.scroll_max_y then s.cell (j + n * 80) else blank)
                else s.cell j)
              o;
    }

raised_low : (s : Screen) → IsScreen s → (raised s).curr_y ≤ (raised s).scroll_max_y
raised_low s i =
    omega (arith, (scroll-Scrolled (s.curr_y - s.scroll_max_y) s i.region).bounds.scroll_max_y)

-- From a screen whose cursor is in the scrolling region or at the line below it, `c_putchar` of
-- any character keeps it so, keeps the bounds, and changes no cell outside the region, whether
-- it scrolls or not.
pub putchar-Kept : (c : ℕ) (s : Screen) → IsScreen s → Kept s (putchar c s)
unfolding putchar
putchar-Kept c s i = elim (Bool-cases (ltb s.scroll_max_y s.curr_y)) [
  | inl t ↦
      let a = raised-Kept s i (ground arith) in
      let b = typed-Kept c (raised s) a.screen (raised_low s i) in
      rw t (
        Kept-trans s (raised s) (setcursor (typed c (raised s))) a (
          Kept-trans (raised s) (typed c (raised s)) (setcursor (typed c (raised s))) b
            (setcursor-Kept (typed c (raised s)) b.screen)))
  | inr t ↦
      let b = typed-Kept c s i (ground arith) in
      rw t
        (Kept-trans s (typed c s) (setcursor (typed c s)) b (setcursor-Kept (typed c s) b.screen))
]

same-Kept : (s : Screen) → IsScreen s → Kept s s
same-Kept s i = record {
  screen = i;
  bounds = same_bounds s s.cell s.curr_x s.curr_y s.cursor_high s.cursor_low;
  outside = λ j o. refl;
}

-- The same for each character of a string.
pub puts-Kept : (cs : List ℕ) (s : Screen) → IsScreen s → Kept s (puts cs s)
unfolding puts
puts-Kept [] s i = same-Kept s i
puts-Kept (c ∷ cs) s i =
    let a = putchar-Kept (sext8 c) s i in
    Kept-trans s (putchar (sext8 c) s) (puts cs (putchar (sext8 c) s)) a
      (puts-Kept cs (putchar (sext8 c) s) a.screen)
