-- ===== src/Screen/Region.antt =====
-- The scrolling region: what `c_scroll` does to it, and what keeps it on the screen.
use mathlib.Core.Path.{subst}
use systems_os.Prelude.{
  true, false, ℕ, ◌+◌, ◌-◌, ◌*◌, ◌/◌, ◌%◌, ◌≤◌, ◌<◌, ◌≡◌, refl, Bool, ◌&&◌, arith, ltb, leb,
  if◌then◌else◌, ap, sym, ◌∙◌, Bool-cases, inl, inr,
}
use systems_os.Screen.{
  Screen, setcursor, blank, blank_lines, clearscroll, scroll_all, scroll_some, scroll,
}
use systems_os.Screen.Cells.{
  with_cells, lines_blanked, lines_copied, HasSides, with_cells-HasSides, blank_lines_lem,
  copy_lines_lem,
}

-- The scrolling region is on the screen of 80 times 25.
pub record IsRegion (s : Screen) : Type 0 where
  pub min_x : s.min_x ≡ 0
  pub min_y : s.min_y ≡ 0
  pub max_x : s.max_x ≡ 79
  pub max_y : s.max_y ≡ 24
  pub sides : HasSides s
  pub order : s.scroll_min_y ≤ s.scroll_max_y
  pub bottom : s.scroll_max_y < 25

-- The cursor is in the region, or at the start of the line below it.
pub record IsScreen (s : Screen) : Type 0 where
  pub region : IsRegion s
  pub left : s.scroll_min_x ≤ s.curr_x
  pub right : s.curr_x ≤ s.scroll_max_x
  pub top : s.scroll_min_y ≤ s.curr_y
  pub below : s.curr_y ≤ s.scroll_max_y + 1

-- Whether a cell belongs to the region.
abbrev pub inside : Screen → ℕ → Bool
inside s i =
    (leb s.scroll_min_y (i / 80) && leb (i / 80) s.scroll_max_y)
    && (leb s.scroll_min_x (i % 80) && leb (i % 80) s.scroll_max_x)

-- Moving up by some lines: the others are blank.
abbrev pub scrolled : ℕ → Screen → ℕ → ℕ
scrolled lines s i =
    if inside s i
    then if leb (i / 80 + lines) s.scroll_max_y then s.cell (i + lines * 80) else blank
    else s.cell i

pub record SameBounds (s s' : Screen) : Type 0 where
  pub scroll_min_x : s'.scroll_min_x ≡ s.scroll_min_x
  pub scroll_min_y : s'.scroll_min_y ≡ s.scroll_min_y
  pub scroll_max_x : s'.scroll_max_x ≡ s.scroll_max_x
  pub scroll_max_y : s'.scroll_max_y ≡ s.scroll_max_y
  pub min_x : s'.min_x ≡ s.min_x
  pub min_y : s'.min_y ≡ s.min_y
  pub max_x : s'.max_x ≡ s.max_x
  pub max_y : s'.max_y ≡ s.max_y

pub SameBounds-IsRegion : (s s' : Screen) → SameBounds s s' → IsRegion s → IsRegion s'
SameBounds-IsRegion s s' e r = record {
  min_x = e.min_x ∙ r.min_x;
  min_y = e.min_y ∙ r.min_y;
  max_x = e.max_x ∙ r.max_x;
  max_y = e.max_y ∙ r.max_y;
  sides = record {
    order = omega (arith, e.scroll_min_x, e.scroll_max_x, r.sides.order);
    right = omega (arith, e.scroll_max_x, r.sides.right);
  };
  order = omega (arith, e.scroll_min_y, e.scroll_max_y, r.order);
  bottom = omega (arith, e.scroll_max_y, r.bottom);
}

pub same_bounds :
    (s : Screen) (f : ℕ → ℕ) (x y h l : ℕ)
    → SameBounds s (record s { cell = f; curr_x = x; curr_y = y; cursor_high = h; cursor_low = l })
same_bounds s f x y h l = record {
  scroll_min_x = refl;
  scroll_min_y = refl;
  scroll_max_x = refl;
  scroll_max_y = refl;
  min_x = refl;
  min_y = refl;
  max_x = refl;
  max_y = refl;
}

clearscroll_lem :
    (s : Screen)
    → IsRegion s
    → clearscroll s
      ≡ with_cells (lines_blanked s (s.scroll_max_y + 1 - s.scroll_min_y) s.scroll_min_y s.cell) s
unfolding clearscroll
clearscroll_lem s r =
    blank_lines_lem (s.scroll_max_y + 1 - s.scroll_min_y) s.scroll_min_y s r.sides
      (omega (arith, r.order, r.bottom))

-- What a scroll leaves; only one that clears all lines moves the cursor.
abbrev pub clears : ℕ → Screen → Bool
clears lines s = ltb (s.scroll_max_y - s.scroll_min_y) lines

pub record Scrolled (lines : ℕ) (s s' : Screen) : Type 0 where
  pub cells : (i : ℕ) → s'.cell i ≡ scrolled lines s i
  pub bounds : SameBounds s s'
  pub column : s'.curr_x ≡ (if clears lines s then s.scroll_min_x else s.curr_x)
  pub row : s'.curr_y ≡ (if clears lines s then s.scroll_min_y else s.curr_y)

scroll_all-Scrolled :
    (lines : ℕ) (s : Screen)
    → IsRegion s
    → s.scroll_max_y - s.scroll_min_y < lines
    → Scrolled lines s (scroll_all s)
unfolding setcursor
scroll_all-Scrolled lines s r many =
    let all : clears lines s ≡ true = ground arith in
    subst
      (λ t.
        Scrolled lines s
          (setcursor (record t { curr_x = s.scroll_min_x; curr_y = s.scroll_min_y })))
      (sym (clearscroll_lem s r))
      (record {
        cells = λ i. ground arith;
        bounds = record {
          scroll_min_x = refl;
          scroll_min_y = refl;
          scroll_max_x = refl;
          scroll_max_y = refl;
          min_x = refl;
          min_y = refl;
          max_x = refl;
          max_y = refl;
        };
        column = rw all refl;
        row = rw all refl;
      })

scroll_some-Scrolled :
    (lines : ℕ) (s : Screen)
    → IsRegion s
    → lines ≤ s.scroll_max_y - s.scroll_min_y
    → Scrolled lines s (scroll_some lines s)
scroll_some-Scrolled lines s r few =
    let some_stay : clears lines s ≡ false = ground arith in
    let kept = s.scroll_max_y - lines + 1 - s.scroll_min_y in
    let f = lines_copied s kept s.scroll_min_y lines s.cell in
    let rest = s.scroll_max_y + 1 - (s.scroll_min_y + kept) in
    let up =
      copy_lines_lem kept s.scroll_min_y lines s r.sides (omega (arith, r.order, r.bottom)) in
    let down =
      blank_lines_lem rest (s.scroll_min_y + kept) (with_cells f s)
        (with_cells-HasSides s f r.sides) (omega (arith, r.order, r.bottom)) in
    subst (Scrolled lines s) (sym (ap (blank_lines rest (s.scroll_min_y + kept)) up ∙ down))
      (record {
        cells = λ i. ground (arith, r.order);
        bounds =
            same_bounds s (lines_blanked s rest (s.scroll_min_y + kept) f) s.curr_x s.curr_y
              s.cursor_high s.cursor_low;
        column = rw some_stay refl;
        row = rw some_stay refl;
      })

-- When the region is on the screen, `c_scroll` by some lines moves each of its cells up by as
-- many, makes the cells that are left blank, and changes no cell outside it and no bounds; the
-- cursor moves to the region's start exactly if all lines are cleared.
pub scroll-Scrolled : (lines : ℕ) (s : Screen) → IsRegion s → Scrolled lines s (scroll lines s)
unfolding scroll
scroll-Scrolled lines s r = elim (Bool-cases (ltb (s.scroll_max_y - s.scroll_min_y) lines)) [
  | inl t ↦ rw t (scroll_all-Scrolled lines s r (ground arith))
  | inr t ↦ rw t (scroll_some-Scrolled lines s r (ground arith))
]
