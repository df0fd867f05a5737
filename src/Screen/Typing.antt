-- ===== src/Screen/Typing.antt =====
-- The cursor stays in the scrolling region, and typing changes no cell outside it.
use Prim.Native.Nat.{bit_and}
use systems_os.Prelude.{
  ℕ, ◌+◌, ◌-◌, ◌*◌, ◌/◌, ◌%◌, ◌≤◌, ◌≡◌, ◌≢◌, refl, true, false, ◌&&◌, arith, ◌==◌, ltb, leb, ap,
  ap₂, sym, ◌∙◌, Bool-cases, inl, inr, ne→eqb,
}
use mathlib.Core.Path.{subst}
use systems_os.Machine.{add32}
use systems_os.Screen.{
  Screen, setcursor, put_at, set_cell, attributed, next_line, new_line, advance, typed,
}
use systems_os.Screen.Cells.{with_cells, blanked, erase_lem}
use systems_os.Screen.Region.{
  IsRegion, IsScreen, inside, SameBounds, same_bounds, SameBounds-IsRegion,
}

-- What typing leaves.
pub record Kept (s s' : Screen) : Type 0 where
  pub screen : IsScreen s'
  pub bounds : SameBounds s s'
  pub outside : (i : ℕ) → inside s i ≡ false → s'.cell i ≡ s.cell i

inside-congr : (s t : Screen) (i : ℕ) → SameBounds s t → inside t i ≡ inside s i
inside-congr s t i e =
    ap₂
      (λ a b.
        (leb a (i / 80) && leb (i / 80) t.scroll_max_y)
        && (leb b (i % 80) && leb (i % 80) t.scroll_max_x))
      e.scroll_min_y e.scroll_min_x
    ∙ ap₂
        (λ a b.
          (leb s.scroll_min_y (i / 80) && leb (i / 80) a)
          && (leb s.scroll_min_x (i % 80) && leb (i % 80) b))
        e.scroll_max_y e.scroll_max_x

pub Kept-trans : (s t w : Screen) → Kept s t → Kept t w → Kept s w
Kept-trans s t w a b = record {
  screen = b.screen;
  bounds = record {
    scroll_min_x = b.bounds.scroll_min_x ∙ a.bounds.scroll_min_x;
    scroll_min_y = b.bounds.scroll_min_y ∙ a.bounds.scroll_min_y;
    scroll_max_x = b.bounds.scroll_max_x ∙ a.bounds.scroll_max_x;
    scroll_max_y = b.bounds.scroll_max_y ∙ a.bounds.scroll_max_y;
    min_x = b.bounds.min_x ∙ a.bounds.min_x;
    min_y = b.bounds.min_y ∙ a.bounds.min_y;
    max_x = b.bounds.max_x ∙ a.bounds.max_x;
    max_y = b.bounds.max_y ∙ a.bounds.max_y;
  };
  outside = λ i o. b.outside i (inside-congr s t i a.bounds ∙ o) ∙ a.outside i o;
}

pub setcursor-Kept : (s : Screen) → IsScreen s → Kept s (setcursor s)
unfolding setcursor
setcursor-Kept s i = record {
  screen = record {
    region =
        SameBounds-IsRegion s (setcursor s)
          (same_bounds s s.cell s.curr_x s.curr_y (setcursor s).cursor_high
            (setcursor s).cursor_low)
          i.region;
    left = i.left;
    right = i.right;
    top = i.top;
    below = i.below;
  };
  bounds =
      same_bounds s s.cell s.curr_x s.curr_y (setcursor s).cursor_high (setcursor s).cursor_low;
  outside = λ i o. refl;
}

-- Other cells in the region, and another place for the cursor.
abbrev placed : Screen → (ℕ → ℕ) → ℕ → ℕ → Screen
placed s f x y = record s { cell = f; curr_x = x; curr_y = y }

placed-Kept :
    (s : Screen) (f : ℕ → ℕ) (x y : ℕ)
    → IsScreen s
    → s.scroll_min_x ≤ x
    → x ≤ s.scroll_max_x
    → s.scroll_min_y ≤ y
    → y ≤ s.scroll_max_y + 1
    → ((i : ℕ) → inside s i ≡ false → f i ≡ s.cell i)
    → Kept s (placed s f x y)
placed-Kept s f x y i left right top below out = record {
  screen = record {
    region =
        SameBounds-IsRegion s (placed s f x y) (same_bounds s f x y s.cursor_high s.cursor_low)
          i.region;
    left = left;
    right = right;
    top = top;
    below = below;
  };
  bounds = same_bounds s f x y s.cursor_high s.cursor_low;
  outside = out;
}

-- A character, or the blanks to the end of the line.
cell_inside :
    (s : Screen) (x y i : ℕ)
    → IsRegion s
    → s.scroll_min_x ≤ x
    → x ≤ s.scroll_max_x
    → s.scroll_min_y ≤ y
    → y ≤ s.scroll_max_y
    → inside s i ≡ false
    → i ≢ y * 80 + x
cell_inside s x y i r a b c d o e = absurd (ground (arith, r.sides.right, r.order, r.bottom))

pub put_at-cell :
    (s : Screen) (c : ℕ)
    → IsScreen s
    → s.curr_y ≤ s.scroll_max_y
    → put_at s.curr_x s.curr_y c s ≡ set_cell (s.curr_y * 80 + s.curr_x) (attributed c) s
put_at-cell s c i low =
    let x : leb s.curr_x s.max_x ≡ true =
      ground (arith, i.right, i.region.sides.right, i.region.max_x) in
    let y : leb s.curr_y s.max_y ≡ true = ground (arith, i.region.bottom, i.region.max_y) in
    rw (x, y)
      (ap (λ a. set_cell a (attributed c) s)
        (omega (arith, i.right, i.region.sides.right, i.region.bottom)))

new_line-Kept : (s : Screen) → IsScreen s → s.curr_y ≤ s.scroll_max_y → Kept s (new_line s)
new_line-Kept s i low =
    let n = s.scroll_max_x + 1 - s.curr_x in
    let f = blanked n (s.curr_y * 80 + s.curr_x) s.cell in
    let e =
      erase_lem n s.curr_x s.curr_y s (omega (arith, i.right, i.region.sides.right, i.region.max_x))
        (omega (arith, i.region.max_x)) (omega (arith, i.region.bottom, i.region.max_y))
        (omega (arith, i.region.max_y)) in
    subst (λ t. Kept s (next_line t)) (sym e)
      (placed-Kept s f s.scroll_min_x (add32 s.curr_y 1) i (omega arith) i.region.sides.order
        (omega (arith, i.top, i.region.bottom)) (omega (arith, i.region.bottom))
        λ j o. ground (arith, i.left, i.right, i.top, i.region.sides.right))

advance-Kept :
    (s : Screen) (f : ℕ → ℕ)
    → IsScreen s
    → s.curr_y ≤ s.scroll_max_y
    → ((j : ℕ) → inside s j ≡ false → f j ≡ s.cell j)
    → Kept s (advance (with_cells f s))
advance-Kept s f i low out = elim (Bool-cases (ltb s.scroll_max_x (add32 s.curr_x 1))) [
  | inl t ↦ rw t (
      placed-Kept s f s.scroll_min_x (add32 s.curr_y 1) i (omega arith) i.region.sides.order
        (omega (arith, i.top, i.region.bottom)) (omega (arith, i.region.bottom)) out)
  | inr t ↦ rw t (
      placed-Kept s f (add32 s.curr_x 1) s.curr_y i
        (omega (arith, i.left, i.right, i.region.sides.right)) (ground arith) i.top i.below out)
]

put-Kept :
    (s : Screen) (c : ℕ)
    → IsScreen s
    → s.curr_y ≤ s.scroll_max_y
    → Kept s (advance (put_at s.curr_x s.curr_y c s))
put-Kept s c i low =
    let a = s.curr_y * 80 + s.curr_x in
    subst (λ t. Kept s (advance t)) (sym (put_at-cell s c i low))
      (advance-Kept s (set_cell a (attributed c) s).cell i low λ j o.
        rw (ne→eqb j a (cell_inside s s.curr_x s.curr_y j i.region i.left i.right i.top low o))
          refl)

pub typed-Kept : (c : ℕ) (s : Screen) → IsScreen s → s.curr_y ≤ s.scroll_max_y → Kept s (typed c s)
typed-Kept c s i low = elim (Bool-cases (bit_and c 0xff == 10)) [
  | inl t ↦ rw t (new_line-Kept s i low)
  | inr t ↦ elim (Bool-cases (bit_and c 0xff == 13)) [
    | inl u ↦
        rw (t, u)
          (placed-Kept s s.cell s.scroll_min_x s.curr_y i (omega arith) i.region.sides.order i.top
            i.below λ j o. refl)
    | inr u ↦ rw (t, u) (put-Kept s c i low)
  ]
]
