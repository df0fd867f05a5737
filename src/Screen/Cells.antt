-- ===== src/Screen/Cells.antt =====
-- What the loops of c_io.c over cells and lines leave in the video memory, in closed form.
use systems_os.Prelude.{
  ℕ, zero, suc, ◌+◌, ◌-◌, ◌*◌, ◌/◌, ◌%◌, ◌≤◌, ◌<◌, ◌≡◌, refl, Bool, true, false, ◌&&◌, arith, ◌==◌,
  ltb, leb, if◌then◌else◌, ap, ap₂, ◌∙◌, Bool-cases, inl, inr,
}
use systems_os.Screen.{
  Screen, video_addr, put_at, erase, blank, nchars, set_cell, blank_cells, copy_cells, blank_lines,
  copy_lines,
}

-- The screen with other contents.
abbrev pub with_cells : (ℕ → ℕ) → Screen → Screen
with_cells f s = record s { cell = f }

cells_ext : (s : Screen) (f g : ℕ → ℕ) → ((i : ℕ) → f i ≡ g i) → with_cells f s ≡ with_cells g s
cells_ext s f g e = ap (λ h. with_cells h s) {x = f} {y = g} (λ i j. e j i)

abbrev pub blanked : ℕ → ℕ → (ℕ → ℕ) → ℕ → ℕ
blanked n a f i = if leb a i && ltb i (a + n) then blank else f i

abbrev pub copied : ℕ → ℕ → ℕ → (ℕ → ℕ) → ℕ → ℕ
copied n from to f i = if leb to i && ltb i (to + n) then f (from + (i - to)) else f i

blank_cells-blanked : (n a : ℕ) (s : Screen) → blank_cells n a s ≡ with_cells (blanked n a s.cell) s
unfolding blank_cells
blank_cells-blanked zero a s = cells_ext s s.cell (blanked 0 a s.cell) λ i. ground arith
blank_cells-blanked (suc n) a s =
    blank_cells-blanked n (a + 1) (set_cell a blank s)
    ∙ cells_ext s (blanked n (a + 1) (set_cell a blank s).cell) (blanked (suc n) a s.cell)
        λ i. ground arith

copy_cells-copied :
    (n from to : ℕ) (s : Screen)
    → to ≤ from
    → copy_cells n from to s ≡ with_cells (copied n from to s.cell) s
unfolding copy_cells
copy_cells-copied zero from to s h = cells_ext s s.cell (copied 0 from to s.cell) λ i. ground arith
copy_cells-copied (suc n) from to s h =
    copy_cells-copied n (from + 1) (to + 1) (set_cell to (s.cell from) s) (omega arith)
    ∙ cells_ext s (copied n (from + 1) (to + 1) (set_cell to (s.cell from) s).cell)
        (copied (suc n) from to s.cell) λ i. grind arith

-- The scrolling region, from a line on.
abbrev pub in_lines : Screen → ℕ → ℕ → ℕ → Bool
in_lines s line n i =
    (leb line (i / 80) && ltb (i / 80) (line + n))
    && (leb s.scroll_min_x (i % 80) && leb (i % 80) s.scroll_max_x)

abbrev pub lines_blanked : Screen → ℕ → ℕ → (ℕ → ℕ) → ℕ → ℕ
lines_blanked s n line f i = if in_lines s line n i then blank else f i

abbrev pub lines_copied : Screen → ℕ → ℕ → ℕ → (ℕ → ℕ) → ℕ → ℕ
lines_copied s n line lines f i = if in_lines s line n i then f (i + lines * 80) else f i

-- The sides of the region are on the screen.
pub record HasSides (s : Screen) : Type 0 where
  pub order : s.scroll_min_x ≤ s.scroll_max_x
  pub right : s.scroll_max_x < 80

pub with_cells-HasSides : (s : Screen) (f : ℕ → ℕ) → HasSides s → HasSides (with_cells f s)
with_cells-HasSides s f h = record { order = h.order; right = h.right }

pub blank_lines_lem :
    (n line : ℕ) (s : Screen)
    → HasSides s
    → line + n ≤ 1000
    → blank_lines n line s ≡ with_cells (lines_blanked s n line s.cell) s
unfolding blank_lines
blank_lines_lem zero line s h b =
    cells_ext s s.cell (lines_blanked s 0 line s.cell) λ i. ground arith
blank_lines_lem (suc n) line s h b =
    let a = video_addr s.scroll_min_x line in
    ap (blank_lines n (line + 1)) (blank_cells-blanked (nchars s) a s)
    ∙ blank_lines_lem n (line + 1) (with_cells (blanked (nchars s) a s.cell) s)
        (with_cells-HasSides s (blanked (nchars s) a s.cell) h) (omega arith)
    ∙ cells_ext s (lines_blanked s n (line + 1) (blanked (nchars s) a s.cell))
        (lines_blanked s (suc n) line s.cell) λ i. ground (arith, h.order, h.right)

-- One line that is copied, by the lines and columns of the cells.
abbrev line_copied : ℕ → ℕ → ℕ → ℕ → (ℕ → ℕ) → ℕ → ℕ
line_copied lo hi line lines f i =
    if (i / 80 == line) && (leb lo (i % 80) && leb (i % 80) hi) then f (i + lines * 80) else f i

line_copied_lem :
    (f : ℕ → ℕ) (lo hi line lines i : ℕ)
    → lo ≤ hi
    → hi < 80
    → line + lines ≤ 1000
    → copied (hi - lo + 1) (video_addr lo (line + lines)) (video_addr lo line) f i
      ≡ line_copied lo hi line lines f i
line_copied_lem f lo hi line lines i h r b =
    elim (Bool-cases ((i / 80 == line) && (leb lo (i % 80) && leb (i % 80) hi))) [
      | inl t ↦
          let inside : leb (video_addr lo line) i && ltb i (video_addr lo line + (hi - lo + 1))
              ≡ true =
            ground arith in
          rw (inside, t) (ap f (ground arith))
      | inr t ↦
          let outside : leb (video_addr lo line) i && ltb i (video_addr lo line + (hi - lo + 1))
              ≡ false =
            ground arith in
          rw (outside, t) refl
    ]

abbrev columns : ℕ → ℕ → ℕ → Bool
columns lo hi x = leb lo x && leb x hi

lines_step :
    (f : ℕ → ℕ) (lo hi line n lines i : ℕ)
    → (if (leb (line + 1) (i / 80) && ltb (i / 80) (line + 1 + n)) && columns lo hi (i % 80)
        then line_copied lo hi line lines f (i + lines * 80)
        else line_copied lo hi line lines f i)
      ≡ (if (leb line (i / 80) && ltb (i / 80) (line + suc n)) && columns lo hi (i % 80)
          then f (i + lines * 80)
          else f i)
lines_step f lo hi line n lines i = ground arith

pub copy_lines_lem :
    (n line lines : ℕ) (s : Screen)
    → HasSides s
    → line + n + lines ≤ 1000
    → copy_lines n line lines s ≡ with_cells (lines_copied s n line lines s.cell) s
unfolding copy_lines
copy_lines_lem zero line lines s h b =
    cells_ext s s.cell (lines_copied s 0 line lines s.cell) λ i. ground arith
copy_lines_lem (suc n) line lines s h b =
    let from = video_addr s.scroll_min_x (line + lines) in
    let to = video_addr s.scroll_min_x line in
    let f = copied (nchars s) from to s.cell in
    ap (copy_lines n (line + 1) lines)
      (copy_cells-copied (nchars s) from to s (omega (arith, h.order, h.right)))
    ∙ copy_lines_lem n (line + 1) lines (with_cells f s) (with_cells-HasSides s f h) (omega arith)
    ∙ cells_ext s (lines_copied s n (line + 1) lines f) (lines_copied s (suc n) line lines s.cell)
        λ i.
          ap₂ (λ a b. if in_lines s (line + 1) n i then a else b)
            (line_copied_lem s.cell s.scroll_min_x s.scroll_max_x line lines (i + lines * 80)
              h.order h.right (omega arith))
            (line_copied_lem s.cell s.scroll_min_x s.scroll_max_x line lines i h.order h.right
              (omega arith))
          ∙ lines_step s.cell s.scroll_min_x s.scroll_max_x line n lines i

leb-true : (a b : ℕ) → a ≤ b → leb a b ≡ true
leb-true a b h = ground arith

-- A line's rest, or the whole screen, made blank.
pub erase_lem :
    (n x y : ℕ) (s : Screen)
    → x + n ≤ s.max_x + 1
    → s.max_x < 80
    → y ≤ s.max_y
    → s.max_y < 1000
    → erase n x y s ≡ with_cells (blanked n (y * 80 + x) s.cell) s
unfolding erase
erase_lem zero x y s b r v w = cells_ext s s.cell (blanked 0 (y * 80 + x) s.cell) λ i. ground arith
erase_lem (suc n) x y s b r v w =
    let here : put_at x y 32 s ≡ set_cell (y * 80 + x) blank s =
      rw (leb-true x s.max_x (omega arith), leb-true y s.max_y v)
        (ap (λ a. set_cell a blank s) (omega arith)) in
    ap (erase n (x + 1) y) here
    ∙ erase_lem n (x + 1) y (set_cell (y * 80 + x) blank s) (omega arith) r v w
    ∙ cells_ext s (blanked n (y * 80 + (x + 1)) (set_cell (y * 80 + x) blank s).cell)
        (blanked (suc n) (y * 80 + x) s.cell) λ i. ground arith
