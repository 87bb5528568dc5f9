-- ===== src/Render/Pane.antt =====
-- What the terminal shows after `render_pane` of render.c.
use mini_tmux.Base.{
  ℕ, zero, suc, ◌+◌, ◌-◌, ◌≤◌, ◌<◌, ◌≡◌, refl, List, [], ◌∷◌, ◌++◌, none, some, Bool, true, false,
  ltb, leb, if◌then◌else◌, arith, length, take, drop, slice, All, add32, ap, ap₂, ◌∙◌, sym, subst,
  leb→le, length-drop,
}
use mathlib.Core.Option.{some-injective}
use mini_tmux.Grid.{Cell, Grid, Line, null, in_cells, in_history, get_display_line}
use mini_tmux.Grid.History.{IsValid}
use mini_tmux.Grid.Log.{Logged, line_cells, output_line, display_shows_output}
use mini_tmux.Window
use mini_tmux.Render.{
  Out, hide_cursor, move, reset, Attrs, first_attrs, pointed, render_row, render_rows, render_pane,
  place_cursor,
}
use mini_tmux.Render.Screen.{
  Pen, plain, pen_of, Paint, cursor, at, pen_after_all, paint, paint-append, pen_after_all-append,
  glyphs, HasText, Shown, draw_cells-Shown,
}

pub All-drop : (P : Cell → Type 0) (n : ℕ) (cs : List Cell) → All P cs → All P (drop n cs)
All-drop P zero cs h = h
All-drop P (suc n) [] h = h
All-drop P (suc n) (c ∷ cs) h = All-drop P n cs h.1

-- The cells that a pointer to a line inside the arrays leads to.
record Pointed (g : Grid) (l : Line) (xs : List Cell) : Type 0 where
  cs : List Cell
  found : pointed g l ≡ some cs
  long : g.width ≤ length cs
  line : take g.width cs ≡ xs
  texts : All HasText cs

if_some :
    (b : Bool) (xs ys : List Cell)
    → (if b then some xs else none) ≡ some ys
    → (b ≡ true) × (xs ≡ ys)
if_some true xs ys e = (refl, some-injective xs ys e)
if_some false xs ys e = absurd (cc)

drop_Pointed :
    (o w : ℕ) (cs xs : List Cell)
    → (if leb (o + w) (length cs) then some (slice o w cs) else none) ≡ some xs
    → (w ≤ length (drop o cs)) × (take w (drop o cs) ≡ xs)
unfolding slice
drop_Pointed o w cs xs e =
    let (fits, same) = if_some (leb (o + w) (length cs)) (slice o w cs) xs e in
    (omega (arith, leb→le (o + w) (length cs) fits, length-drop o cs), same)

line_cells-Pointed :
    (g : Grid) (ring : List Cell) (l : Line) (xs : List Cell)
    → g.history_cells ≡ some ring
    → All HasText g.cells
    → All HasText ring
    → line_cells g l ≡ some xs
    → Pointed g l xs
unfolding line_cells pointed
line_cells-Pointed g ring null xs a t u e = absurd (cc)
line_cells-Pointed g ring (in_cells o) xs a t u e =
    let (long, same) = drop_Pointed o g.width g.cells xs e in
    record {
      cs = drop o g.cells;
      found = refl;
      long = long;
      line = same;
      texts = All-drop HasText o g.cells t;
    }
line_cells-Pointed g ring (in_history o) xs a t u e =
    let (long, same) = drop_Pointed o g.width ring xs (rw a at e) in
    record {
      cs = drop o ring;
      found = rw a refl;
      long = long;
      line = same;
      texts = All-drop HasText o ring u;
    }

-- row `y` of a pane that shows `cs` there, and `n` rows from row `y` on
abbrev pub row_view : Window.Pane → ℕ → List Cell → List Paint
row_view p y cs = at (add32 (add32 p.yoff y) 1) (add32 p.xoff 1) ∷ glyphs 0 cs

unfoldable pub rows_view : Window.Pane → (ℕ → List Cell) → ℕ → ℕ → List Paint
rows_view p line y zero = []
rows_view p line y (suc n) = row_view p y (line y) ++ rows_view p line (suc y) n

-- the cursor after the rows
abbrev pub cursor_view : Window.Pane → List Paint
cursor_view p =
    if ltb 0 p.grid.scroll_offset
    then cursor false ∷ []
    else at (add32 (add32 p.yoff p.cy) 1) (add32 (add32 p.xoff p.cx) 1) ∷ cursor true ∷ []

render_row-Shown :
    (p : Window.Pane) (a : Attrs) (y : ℕ) (xs : List Cell)
    → p.sx ≡ p.grid.width
    → Pointed p.grid (get_display_line p.grid y) xs
    → (r : List Out × Attrs) × (render_row p a y ≡ some r) × Shown a (row_view p y xs) r
unfolding render_row paint pen_after_all
render_row-Shown p a y xs w q =
    let (r, e, s) =
      draw_cells-Shown a 0 p.sx q.cs (subst (λ n. n ≤ length q.cs) (sym w) q.long) q.texts in
    (
      (move (add32 (add32 p.yoff y) 1) (add32 p.xoff 1) ∷ r.0, r.1),
      rw (q.found, e, render_row) refl,
      record {
        shows =
            ap (λ v. at (add32 (add32 p.yoff y) 1) (add32 p.xoff 1) ∷ v)
              (s.shows ∙ ap (glyphs 0) (ap (λ n. take n q.cs) w ∙ q.line));
        pen = s.pen;
      },
    )

-- The writes of one part, then those of another.
pub Shown-append :
    (a : Attrs) (v v' : List Paint) (r r' : List Out × Attrs)
    → Shown a v r
    → Shown r.1 v' r'
    → Shown a (v ++ v') (r.0 ++ r'.0, r'.1)
Shown-append a v v' r r' s s' = record {
  shows =
      paint-append (pen_of a) r.0 r'.0
      ∙ ap₂ (λ x y. x ++ y) s.shows (ap (λ p. paint p r'.0) s.pen ∙ s'.shows);
  pen = pen_after_all-append (pen_of a) r.0 r'.0 ∙ (ap (λ p. pen_after_all p r'.0) s.pen ∙ s'.pen);
}

render_rows-suc :
    (p : Window.Pane) (a : Attrs) (y n : ℕ) (r r' : List Out × Attrs)
    → render_row p a y ≡ some r
    → render_rows p r.1 (suc y) n ≡ some r'
    → render_rows p a y (suc n) ≡ some (r.0 ++ r'.0, r'.1)
unfolding render_rows
render_rows-suc p a y n r r' e e' = rw (e, e', render_rows) refl

render_rows-Shown :
    (p : Window.Pane) (line : ℕ → List Cell)
    → p.sx ≡ p.grid.width
    → (a : Attrs) (y n : ℕ)
    → ((i : ℕ) → i < y + n → Pointed p.grid (get_display_line p.grid i) (line i))
    → (r : List Out × Attrs) × (render_rows p a y n ≡ some r) × Shown a (rows_view p line y n) r
unfolding render_rows rows_view paint pen_after_all
render_rows-Shown p line w a y zero q = (([], a), refl, record { shows = refl; pen = refl })
render_rows-Shown p line w a y (suc n) q =
    let (r, e, s) = render_row-Shown p a y (line y) w (q y (omega arith)) in
    let (r', e', s') = render_rows-Shown p line w r.1 (suc y) n (λ i h. q i (omega arith)) in
    (
      (r.0 ++ r'.0, r'.1),
      render_rows-suc p a y n r r' e e',
      Shown-append a (row_view p y (line y)) (rows_view p line (suc y) n) r r' s s',
    )

-- what the terminal shows of a pane whose lines are `line`
abbrev pub pane_view : Window.Pane → (ℕ → List Cell) → List Paint
pane_view p line = cursor false ∷ (rows_view p line 0 p.sy ++ cursor_view p)

-- A pane of its grid's size, whose grid is valid, holds the log and has only cells with texts.
pub record Renderable (p : Window.Pane) (ring : List Cell) (log : List (List Cell)) : Type 0 where
  pub valid : IsValid p.grid ring
  pub logged : Logged p.grid ring log
  pub width_same : p.sx ≡ p.grid.width
  pub height_same : p.sy ≡ p.grid.height
  pub screen_texts : All HasText p.grid.cells
  pub ring_texts : All HasText ring

rest_view :
    (scrolled : Bool) (p : Window.Pane) (pen : Pen)
    → paint pen (reset ∷ (if scrolled then hide_cursor ∷ [] else place_cursor p)) ≡ (
        if scrolled
        then cursor false ∷ []
        else at (add32 (add32 p.yoff p.cy) 1) (add32 (add32 p.xoff p.cx) 1) ∷ cursor true ∷ [])
unfolding paint
rest_view true p pen = refl
rest_view false p pen = refl

-- `render_pane` accesses only memory inside the arrays, and what it writes, attributes only where
-- they change, shows in each row of the pane the line of the terminal's whole output that lies
-- `scroll_offset` lines back, each cell with its own attributes, and the cursor at its place or, in
-- the history, hidden.
pub render_pane-shows :
    (p : Window.Pane) (ring : List Cell) (log : List (List Cell))
    → Renderable p ring log
    → (out : List Out) × (render_pane p ≡ some out)
      × (paint plain out
          ≡ pane_view p
              (λ y. output_line p.grid log (p.grid.history_count - p.grid.scroll_offset + y)))
unfolding render_pane paint
render_pane-shows p ring log v =
    let line =
      λ (y : ℕ). output_line p.grid log (p.grid.history_count - p.grid.scroll_offset + y) in
    let (r, e, s) = render_rows-Shown p line v.width_same first_attrs 0 p.sy (λ i h.
      line_cells-Pointed p.grid ring (get_display_line p.grid i) (line i) v.valid.allocated
        v.screen_texts v.ring_texts
        (display_shows_output v.valid i v.logged (omega (arith, v.height_same)))) in
    let rest = reset ∷ (if ltb 0 p.grid.scroll_offset then hide_cursor ∷ [] else place_cursor p) in
    (
      hide_cursor ∷ reset ∷ (r.0 ++ rest),
      rw (e, render_pane) refl,
      ap (λ v. cursor false ∷ v)
          (paint-append plain r.0 rest
            ∙ ap₂ (λ x y. x ++ y) s.shows
                (rest_view (ltb 0 p.grid.scroll_offset) p (pen_after_all plain r.0))),
    )
