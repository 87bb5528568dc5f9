-- ===== src/Client/Draw/Parts.antt =====
-- What the parts show that client.c draws: a pane, its border, and the status bar.
use mini_tmux.Base.{
  ℕ, zero, suc, ◌-◌, List, [], ◌∷◌, ◌++◌, ◌≡◌, refl, Option, none, some, Bool, true, false, ◌==◌,
  if◌then◌else◌, ap, ap₂, ◌∙◌, sym, subst, add32, ltb, append_assoc,
}
use mathlib.Core.Option.{some-injective}
use mini_tmux.Window.{Pane}
use mini_tmux.Render.{
  Out, hide_cursor, reset, bar_text, clear_line, place_cursor, render_pane, render_rows,
  render_pane_borders, border_rows, Attrs, first_attrs, space,
}
use mini_tmux.Render.Screen.{
  Pen, plain, Paint, cursor, line_cleared, at, painted, paint, pen_after_all, paint-append,
  pen_after_all-append,
}
use mini_tmux.Render.Status.{BarTexts, bar_line, fill}

-- what writes show on a terminal with the default pen, which they leave
pub record Drawn (out : List Out) (view : List Paint) : Type 0 where
  pub shows : paint plain out ≡ view
  pub pen : pen_after_all plain out ≡ plain

pub Drawn-append :
    {xs ys : List Out} {v w : List Paint} → Drawn xs v → Drawn ys w → Drawn (xs ++ ys) (v ++ w)
Drawn-append {xs} {ys} d e = record {
  shows =
      paint-append plain xs ys ∙ ap₂ (λ a b. a ++ b) d.shows (ap (λ p. paint p ys) d.pen ∙ e.shows);
  pen = pen_after_all-append plain xs ys ∙ (ap (λ p. pen_after_all p ys) d.pen ∙ e.pen);
}

-- the end of a pane's writes
rest_pen :
    (scrolled : Bool) (p : Pane) (pen : Pen)
    → pen_after_all pen (reset ∷ (if scrolled then hide_cursor ∷ [] else place_cursor p)) ≡ plain
unfolding pen_after_all
rest_pen true p pen = refl
rest_pen false p pen = refl

rendered_pen :
    (p : Pane) (o : Option (List Out × Attrs)) (out : List Out)
    → elim o [
      | none ↦ none
      | some (rows, _) ↦ some (
          hide_cursor
          ∷ reset
          ∷ (rows
              ++ (reset
                  ∷ (if ltb 0 p.grid.scroll_offset then hide_cursor ∷ [] else place_cursor p))))
    ]
      ≡ some out
    → pen_after_all plain out ≡ plain
unfolding pen_after_all
rendered_pen p none out e = absurd (cc)
rendered_pen p (some (rows, a)) out e =
    let tail = reset ∷ (if ltb 0 p.grid.scroll_offset then hide_cursor ∷ [] else place_cursor p) in
    subst (λ o. pen_after_all plain o ≡ plain)
      (some-injective (hide_cursor ∷ reset ∷ (rows ++ tail)) out e)
      (pen_after_all-append plain rows tail
        ∙ rest_pen (ltb 0 p.grid.scroll_offset) p (pen_after_all plain rows))

pub render_pane-pen :
    (p : Pane) (out : List Out) → render_pane p ≡ some out → pen_after_all plain out ≡ plain
unfolding render_pane
render_pane-pen p out e = rendered_pen p (render_rows p first_attrs 0 p.sy) out e

-- the border beside a pane, `n` rows from row `y` on
abbrev pub border_pen : Pen
border_pen = record plain { fg = some 4 }

unfoldable pub border_rows_view : Pane → ℕ → ℕ → List Paint
border_rows_view p y zero = []
border_rows_view p y (suc n) =
    at (add32 (add32 p.yoff y) 1) (add32 (add32 p.xoff p.sx) 1)
    ∷ painted border_pen bar_text
    ∷ border_rows_view p (suc y) n

-- the cursor at its place in the pane
abbrev pub cursor_place : Pane → Paint
cursor_place p = at (add32 (add32 p.yoff p.cy) 1) (add32 (add32 p.xoff p.cx) 1)

abbrev pub border_view : Pane → List Paint
border_view p = cursor false ∷ (border_rows_view p 0 p.sy ++ (cursor_place p ∷ cursor true ∷ []))

border_rows-Drawn : (p : Pane) (y n : ℕ) → Drawn (border_rows p y n) (border_rows_view p y n)
unfolding border_rows border_rows_view paint pen_after_all
border_rows-Drawn p y zero = record { shows = refl; pen = refl }
border_rows-Drawn p y (suc n) =
    let d = border_rows-Drawn p (suc y) n in
    record {
      shows =
          ap
            (λ v.
              at (add32 (add32 p.yoff y) 1) (add32 (add32 p.xoff p.sx) 1)
              ∷ painted border_pen bar_text
              ∷ v)
            d.shows;
      pen = d.pen;
    }

-- one write that leaves the pen
pub Drawn-cons :
    (o : Out) (v : Paint) {out : List Out} {view : List Paint}
    → Drawn (o ∷ []) (v ∷ [])
    → Drawn out view
    → Drawn (o ∷ out) (v ∷ view)
Drawn-cons o v d e = Drawn-append d e

pub borders-Drawn : (p : Pane) → Drawn (render_pane_borders p) (border_view p)
unfolding render_pane_borders paint pen_after_all
borders-Drawn p =
    Drawn-cons hide_cursor (cursor false) (record { shows = refl; pen = refl })
      (Drawn-append (border_rows-Drawn p 0 p.sy) (record { shows = refl; pen = refl }))

-- the pen of the status bar
abbrev pub bar_pen : Pen
bar_pen = record plain { fg = some 15; bg = some 4 }

-- What the status bar shows of a window of `rows` and `cols`, with the mark of which it is told: its
-- row, the name, the mark and the filling in the colours of the bar, and then the cursor in the pane,
-- unless that shows its history.
abbrev pub bar_view : BarTexts → ℕ → ℕ → ℕ → Pane → List Out → List Paint
bar_view t rows cols used p mark =
    cursor false
    ∷ at (add32 rows 1) 1
    ∷ painted bar_pen (b' ' ∷ (t.window_name ++ space))
    ∷ (paint bar_pen (mark ++ fill t.version cols used (cols - used))
        ++ (line_cleared
            ∷ (if p.grid.scroll_offset == 0 then cursor_place p ∷ cursor true ∷ [] else [])))

bar_tail :
    (live : Bool) (p : Pane) (pen : Pen)
    → (paint pen (clear_line ∷ reset ∷ (if live then place_cursor p else []))
        ≡ line_cleared ∷ (if live then cursor_place p ∷ cursor true ∷ [] else []))
      × (pen_after_all pen (clear_line ∷ reset ∷ (if live then place_cursor p else [])) ≡ plain)
unfolding paint pen_after_all
bar_tail true p pen = (refl, refl)
bar_tail false p pen = (refl, refl)

pub bar_line-Drawn :
    (t : BarTexts) (rows cols used : ℕ) (p : Pane) (mark : List Out)
    → Drawn (bar_line t rows cols used p mark) (bar_view t rows cols used p mark)
unfolding paint pen_after_all
bar_line-Drawn t rows cols used p mark =
    let filled = fill t.version cols used (cols - used) in
    let tail = clear_line ∷ reset ∷ (if p.grid.scroll_offset == 0 then place_cursor p else []) in
    let ends = bar_tail (p.grid.scroll_offset == 0) p (pen_after_all bar_pen (mark ++ filled)) in
    let first =
      cursor false ∷ at (add32 rows 1) 1 ∷ painted bar_pen (b' ' ∷ (t.window_name ++ space)) ∷ [] in
    record {
      shows =
          ap (λ v. first ++ v)
            (ap (paint bar_pen) (sym (append_assoc mark filled tail))
              ∙ (paint-append bar_pen (mark ++ filled) tail
                  ∙ ap (λ v. paint bar_pen (mark ++ filled) ++ v) ends.0));
      pen =
          ap (pen_after_all bar_pen) (sym (append_assoc mark filled tail))
          ∙ (pen_after_all-append bar_pen (mark ++ filled) tail ∙ ends.1);
    }
