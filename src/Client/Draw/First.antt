-- ===== src/Client/Draw/First.antt =====
-- What the terminal shows after the first drawing of client_main of client.c.
use mini_tmux.Base.{
  ℕ, ◌+◌, ◌-◌, List, [], ◌∷◌, ◌++◌, ◌≡◌, refl, Option, some, Bool, true, false, if◌then◌else◌, ap,
  ◌∙◌, get_elem?, add32, append-nil,
}
use mini_tmux.Grid.{Cell}
use mini_tmux.Grid.Log.{output_line}
use mini_tmux.Window.{Pane}
use mini_tmux.Render.{Out, clear, home, alternate_screen, render_pane, render_pane_borders}
use mini_tmux.Render.Screen.{plain, Paint, to_home, cleared, paint, pen_after_all}
use mini_tmux.Render.Pane.{Renderable, pane_view, render_pane-shows}
use mini_tmux.Render.Status.{BarTexts, render_status_bar, bar_line, bar_mark, display_width}
use mini_tmux.Client.{Client}
use mini_tmux.Client.Draw.{draw_pane, draw_panes, draw_bar, move_cursor, first_draw}
use mini_tmux.Client.Draw.Parts.{
  Drawn, Drawn-append, render_pane-pen, borders-Drawn, bar_line-Drawn, bar_view, border_view,
  cursor_place,
}

-- Panes that can be drawn, with the lines that each shows: those of its output that lie
-- `scroll_offset` lines back.
pub data AllRenderable : List Pane → List (ℕ → List Cell) → Type 0 where
  none_left : AllRenderable [] []
  renderable :
      {p : Pane} {ring : List Cell} {log : List (List Cell)} {ps : List Pane}
      {ls : List (ℕ → List Cell)}
      → Renderable p ring log
      → AllRenderable ps ls
      → AllRenderable
          (p ∷ ps)
          ((λ y. output_line p.grid log (p.grid.history_count - p.grid.scroll_offset + y)) ∷ ls)

-- what the panes show, with the borders between them
unfoldable pub panes_view : List Pane → List (ℕ → List Cell) → List Paint
panes_view [] ls = []
panes_view (p ∷ ps) [] = []
panes_view (p ∷ []) (l ∷ ls) = pane_view p l
panes_view (p ∷ q ∷ ps) (l ∷ ls) = (pane_view p l ++ border_view p) ++ panes_view (q ∷ ps) ls

-- the writes of one part of the drawing, and what they show
record Draws (o : Option (List Out)) (view : List Paint) : Type 0 where
  out : List Out
  made : o ≡ some out
  drawn : Drawn out view

draw_pane-made :
    (followed : Bool) (p : Pane) (out : List Out)
    → render_pane p ≡ some out
    → draw_pane followed p ≡ some (out ++ (if followed then render_pane_borders p else []))
unfolding draw_pane
draw_pane-made followed p out e = rw (e, draw_pane) refl

draw_pane-Draws :
    (p : Pane) {ring : List Cell} {log : List (List Cell)}
    → Renderable p ring log
    → Draws (draw_pane true p) (
        pane_view p (λ y. output_line p.grid log (p.grid.history_count - p.grid.scroll_offset + y))
        ++ border_view p)
draw_pane-Draws p {ring} {log} v =
    let (out, e, shows) = render_pane-shows p ring log v in
    record {
      out = out ++ render_pane_borders p;
      made = draw_pane-made true p out e;
      drawn =
          Drawn-append (record { shows = shows; pen = render_pane-pen p out e }) (borders-Drawn p);
    }

last_pane-Draws :
    (p : Pane) {ring : List Cell} {log : List (List Cell)}
    → Renderable p ring log
    → Draws (draw_pane false p) (
        pane_view p (λ y. output_line p.grid log (p.grid.history_count - p.grid.scroll_offset + y)))
last_pane-Draws p {ring} {log} v =
    let (out, e, shows) = render_pane-shows p ring log v in
    record {
      out = out;
      made = draw_pane-made false p out e ∙ ap some (append-nil out);
      drawn = record { shows = shows; pen = render_pane-pen p out e };
    }

draw_panes_cons :
    (p q : Pane) (ps : List Pane) (a b : List Out)
    → draw_pane true p ≡ some a
    → draw_panes (q ∷ ps) ≡ some b
    → draw_panes (p ∷ q ∷ ps) ≡ some (a ++ b)
unfolding draw_panes
draw_panes_cons p q ps a b e e' = rw (e, e', draw_panes) refl

draw_panes-Draws :
    {ps : List Pane} {ls : List (ℕ → List Cell)}
    → AllRenderable ps ls
    → Draws (draw_panes ps) (panes_view ps ls)
unfolding draw_panes panes_view paint pen_after_all
draw_panes-Draws none_left = record {
  out = [];
  made = refl;
  drawn = record { shows = refl; pen = refl };
}
draw_panes-Draws (renderable {p} v none_left) = last_pane-Draws p v
draw_panes-Draws (renderable {p} v (renderable {p = q} {ps = ps} v' rest)) =
    let d = draw_pane-Draws p v in
    let ds = draw_panes-Draws (renderable {p = q} {ps = ps} v' rest) in
    record {
      out = d.out ++ ds.out;
      made = draw_panes_cons p q ps d.out ds.out d.made ds.made;
      drawn = Drawn-append d.drawn ds.drawn;
    }

first_draw-made :
    (t : BarTexts) (c : Client) (p : Pane) (bar panes : List Out)
    → get_elem? c.panes c.pane ≡ some p
    → draw_bar t c p ≡ some bar
    → draw_panes c.panes ≡ some panes
    → first_draw t c
      ≡ some (alternate_screen ∷ clear ∷ home ∷ (bar ++ (panes ++ (move_cursor p ∷ []))))
unfolding first_draw
first_draw-made t c p bar panes a b d = rw (a, b, d, first_draw) refl

move_cursor-Drawn : (p : Pane) → Drawn (move_cursor p ∷ []) (cursor_place p ∷ [])
unfolding paint pen_after_all
move_cursor-Drawn p = record { shows = refl; pen = refl }

-- A client whose panes can be drawn, with an active pane and texts of the status bar that end with
-- whole characters, draws itself in full on the alternate screen: the screen is cleared, the bar has
-- the row below the panes, every pane shows in each of its rows the line of its output that lies
-- `scroll_offset` lines back, the borders stand between the panes, and the cursor ends in the active
-- pane.
pub first_draw-shows :
    (t : BarTexts) (c : Client) (p : Pane) (w : ℕ) (m : List Out × ℕ) {ls : List (ℕ → List Cell)}
    → AllRenderable c.panes ls
    → get_elem? c.panes c.pane ≡ some p
    → display_width 0 t.window_name ≡ some w
    → bar_mark t p ≡ some m
    → (out : List Out) × (first_draw t c ≡ some out)
      × (paint plain out
          ≡ cleared
            ∷ to_home
            ∷ (bar_view t c.ws.ws_row c.ws.ws_col (add32 (add32 2 w) m.1) p m.0
                ++ (panes_view c.panes ls ++ (cursor_place p ∷ []))))
unfolding render_status_bar paint
first_draw-shows t c p w m all at_pane name mark =
    let panes = draw_panes-Draws all in
    let used = add32 (add32 2 w) m.1 in
    let bar = bar_line t c.ws.ws_row c.ws.ws_col used p m.0 in
    let shown =
      Drawn-append (bar_line-Drawn t c.ws.ws_row c.ws.ws_col used p m.0)
        (Drawn-append panes.drawn (move_cursor-Drawn p)) in
    (
      alternate_screen ∷ clear ∷ home ∷ (bar ++ (panes.out ++ (move_cursor p ∷ []))),
      first_draw-made t c p bar panes.out at_pane (rw (name, mark, render_status_bar) refl)
          panes.made,
      ap (λ v. cleared ∷ to_home ∷ v) shown.shows,
    )
