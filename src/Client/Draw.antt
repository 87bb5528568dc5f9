-- ===== src/Client/Draw.antt =====
-- What client.c draws: at its start (client_main), in act_resize and act_pane_split, and in an
-- iteration of client_loop, as the writes of render.c.
pub mod Cursor
pub mod Iteration
pub mod Parts
pub mod First
mod Tests
use mini_tmux.Base.{
  ℕ, zero, suc, ◌+◌, List, [], ◌∷◌, ◌++◌, Option, none, some, ◌>>=◌, Bool, true, false, ◌&&◌, not,
  ltb, if◌then◌else◌, length, get_elem?, add32, is_nonneg,
}
use mini_tmux.Window.{Pane}
use mini_tmux.Render.{
  Out, move, clear, home, alternate_screen, main_screen, write_if, render_pane, render_pane_borders,
}
use mini_tmux.Render.Status.{BarTexts, render_status_bar}
use mini_tmux.Client.{Client, Answers, feed_pane}
use mini_tmux.Client.Machine.{dispatch_event, ev_eof_pty}
use mini_tmux.Client.Loop.{Ready, output, ended, again, read_panes, drop_pane, fit_panes}

-- one pane, and its border if another pane follows
unfoldable pub draw_pane : Bool → Pane → Option (List Out)
draw_pane followed p = do
  rows ← render_pane p
  some (rows ++ (if followed then render_pane_borders p else []))

-- the loop over the panes
unfoldable pub draw_panes : List Pane → Option (List Out)
draw_panes [] = some []
draw_panes (p ∷ []) = draw_pane false p
draw_panes (p ∷ q ∷ ps) = do
  first ← draw_pane true p
  rest ← draw_panes (q ∷ ps)
  some (first ++ rest)

-- `render_status_bar`, for the active pane
abbrev pub draw_bar : BarTexts → Client → Pane → Option (List Out)
draw_bar t c p = render_status_bar t c.ws.ws_row c.ws.ws_col p

-- the cursor moved to its place in the active pane
abbrev pub move_cursor : Pane → Out
move_cursor p = move (add32 (add32 p.yoff p.cy) 1) (add32 (add32 p.xoff p.cx) 1)

-- `client_main`, before its loop
unfoldable pub first_draw : BarTexts → Client → Option (List Out)
first_draw t c = do
  p ← get_elem? c.panes c.pane
  bar ← draw_bar t c p
  panes ← draw_panes c.panes
  some (alternate_screen ∷ clear ∷ home ∷ (bar ++ (panes ++ (move_cursor p ∷ []))))

-- `act_resize`, when the panes have their new sizes
unfoldable pub resize_draw : BarTexts → Client → Option (List Out)
resize_draw t c = do
  p ← get_elem? c.panes c.pane
  panes ← draw_panes c.panes
  bar ← draw_bar t c p
  some (clear ∷ home ∷ (panes ++ bar))

-- `act_pane_split`, when the new pane is there, and `client_loop`, when panes were removed
unfoldable pub redraw : BarTexts → Client → Option (List Out)
redraw t c = do
  p ← get_elem? c.panes c.pane
  bar ← draw_bar t c p
  panes ← draw_panes c.panes
  some (clear ∷ (bar ++ panes))

-- what is drawn while `read_panes` runs: each pane that has output
unfoldable pub draw_reads : Ready → ℕ → ℕ → Client → Option (List Out)
draw_reads r zero i c = some []
draw_reads r (suc n) i c =
    let later = λ (c' : Client). draw_reads r n (suc i) c' in
    let without = λ (c' : Client). draw_reads r n i c' in
    elim (get_elem? c.panes i) [
      | none ↦ none
      | some p ↦ elim (if is_nonneg p.master_fd then r.pty p.master_fd else none) [
        | none ↦ later c
        | some again ↦ later c
        | some (output v) ↦ elim (feed_pane v i c) [
          | none ↦ none
          | some c' ↦ do
            p' ← get_elem? c'.panes i
            out ← draw_pane (ltb (suc i) (length c'.panes)) p'
            rest ← later c'
            some (out ++ rest)
        ]
        | some ended ↦ elim (drop_pane i p c) [ none ↦ none | some c' ↦ without c' ]
      ]
    ]

-- the end of the drawing of an iteration: the status bar, and the cursor in its pane
unfoldable pub finish_draw : BarTexts → List Out → Client → Option (Client × List Out)
finish_draw t drawn c = elim (get_elem? c.panes c.pane) [
  | none ↦ none
  | some p ↦ elim (draw_bar t c p) [
    | none ↦ none
    | some bar ↦ some (c, drawn ++ (bar ++ (move_cursor p ∷ [])))
  ]
]

-- what is drawn when the panes were read, with what was drawn meanwhile and whether one was removed
unfoldable pub draw_rest :
    BarTexts → Answers → List Out → Client × Bool → Option (Client × List Out)
draw_rest t k drawn (c, removed) = do
  c' ← if removed && not c.child_exited then fit_panes k c else some c
  redrawn ← if removed && not c.child_exited then redraw t c' else some []
  finish_draw t (drawn ++ redrawn) c'

-- The client before the terminal is read, and what was drawn, in an iteration in which `select`
-- succeeded and the two signals are served. `act_child_exit` goes back to the main screen.
unfoldable pub loop_draw : BarTexts → Answers → Ready → Client → Option (Client × List Out)
loop_draw t k r c = do
  c' ← if r.server_closed then dispatch_event k ev_eof_pty c else some c
  reads ← draw_reads r (length c'.panes) 0 c'
  left ← read_panes r (length c'.panes) 0 false c'
  draw_rest t k (write_if c'.child_exited main_screen ++ reads) left
