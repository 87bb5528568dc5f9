-- ===== src/Client/Draw/Tests.antt =====
-- Clients with one pane; the theorems about what is drawn at them.
use mini_tmux.Base.{◌+◌, ◌-◌, ◌≡◌, refl, List, [], ◌∷◌, ◌++◌, none, some, false, true, add32}
use mini_tmux.Render.{Out, text, main_screen}
use mini_tmux.Render.Screen.{plain, paint, cleared, to_home}
use mini_tmux.Render.Status.{BarTexts, bar_line, bar_mark, render_status_bar, display_width}
use mini_tmux.Render.Tests
use mini_tmux.Render.Tests.{pane-Renderable}
use mini_tmux.Window.{Pane}
use mini_tmux.Grid.Log.{output_line}
use mini_tmux.Grid.Tests.{grid, log}
use mini_tmux.Client.{Client, act, restored_mode, st_exiting, act_child_exit}
use mini_tmux.Client.Machine.{dispatch, find_transition, take_transition, run_action}
use mini_tmux.Client.Loop.{Ready, ready, read_panes, serve_fds}
use mini_tmux.Client.Tests.{client, answers, pane}
use mini_tmux.Client.Draw.{
  first_draw, loop_draw, draw_rest, draw_reads, finish_draw, move_cursor, draw_bar,
}
use mini_tmux.Client.Draw.Parts.{bar_view, cursor_place}
use mini_tmux.Client.Draw.First.{panes_view, renderable, none_left, first_draw-shows}
use mini_tmux.Client.Draw.Cursor.{CursorAtEnd}
use mini_tmux.Client.Draw.Iteration.{loop_draw-CursorAtEnd, loop_draw_after_close}

abbrev texts : BarTexts
texts = record { window_name = b'w' ∷ []; history_mark = b'h' ∷ []; version = b'v' ∷ [] }

-- a client that shows the history of its pane
abbrev reading_client : Client
reading_client = record client { panes = Tests.pane ∷ []; pane = 0 }

first_draw-shows_example :
    (out : List Out) × (first_draw texts reading_client ≡ some out)
    × (paint plain out
        ≡ cleared
          ∷ to_home
          ∷ (bar_view texts client.ws.ws_row client.ws.ws_col
                (add32 (add32 2 1) 1)
                Tests.pane
                (text (b'h' ∷ []) ∷ [])
              ++ (panes_view (Tests.pane ∷ []) ((λ y. output_line grid log (3 - 1 + y)) ∷ [])
                  ++ (cursor_place Tests.pane ∷ []))))
unfolding display_width bar_mark
first_draw-shows_example =
    first_draw-shows texts reading_client Tests.pane 1 (text (b'h' ∷ []) ∷ [], 1)
      (renderable pane-Renderable none_left) refl refl refl

abbrev quiet : Ready
quiet = record { selected = ready; server_closed = false; pty = λ fd. none; stdin_ready = false }

abbrev bar : List Out
bar = bar_line texts client.ws.ws_row client.ws.ws_col (add32 (add32 2 1) 0) pane []

loop_draw-CursorAtEnd_example :
    (serve_fds answers quiet client ≡ some client)
    × CursorAtEnd client (record { visible = false; place = none }) (bar ++ (move_cursor pane ∷ []))
unfolding loop_draw draw_rest draw_reads read_panes finish_draw render_status_bar display_width
    bar_mark
loop_draw-CursorAtEnd_example =
    loop_draw-CursorAtEnd texts answers quiet client client (bar ++ (move_cursor pane ∷ []))
      (record { visible = false; place = none }) refl refl

abbrev closing : Ready
closing = record quiet { server_closed = true }

abbrev left_client : Client
left_client = record (act (record client { child_exited = true }) (restored_mode ∷ [])) {
  state = st_exiting;
}

loop_draw_after_close_example :
    (p : Pane) × (bar' : List Out) × (drawn : List Out) × (draw_bar texts left_client p ≡ some bar')
    × (main_screen ∷ (bar ++ (move_cursor pane ∷ []))
        ≡ main_screen ∷ (drawn ++ (bar' ++ (move_cursor p ∷ []))))
unfolding loop_draw draw_rest draw_reads read_panes finish_draw render_status_bar display_width
    bar_mark dispatch find_transition take_transition run_action act_child_exit
loop_draw_after_close_example =
    loop_draw_after_close texts answers closing client left_client left_client
      (main_screen ∷ (bar ++ (move_cursor pane ∷ []))) refl refl refl refl
