-- ===== src/Render/Tests.antt =====
-- The theorems about rendering at a pane of one column and two rows, scrolled back by one line.
use mini_tmux.Base.{ℕ, ◌+◌, ◌-◌, ◌≡◌, refl, List, [], ◌∷◌, ◌++◌, some, arith, All, add32, pos}
use mini_tmux.Grid.Log.{output_line}
use mini_tmux.Grid.Tests.{letter, ring, grid, log, grid-IsValid, grid-Logged}
use mini_tmux.Window
use mini_tmux.Render.{Out, render_pane, cell_text, up_to_nul, shown_text}
use mini_tmux.Render.Screen.{plain, to_home, cleared, at, paint, HasText}
use mini_tmux.Render.Pane.{pane_view, Renderable, render_pane-shows}
use mini_tmux.Input.Replay.{sync_vterm_from_grid, screen_view, sync_vterm_from_grid-shows}

abbrev pub pane : Window.Pane
pane = record {
  grid = grid;
  cx = 0;
  cy = 1;
  id = 7;
  master_fd = pos 5;
  sx = 1;
  sy = 2;
  xoff = 2;
  yoff = 0;
}

letter-HasText : (n : ℕ) → shown_text (letter n) ≡ some (n ∷ []) → HasText (letter n)
letter-HasText n e = record { shown = n ∷ []; ends = e }

pub grid-HasText : All HasText grid.cells
unfolding cell_text up_to_nul
grid-HasText = (letter-HasText b'd' refl, (letter-HasText b'e' refl, tt))

pub ring-HasText : All HasText ring
unfolding cell_text up_to_nul
ring-HasText = (letter-HasText b'c' refl, (letter-HasText b'b' refl, tt))

pub pane-Renderable : Renderable pane ring log
pane-Renderable = record {
  valid = grid-IsValid;
  logged = grid-Logged;
  width_same = refl;
  height_same = refl;
  screen_texts = grid-HasText;
  ring_texts = ring-HasText;
}

render_pane-shows_example :
    (out : List Out) × (render_pane pane ≡ some out)
    × (paint plain out ≡ pane_view pane (λ y. output_line grid log (3 - 1 + y)))
render_pane-shows_example = render_pane-shows pane ring log pane-Renderable

sync_vterm_from_grid-shows_example :
    (out : List Out) × (sync_vterm_from_grid pane ≡ some out)
    × (paint plain out
        ≡ to_home ∷ cleared ∷ (screen_view grid 0 2 ++ (at (add32 1 1) (add32 0 1) ∷ [])))
sync_vterm_from_grid-shows_example = sync_vterm_from_grid-shows pane refl (omega arith) grid-HasText
