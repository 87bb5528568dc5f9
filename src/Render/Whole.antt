-- ===== src/Render/Whole.antt =====
-- render.c: `render_screen`, and the functions on `struct screen`, which the rest of the program does
-- not call. A text is its bytes without the NUL, NULL is `none`.
use mini_tmux.Base.{ℕ, ◌-◌, ◌^◌, List, [], ◌∷◌, ◌++◌, Option, none, some, ◌>>=◌, ℤ, minus_one}
use mini_tmux.Window
use mini_tmux.Render.{Out, hide_cursor, render_pane}

-- `struct screen`
pub record Screen : Type 0 where
  pub title : Option (List ℕ)
  pub path : Option (List ℕ)
  pub cx : ℕ
  pub cy : ℕ
  pub color : ℤ
  pub saved_cx : ℕ
  pub saved_cy : ℕ

unfoldable pub render_init : Screen → Screen
render_init s = record s { title = some []; path = none; color = minus_one }

-- UINT_MAX where no place is saved
unfoldable pub screen_reinit : Screen → Screen
screen_reinit s = record s { cx = 0; cy = 0; saved_cx = 2 ^ 32 - 1; saved_cy = 2 ^ 32 - 1 }

unfoldable pub render_cleanup : Screen → Screen
render_cleanup s = record s { title = none; path = none }

-- the loop over the panes
unfoldable pub render_all : List Window.Pane → Option (List Out)
render_all [] = some []
render_all (p ∷ ps) = do out ← render_pane p; rest ← render_all ps; some (out ++ rest)

-- `render_screen`, of the panes of the active window
unfoldable pub render_screen : List Window.Pane → Option (List Out)
render_screen ps = do out ← render_all ps; some (hide_cursor ∷ out)
