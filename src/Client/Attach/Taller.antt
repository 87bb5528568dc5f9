-- ===== src/Client/Attach/Taller.antt =====
-- A client that attaches in a higher window than the one that detached: `pane_create` makes the pane
-- as high as the window, `grid_deserialize` makes the grid as high as it was.
use mini_tmux.Base.{Option}
