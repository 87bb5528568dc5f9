-- ===== src/Window/Tests.antt =====
-- A pane of one row of three columns whose history has one line; the theorems about panes at it.
use mini_tmux.Base.{ℕ, ◌≤◌, ◌≡◌, refl, [], ◌∷◌, some, none, arith, replicate, false, pos}
use mini_tmux.Grid.{Grid, zero_cell}
use mini_tmux.Window.{Color, ScreenCell, Pane, Vterm, cp_to_utf8, screen_sb_pushline, pane_resize}
use mini_tmux.Window.History.{HasRoom, screen_sb_pushline_overflow}
use mini_tmux.Window.Resize.{IsPane, Resized, pane_resize-Resized}
use mini_tmux.Input.{Parsed, pane_input, unicode_to_utf8}
use mini_tmux.Input.Utf8.{unicode_to_utf8-agrees}
use mini_tmux.Input.Sync.{Mirrors, pane_input-Mirrors}

abbrev plain : Color
plain = record {
  indexed = false;
  default_fg = false;
  default_bg = false;
  red = 0;
  green = 0;
  blue = 0;
}

abbrev letter : ScreenCell
letter = record {
  char0 = b'x';
  width = 1;
  fg = plain;
  bg = plain;
  bold = false;
  underline = false;
  italic = false;
  reverse = false;
}

abbrev grid : Grid
grid = record {
  cells = replicate 3 zero_cell;
  width = 3;
  height = 1;
  history_cells = some (replicate 3 zero_cell);
  history_size = 1;
  history_count = 0;
  scroll_offset = 0;
}

abbrev pane : Pane
pane = record {
  grid = grid;
  cx = 2;
  cy = 0;
  id = 0;
  master_fd = pos 5;
  sx = 3;
  sy = 1;
  xoff = 0;
  yoff = 0;
}

pane-IsPane : IsPane pane
pane-IsPane = record {
  screen_fits = refl;
  screen_small = omega arith;
  width_same = refl;
  height_same = refl;
}

room : (w : ℕ) → w ≤ 3 → HasRoom grid w
room w h = record {
  ring = replicate 3 zero_cell;
  allocated = refl;
  size_pos = omega arith;
  room = omega arith;
  room_small = omega arith;
}

-- The grid after it was widened to four columns.
abbrev wide : Grid
wide = record grid { cells = replicate 4 zero_cell; width = 4 }

screen_sb_pushline_overflow_example : screen_sb_pushline (replicate 4 letter) wide ≡ none
screen_sb_pushline_overflow_example =
    screen_sb_pushline_overflow (replicate 4 letter) wide (replicate 3 zero_cell) refl (omega arith)
      refl (omega arith) (omega arith) (omega arith)

-- libvterm pushes one line when the pane shrinks
abbrev vterm : Vterm
vterm = record { scrolled_off = λ p w h. (letter ∷ letter ∷ letter ∷ []) ∷ [] }

pane_resize-Resized_example :
    (p' : Pane) × (pane_resize vterm pane 2 1 ≡ some p') × Resized pane 2 1 p'
pane_resize-Resized_example =
    pane_resize-Resized vterm pane 2 1 pane-IsPane (omega arith) (omega arith) (omega arith)
      (room 2 (omega arith))

abbrev parsed : Parsed
parsed = record {
  scrolled_off = (letter ∷ letter ∷ letter ∷ []) ∷ [];
  response = [];
  screen = λ y x. letter;
  cursor_col = 1;
  cursor_row = 0;
}

pane_input-Mirrors_example :
    (p' : Pane) × (pane_input parsed pane ≡ some p') × Mirrors parsed pane p'
pane_input-Mirrors_example = pane_input-Mirrors parsed pane pane-IsPane (room 3 (omega arith))

unicode_to_utf8-agrees_example : unicode_to_utf8 0x4E2D ≡ cp_to_utf8 0x4E2D
unicode_to_utf8-agrees_example = unicode_to_utf8-agrees 0x4E2D (omega arith)
