-- ===== src/Input.antt =====
-- input.c: the cells of a pane from the screen of libvterm. Access outside the array of cells is
-- `none`; the shift and colour arithmetic is that of the code.
pub mod Sync
pub mod Utf8
pub mod Replay
use mini_tmux.Base.{
  ℕ, zero, suc, ◌+◌, ◌*◌, ◌/◌, ◌%◌, List, [], ◌∷◌, Option, none, some, Bool, ltb, leb, ◌==◌,
  if◌then◌else◌, length, set, add32, mul32,
}
use mini_tmux.Grid.{Cell, zero_cell}
use mini_tmux.Window.{Color, ScreenCell, put_text, bit, Pane, push_lines, cp_to_utf8}

-- The bytes that `unicode_to_utf8` stores.
unfoldable pub unicode_to_utf8 : ℕ → List ℕ
unicode_to_utf8 cp =
    if ltb cp 0x80
    then cp ∷ 0 ∷ []
    else if ltb cp 0x800
    then (0xC0 + cp / 64) ∷ (0x80 + cp % 64) ∷ 0 ∷ []
    else if ltb cp 0x10000
    then (0xE0 + cp / 4096) ∷ (0x80 + cp / 64 % 64) ∷ (0x80 + cp % 64) ∷ 0 ∷ []
    else if ltb cp 0x110000
    then (0xF0 + cp / 262144)
      ∷ (0x80 + cp / 4096 % 64)
      ∷ (0x80 + cp / 64 % 64)
      ∷ (0x80 + cp % 64)
      ∷ 0
      ∷ []
    else 0 ∷ []

-- a colour of three bytes as one of the 216 of the palette, stored in a byte
abbrev pub cube_color : Color → ℕ
cube_color c = (16 + c.red / 51 * 36 + c.green / 51 * 6 + c.blue / 51) % 256

-- the colour byte, where `is_default` says whether the colour is the default one
unfoldable pub color_index : Bool → Color → ℕ
color_index is_default c = if is_default then 0 else if c.indexed then c.red else cube_color c

unfoldable pub grid_cell : ScreenCell → Cell
grid_cell vc =
    record (put_text zero_cell (if vc.char0 == 0 then 0 ∷ [] else unicode_to_utf8 vc.char0)) {
      width = vc.width;
      fg = color_index vc.fg.default_fg vc.fg;
      bg = color_index vc.bg.default_bg vc.bg;
      flags = bit vc.fg.default_fg 1 + bit vc.bg.default_bg 2;
      attr = bit vc.bold 1 + bit vc.underline 2 + bit vc.italic 4 + bit vc.reverse 8;
    }

-- What libvterm answers to the calls of `pane_input`: the lines that leave the screen, the answers
-- to the shell, and the screen and the cursor afterwards. `screen` takes a row and a column.
pub record Parsed : Type 0 where
  pub scrolled_off : List (List ScreenCell)
  pub response : List ℕ
  pub screen : ℕ → ℕ → ScreenCell
  pub cursor_col : ℕ
  pub cursor_row : ℕ

-- `n` cells of row `y`, from column `x` on, into an array of rows of `w`
unfoldable pub sync_row : (ℕ → ℕ → ScreenCell) → ℕ → ℕ → ℕ → ℕ → List Cell → Option (List Cell)
sync_row screen w y x zero cells = some cells
sync_row screen w y x (suc n) cells =
    let at = add32 (mul32 y w) x in
    let rest = sync_row screen w y (suc x) n (set cells at (grid_cell (screen y x))) in
    if ltb at (length cells) then rest else none

-- `m` rows of `n` cells, from row `y` on
unfoldable pub sync_rows : (ℕ → ℕ → ScreenCell) → ℕ → ℕ → ℕ → ℕ → List Cell → Option (List Cell)
sync_rows screen w n y zero cells = some cells
sync_rows screen w n y (suc m) cells = elim (sync_row screen w y 0 n cells) [
  | none ↦ none
  | some cells' ↦ sync_rows screen w n (suc y) m cells'
]

unfoldable pub sync_grid_from_vterm : Parsed → Pane → Option Pane
sync_grid_from_vterm v p = elim (sync_rows v.screen p.grid.width p.sx 0 p.sy p.grid.cells) [
  | none ↦ none
  | some cells ↦
      some
        (record p { grid = record p.grid { cells = cells }; cx = v.cursor_col; cy = v.cursor_row })
]

-- `vterm_input_write` runs the callbacks, then the screen is copied.
unfoldable pub pane_input : Parsed → Pane → Option Pane
pane_input v p = elim (push_lines v.scrolled_off p.grid) [
  | none ↦ none
  | some g ↦ sync_grid_from_vterm v (record p { grid = g })
]
