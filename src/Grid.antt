-- ===== src/Grid.antt =====
-- The screen grid of render.c and render.h: `struct cell`, `struct grid`, and the functions that
-- push lines to the history ring, scroll over it and find the line to display.
--
-- A C array is a list of its cells, and a NULL pointer is `none`. A function that may access
-- memory outside an array returns `none` for that. `unsigned int` sums and products wrap at 2^32.
pub mod History
pub mod Log
pub mod Serial
pub mod Tests
use mini_tmux.Base.{
  ℕ, ◌-◌, ◌%◌, List, Option, none, some, ◌||◌, ltb, leb, ◌==◌, if◌then◌else◌, replicate, memcpy, ℤ,
  pos, negsuc, ◌+ℤ◌, ◌-ℤ◌, ltb_ℤ, to_int, add32, sub32, mul32,
}

-- `char ch[5]` is five bytes, so that a cell is ten bytes in all.
pub record Cell : Type 0 where
  pub ch0 : ℕ
  pub ch1 : ℕ
  pub ch2 : ℕ
  pub ch3 : ℕ
  pub ch4 : ℕ
  pub width : ℕ
  pub fg : ℕ
  pub bg : ℕ
  pub attr : ℕ
  pub flags : ℕ

-- what `calloc` leaves in a cell
abbrev pub zero_cell : Cell
zero_cell = record {
  ch0 = 0;
  ch1 = 0;
  ch2 = 0;
  ch3 = 0;
  ch4 = 0;
  width = 0;
  fg = 0;
  bg = 0;
  attr = 0;
  flags = 0;
}

pub record Grid : Type 0 where
  pub cells : List Cell
  pub width : ℕ
  pub height : ℕ
  pub history_cells : Option (List Cell)
  pub history_size : ℕ
  pub history_count : ℕ
  pub scroll_offset : ℕ

abbrev pub default_history_size : ℕ
default_history_size = 1000

-- `calloc` succeeds.
unfoldable pub init_history : Grid → ℕ → Grid
init_history g max_lines = record g {
  history_cells = some (replicate (mul32 max_lines g.width) zero_cell);
  history_size = default_history_size;
  scroll_offset = 0;
  history_count = 0;
}

-- min(history_count, history_size), as the code writes it each time
abbrev pub available : Grid → ℕ
available g = if ltb g.history_count g.history_size then g.history_count else g.history_size

unfoldable pub scroll_down : Grid → ℕ → Grid
scroll_down g lines =
    if ltb g.scroll_offset lines
    then record g { scroll_offset = 0 }
    else record g { scroll_offset = g.scroll_offset - lines }

unfoldable pub scroll_up : Grid → ℕ → Grid
scroll_up g lines =
    if ltb (available g) (add32 g.scroll_offset lines)
    then record g { scroll_offset = available g }
    else record g { scroll_offset = add32 g.scroll_offset lines }

unfoldable pub free_history : Grid → Grid
free_history g = record g { history_cells = none; history_count = 0; scroll_offset = 0 }

-- `none` is an access outside `cells` or `history_cells`.
unfoldable pub push_line_to_history : Grid → ℕ → Option Grid
push_line_to_history g line = elim g.history_cells [
  | none ↦ some g
  | some ring ↦
      if g.history_size == 0
      then some g
      else elim (memcpy ring (mul32 (g.history_count % g.history_size) g.width) g.cells
          (mul32 line g.width) g.width) [
            | none ↦ none
            | some ring' ↦
                some
                  (record g { history_cells = some ring'; history_count = add32 g.history_count 1 })
          ]
]

-- The pointer that `grid_get_display_line` returns: NULL, or an offset into one of the arrays.
pub data Line : Type 0 where
  null : Line
  in_cells : ℕ → Line
  in_history : ℕ → Line

-- the slot of the ring that holds the `k`-th of the lines available
abbrev pub actual_slot : Grid → ℕ → ℕ
actual_slot g k =
    if leb g.history_count g.history_size
    then k
    else add32 (g.history_count % g.history_size) k % g.history_size

-- `history_line` is computed and tested as an `int`.
abbrev pub line_at : Grid → ℤ → Line
line_at g (negsuc n) = null
line_at g (pos k) =
    if ltb_ℤ (pos k) (to_int (available g))
    then in_history (mul32 (actual_slot g k) g.width)
    else in_cells (mul32 (sub32 k (available g)) g.width)

unfoldable pub get_display_line : Grid → ℕ → Line
get_display_line g y =
    if g.scroll_offset == 0
    then in_cells (mul32 y g.width)
    else if g.history_count == 0 || g.history_size == 0
    then null
    else line_at g (to_int (available g) -ℤ to_int g.scroll_offset +ℤ to_int y)
