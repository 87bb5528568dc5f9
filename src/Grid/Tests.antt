-- ===== src/Grid/Tests.antt =====
-- A grid of one column and two rows with a ring of two lines, three lines pushed, scrolled back by
-- one; the theorems about grids at it.
use mini_tmux.Base.{
  ℕ, zero, suc, ◌+◌, ◌-◌, ◌≤◌, ◌<◌, ◌≡◌, refl, List, [], ◌∷◌, ◌++◌, some, arith, min, ◌%◌, slice,
  get_or,
}
use mini_tmux.Grid.{
  Cell, Grid, zero_cell, scroll_up, scroll_down, push_line_to_history, get_display_line,
}
use mini_tmux.Grid.History.{IsValid, scroll_lem}
use mini_tmux.Grid.Log.{
  Logged, row, pushed_ring, push_line_to_history_refines, line_cells, output_line,
  display_shows_output,
}
use mini_tmux.Grid.Serial.{Header, serialize, deserialize, parsed}
use mini_tmux.Grid.Serial.RoundTrip.{IsHeader}
use mini_tmux.Grid.Serial.Restore.{restored, deserialize-serialize}

abbrev pub letter : ℕ → Cell
letter n = record zero_cell { ch0 = n; width = 1 }

abbrev pub ring : List Cell
ring = letter b'c' ∷ letter b'b' ∷ []

abbrev pub grid : Grid
grid = record {
  cells = letter b'd' ∷ letter b'e' ∷ [];
  width = 1;
  height = 2;
  history_cells = some ring;
  history_size = 2;
  history_count = 3;
  scroll_offset = 1;
}

abbrev pub log : List (List Cell)
log = (letter b'a' ∷ []) ∷ (letter b'b' ∷ []) ∷ (letter b'c' ∷ []) ∷ []

abbrev header : Header
header = record { pane_id = 7; cx = 0; cy = 1 }

pub grid-IsValid : IsValid grid ring
grid-IsValid = record {
  allocated = refl;
  screen_fits = refl;
  ring_fits = refl;
  screen_small = omega arith;
  ring_small = omega arith;
  size_small = omega arith;
  height_small = omega arith;
  size_pos = omega arith;
  count_small = omega arith;
  scrolled = omega arith;
}

grid_kept : (m : ℕ) → m < 3 → 3 ≤ m + 2 → row 1 (m % 2) ring ≡ get_or log m []
unfolding slice
grid_kept zero h k = absurd (omega arith)
grid_kept (suc zero) h k = refl
grid_kept (suc (suc zero)) h k = refl
grid_kept (suc (suc (suc m))) h k = absurd (omega arith)

pub grid-Logged : Logged grid ring log
grid-Logged = record { counted = refl; kept = grid_kept }

header-IsHeader : IsHeader header
header-IsHeader = record {
  pane_id_small = omega arith;
  cx_small = omega arith;
  cy_small = omega arith;
}

first_row_is_last_pushed : line_cells grid (get_display_line grid 0) ≡ some (letter b'c' ∷ [])
unfolding line_cells get_display_line slice
first_row_is_last_pushed = refl

scroll_lem_example :
    (scroll_up grid 5 ≡ record grid { scroll_offset = min (1 + 5) 2 })
    × (scroll_down grid 5 ≡ record grid { scroll_offset = 1 - 5 })
    × IsValid (scroll_up grid 5) ring
    × IsValid (scroll_down grid 5) ring
scroll_lem_example = scroll_lem grid-IsValid 5 (omega arith)

push_line_to_history_refines_example :
    (g' : Grid) × (push_line_to_history grid 0 ≡ some g')
    × IsValid g' (pushed_ring grid ring (row 1 0 grid.cells))
    × Logged g' (pushed_ring grid ring (row 1 0 grid.cells)) (log ++ (row 1 0 grid.cells ∷ []))
    × (g'.cells ≡ grid.cells)
    × (g'.scroll_offset ≡ 1)
push_line_to_history_refines_example =
    push_line_to_history_refines grid-IsValid 0 (omega arith) (omega arith) grid-Logged

display_shows_output_example :
    line_cells grid (get_display_line grid 0) ≡ some (output_line grid log (3 - 1 + 0))
display_shows_output_example = display_shows_output grid-IsValid 0 grid-Logged (omega arith)

deserialize-serialize_example :
    (buf : List ℕ) × (serialize 0 grid header ≡ some buf)
    × (deserialize grid buf ≡ parsed header (restored grid ring))
deserialize-serialize_example =
    deserialize-serialize grid-IsValid header 0 grid header-IsHeader (omega arith)
