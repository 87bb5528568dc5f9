-- ===== src/Render.antt =====
-- The output functions of render.c: what `render_pane`, `render_pane_borders` and
-- `render_status_bar` write to the terminal, write by write. A pane has its grid. A read outside an
-- array, or of a text past its end, is `none`.
pub mod Screen
pub mod Pane
pub mod Status
pub mod Whole
pub mod Tests
use mini_tmux.Base.{
  ℕ, zero, suc, ◌+◌, ◌-◌, ◌/◌, ◌%◌, List, [], ◌∷◌, ◌++◌, Option, none, some, Bool, ◌&&◌, not, ltb,
  leb, ◌==◌, if◌then◌else◌, length, drop, replicate, add32, sub32,
}
use mini_tmux.Grid.{Cell, Grid, Line, null, in_cells, in_history, get_display_line}
use mini_tmux.Window
use mini_tmux.Window.{bit}

-- One write, by the escape sequence or the text that it holds: "\033[?25l", "\033[?25h",
-- "\033[H", "\033[2J", "\033[%u;%uH", "\033[0m", "\033[1m", "\033[4m", "\033[3m", "\033[7m",
-- "\033[38;5;%um", "\033[48;5;%um", "\033[44;97m", "\033[34m", "\033[K", and the two that change
-- to the alternate screen, "\033[?1049h", and back, "\033[?1049l".
pub data Out : Type 0 where
  hide_cursor show_cursor home clear : Out
  move : (row col : ℕ) → Out
  reset bold underline italic reverse : Out
  fg bg : (color : ℕ) → Out
  bar_colors border_color clear_line : Out
  text : List ℕ → Out
  alternate_screen main_screen : Out

-- the attributes set last: `last_fg`, `last_bg`, `last_attr` and `last_flags`
pub record Attrs : Type 0 where
  pub fg : ℕ
  pub bg : ℕ
  pub attr : ℕ
  pub flags : ℕ

abbrev pub attrs_of : Cell → Attrs
attrs_of c = record { fg = c.fg; bg = c.bg; attr = c.attr; flags = c.flags }

abbrev pub first_attrs : Attrs
first_attrs = record { fg = 0; bg = 0; attr = 0; flags = 3 }

-- `need_update`
abbrev pub same_attrs : Cell → Attrs → Bool
same_attrs c a = c.fg == a.fg && (c.bg == a.bg && (c.attr == a.attr && c.flags == a.flags))

-- bit `k` of a byte, for `k` a power of two
abbrev pub has_bit : ℕ → ℕ → Bool
has_bit n k = n / k % 2 == 1

abbrev pub write_if : Bool → Out → List Out
write_if b o = if b then o ∷ [] else []

unfoldable pub set_attrs : Attrs → List Out
set_attrs a =
    reset
    ∷ (write_if (has_bit a.attr 1) bold
        ++ (write_if (has_bit a.attr 2) underline
            ++ (write_if (has_bit a.attr 4) italic
                ++ (write_if (has_bit a.attr 8) reverse
                    ++ (write_if (not (has_bit a.flags 1)) (fg a.fg)
                        ++ write_if (not (has_bit a.flags 2)) (bg a.bg))))))

-- the bytes in front of the first NUL
unfoldable pub up_to_nul : List ℕ → Option (List ℕ)
up_to_nul [] = none
up_to_nul (b ∷ bs) =
    let rest = up_to_nul bs in
    if b == 0 then some [] else elim rest [ none ↦ none | some t ↦ some (b ∷ t) ]

-- the text at `c->ch`
unfoldable pub cell_text : Cell → Option (List ℕ)
unfolding up_to_nul
cell_text c = up_to_nul (c.ch0 ∷ c.ch1 ∷ c.ch2 ∷ c.ch3 ∷ c.ch4 ∷ [])

abbrev pub space : List ℕ
space = b' ' ∷ []

-- what is written for a cell
abbrev pub shown_text : Cell → Option (List ℕ)
shown_text c = if c.ch0 == 0 then some space else cell_text c

-- the columns that a cell covers behind its own
abbrev pub covered : Cell → ℕ
covered c = if c.ch0 == 0 then 0 else c.width - 1

-- `n` columns of a line from the cells on, the first `skip` of them covered
unfoldable pub draw_cells : Attrs → ℕ → ℕ → List Cell → Option (List Out × Attrs)
draw_cells a skip zero cs = some ([], a)
draw_cells a zero (suc n) [] = none
draw_cells a (suc skip) (suc n) [] = draw_cells a skip n []
draw_cells a (suc skip) (suc n) (c ∷ cs) = draw_cells a skip n cs
draw_cells a zero (suc n) (c ∷ cs) =
    let rest = draw_cells (if same_attrs c a then a else attrs_of c) (covered c) n cs in
    elim (shown_text c) [
      | none ↦ none
      | some t ↦ elim rest [
        | none ↦ none
        | some (out, a') ↦
            some ((if same_attrs c a then [] else set_attrs (attrs_of c)) ++ (text t ∷ out), a')
      ]
    ]

-- the cells that a pointer to a line leads to
unfoldable pub pointed : Grid → Line → Option (List Cell)
pointed g null = none
pointed g (in_cells o) = some (drop o g.cells)
pointed g (in_history o) = elim g.history_cells [ none ↦ some [] | some ring ↦ some (drop o ring) ]

-- row `y` of the pane
unfoldable pub render_row : Window.Pane → Attrs → ℕ → Option (List Out × Attrs)
render_row p a y =
    let start = move (add32 (add32 p.yoff y) 1) (add32 p.xoff 1) in
    elim (pointed p.grid (get_display_line p.grid y)) [
      | none ↦ some (start ∷ replicate p.sx (text space), a)
      | some cs ↦ elim (draw_cells a 0 p.sx cs) [
        | none ↦ none
        | some (out, a') ↦ some (start ∷ out, a')
      ]
    ]

-- `n` rows from row `y` on
unfoldable pub render_rows : Window.Pane → Attrs → ℕ → ℕ → Option (List Out × Attrs)
render_rows p a y zero = some ([], a)
render_rows p a y (suc n) = elim (render_row p a y) [
  | none ↦ none
  | some (out, a') ↦ elim (render_rows p a' (suc y) n) [
    | none ↦ none
    | some (rest, a'') ↦ some (out ++ rest, a'')
  ]
]

-- the cursor moved to its place in the pane, and shown
abbrev pub place_cursor : Window.Pane → List Out
place_cursor p = move (add32 (add32 p.yoff p.cy) 1) (add32 (add32 p.xoff p.cx) 1) ∷ show_cursor ∷ []

unfoldable pub render_pane : Window.Pane → Option (List Out)
render_pane p = elim (render_rows p first_attrs 0 p.sy) [
  | none ↦ none
  | some (rows, _) ↦ some (
      hide_cursor
      ∷ reset
      ∷ (rows
          ++ (reset ∷ (if ltb 0 p.grid.scroll_offset then hide_cursor ∷ [] else place_cursor p))))
]

-- "│"
abbrev pub bar_text : List ℕ
bar_text = 0xE2 ∷ 0x94 ∷ 0x82 ∷ []

-- `n` rows of the border from row `y` on
unfoldable pub border_rows : Window.Pane → ℕ → ℕ → List Out
border_rows p y zero = []
border_rows p y (suc n) =
    move (add32 (add32 p.yoff y) 1) (add32 (add32 p.xoff p.sx) 1)
    ∷ border_color
    ∷ text bar_text
    ∷ reset
    ∷ border_rows p (suc y) n

unfoldable pub render_pane_borders : Window.Pane → List Out
render_pane_borders p = hide_cursor ∷ (border_rows p 0 p.sy ++ place_cursor p)
