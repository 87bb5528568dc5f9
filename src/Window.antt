-- ===== src/Window.antt =====
-- window.c and window.h: panes, the callback of libvterm that pushes a line to the history, and
-- the resizing of a pane. A window is its list of panes and the next pane id. Allocations succeed,
-- and a pane has its grid and its terminal. Access outside an array is `none`.
pub mod Utf8
pub mod History
pub mod Resize
pub mod Blocks
mod Tests
use mini_tmux.Base.{
  ℕ, zero, suc, ◌+◌, ◌-◌, ◌*◌, ◌/◌, ◌%◌, List, [], ◌∷◌, Option, none, some, ◌>>=◌, Bool, ltb, ◌==◌,
  if◌then◌else◌, length, get_elem?, set, replicate, memcpy, min, ℤ, pos, add32, mul32, sub32,
}
use mini_tmux.Grid.{Cell, Grid, zero_cell, init_history}

-- The bytes that `cp_to_utf8` stores, the NUL included. `(char)(0xF0 | v)` is 0xF0 + v % 16.
unfoldable pub cp_to_utf8 : ℕ → List ℕ
cp_to_utf8 cp =
    if ltb cp 0x80
    then cp ∷ 0 ∷ []
    else if ltb cp 0x800
    then (0xC0 + cp / 64) ∷ (0x80 + cp % 64) ∷ 0 ∷ []
    else if ltb cp 0x10000
    then (0xE0 + cp / 4096) ∷ (0x80 + cp / 64 % 64) ∷ (0x80 + cp % 64) ∷ 0 ∷ []
    else (0xF0 + cp / 262144 % 16)
      ∷ (0x80 + cp / 4096 % 64)
      ∷ (0x80 + cp / 64 % 64)
      ∷ (0x80 + cp % 64)
      ∷ 0
      ∷ []

-- `VTermColor`; the index stands in the byte of `red`
pub record Color : Type 0 where
  pub indexed : Bool
  pub default_fg : Bool
  pub default_bg : Bool
  pub red : ℕ
  pub green : ℕ
  pub blue : ℕ

-- `VTermScreenCell`, as far as it is read
pub record ScreenCell : Type 0 where
  pub char0 : ℕ
  pub width : ℕ
  pub fg : Color
  pub bg : Color
  pub bold : Bool
  pub underline : Bool
  pub italic : Bool
  pub reverse : Bool

-- a text stored at `c->ch`
unfoldable pub put_text : Cell → List ℕ → Cell
put_text c [] = c
put_text c (a ∷ []) = record c { ch0 = a }
put_text c (a ∷ b ∷ []) = record c { ch0 = a; ch1 = b }
put_text c (a ∷ b ∷ d ∷ []) = record c { ch0 = a; ch1 = b; ch2 = d }
put_text c (a ∷ b ∷ d ∷ e ∷ []) = record c { ch0 = a; ch1 = b; ch2 = d; ch3 = e }
put_text c (a ∷ b ∷ d ∷ e ∷ f ∷ _) = record c { ch0 = a; ch1 = b; ch2 = d; ch3 = e; ch4 = f }

abbrev pub bit : Bool → ℕ → ℕ
bit b n = if b then n else 0

-- a cell of the history from a cell of libvterm
unfoldable pub history_cell : Cell → ScreenCell → Cell
history_cell c vc =
    record (put_text c (if vc.char0 == 0 then b' ' ∷ 0 ∷ [] else cp_to_utf8 vc.char0)) {
      width = if vc.width == 0 then 1 else vc.width;
      fg = if vc.fg.indexed then vc.fg.red else 0;
      bg = if vc.bg.indexed then vc.bg.red else 0;
      flags = bit vc.fg.default_fg 1 + bit vc.bg.default_bg 2;
      attr = bit vc.bold 1 + bit vc.underline 2 + bit vc.italic 4 + bit vc.reverse 8;
    }

-- `n` cells of libvterm into the history from index `i` on
unfoldable pub push_cells : List Cell → ℕ → ℕ → List ScreenCell → Option (List Cell)
push_cells ring i zero vcs = some ring
push_cells ring i (suc n) [] = none
push_cells ring i (suc n) (vc ∷ vcs) = elim (get_elem? ring i) [
  | none ↦ none
  | some c ↦ push_cells (set ring i (history_cell c vc)) (suc i) n vcs
]

-- `cols` is the number of `cells`. A `history_size` of 0 divides by zero.
unfoldable pub screen_sb_pushline : List ScreenCell → Grid → Option Grid
screen_sb_pushline vcs g = elim g.history_cells [
  | none ↦ some g
  | some ring ↦
      if g.history_size == 0
      then none
      else elim (push_cells ring (mul32 (g.history_count % g.history_size) g.width)
          (min g.width (length vcs)) vcs) [
            | none ↦ none
            | some ring' ↦
                some
                  (record g { history_cells = some ring'; history_count = add32 g.history_count 1 })
          ]
]

unfoldable pub push_lines : List (List ScreenCell) → Grid → Option Grid
push_lines [] g = some g
push_lines (vcs ∷ rest) g = elim (screen_sb_pushline vcs g) [
  | none ↦ none
  | some g' ↦ push_lines rest g'
]

-- `struct window_pane`, without the links to the window and to libvterm
pub record Pane : Type 0 where
  pub grid : Grid
  pub cx : ℕ
  pub cy : ℕ
  pub id : ℕ
  pub master_fd : ℤ
  pub sx : ℕ
  pub sy : ℕ
  pub xoff : ℕ
  pub yoff : ℕ

-- `n` rows from row `y` on, `k` cells of each
unfoldable pub copy_rows : Grid → ℕ → ℕ → ℕ → ℕ → List Cell → Option (List Cell)
copy_rows g sx k y zero new = some new
copy_rows g sx k y (suc n) new = elim (memcpy new (mul32 y sx) g.cells (mul32 y g.width) k) [
  | none ↦ none
  | some new' ↦ copy_rows g sx k (suc y) n new'
]

-- the new array of cells
unfoldable pub resized_cells : Grid → ℕ → ℕ → Option (List Cell)
resized_cells g sx sy =
    copy_rows g sx (if ltb g.width sx then g.width else sx) 0 (min g.height sy)
      (replicate (mul32 sx sy) zero_cell)

-- the cursor kept inside `size`
abbrev pub clamp : ℕ → ℕ → ℕ
clamp c size = if ltb c size then c else sub32 size 1

-- What `vterm_set_size(vt, sy, sx)` does: the lines that it hands to the callback, in order.
pub record Vterm : Type 0 where
  pub scrolled_off : Pane → ℕ → ℕ → List (List ScreenCell)

unfoldable pub pane_resize : Vterm → Pane → ℕ → ℕ → Option Pane
pane_resize vt p sx sy = elim (resized_cells p.grid sx sy) [
  | none ↦ none
  | some cells ↦
      elim (push_lines (vt.scrolled_off p sx sy)
        (record p.grid { cells = cells; width = sx; height = sy })) [
          | none ↦ none
          | some g ↦
              some (record p { grid = g; sx = sx; sy = sy; cx = clamp p.cx sx; cy = clamp p.cy sy })
        ]
]

abbrev pub empty_grid : ℕ → ℕ → Grid
empty_grid sx sy = record {
  cells = replicate (mul32 sx sy) zero_cell;
  width = sx;
  height = sy;
  history_cells = none;
  history_size = 0;
  history_count = 0;
  scroll_offset = 0;
}

-- a new pane with the id `id`, `w->next_pane_id`; `calloc` leaves the descriptor 0
unfoldable pub pane_create : ℕ → ℕ → ℕ → ℕ → ℕ → Pane
pane_create id sx sy xoff yoff = record {
  grid = init_history (empty_grid sx sy) 1000;
  cx = 0;
  cy = 0;
  id = id;
  master_fd = pos 0;
  sx = sx;
  sy = sy;
  xoff = xoff;
  yoff = yoff;
}

-- `pane_set_master_fd`
unfoldable pub pane_set_master_fd : Pane → ℤ → Pane
pane_set_master_fd p fd = record p { master_fd = fd }
