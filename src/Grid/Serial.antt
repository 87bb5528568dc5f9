-- ===== src/Grid/Serial.antt =====
-- `grid_serialize` and `grid_deserialize` of render.c: a grid as the bytes of MSG_GRID_SAVE.
-- Allocations succeed. A `struct cell` takes ten bytes, an `unsigned int` four.
pub mod RoundTrip
pub mod Restore
pub mod Display
use mini_tmux.Base.{
  ℕ, zero, suc, ◌+◌, ◌*◌, ◌%◌, List, [], ◌∷◌, ◌++◌, Option, none, some, ◌>>=◌, ltb, leb, ◌==◌,
  if◌then◌else◌, length, drop, get_or, replicate, slice, overlay, mul32, sub32, le32, u32_at,
}
use mini_tmux.Grid.{Cell, zero_cell, Grid, available}

-- the bytes of a cell in memory, and the cell that bytes make
unfoldable pub encode_cell : Cell → List ℕ
encode_cell c =
    c.ch0 ∷ c.ch1 ∷ c.ch2 ∷ c.ch3 ∷ c.ch4 ∷ c.width ∷ c.fg ∷ c.bg ∷ c.attr ∷ c.flags ∷ []

unfoldable pub decode_cell : List ℕ → Cell
decode_cell bs = record {
  ch0 = get_or bs 0 0;
  ch1 = get_or bs 1 0;
  ch2 = get_or bs 2 0;
  ch3 = get_or bs 3 0;
  ch4 = get_or bs 4 0;
  width = get_or bs 5 0;
  fg = get_or bs 6 0;
  bg = get_or bs 7 0;
  attr = get_or bs 8 0;
  flags = get_or bs 9 0;
}

unfoldable pub encode_cells : List Cell → List ℕ
encode_cells [] = []
encode_cells (c ∷ cs) = encode_cell c ++ encode_cells cs

unfoldable pub decode_cells : ℕ → List ℕ → List Cell
decode_cells zero bs = []
decode_cells (suc n) bs = decode_cell bs ∷ decode_cells n (drop 10 bs)

-- `n` cells read from index `i`; `none` outside the array
unfoldable pub read_block : List Cell → ℕ → ℕ → Option (List Cell)
read_block cells i n = if leb (i + n) (length cells) then some (slice i n cells) else none

-- the lines of a full ring, oldest first, into room for `n` cells
unfoldable pub unroll : Grid → List Cell → ℕ → Option (List Cell)
unroll g ring n =
    let oldest = g.history_count % g.history_size in
    let old_one = mul32 (sub32 g.history_size oldest) g.width in
    let new_one = mul32 oldest g.width in
    if leb (old_one + new_one) n
    then (do
      old ← read_block ring (mul32 oldest g.width) old_one
      new ← read_block ring 0 new_one
      some (old ++ new))
    else none

-- The history part of the buffer, `n` cells of it; `junk` is what `malloc` left in a byte.
unfoldable pub history_bytes : ℕ → Grid → ℕ → Option (List ℕ)
history_bytes junk g n = if n == 0 then some [] else elim g.history_cells [
  | none ↦ some (replicate (10 * n) junk)
  | some ring ↦ do
    lines ← if leb g.history_count g.history_size then read_block ring 0 n else unroll g ring n
    some (encode_cells lines)
]

pub record Header : Type 0 where
  pub pane_id : ℕ
  pub cx : ℕ
  pub cy : ℕ

-- the eight `unsigned int` in front of the cells
unfoldable pub header_bytes : Grid → Header → List ℕ
header_bytes g h =
    le32 h.pane_id
    ++ le32 h.cx
    ++ le32 h.cy
    ++ le32 g.width
    ++ le32 g.height
    ++ le32 g.history_size
    ++ le32 g.history_count
    ++ le32 g.scroll_offset

unfoldable pub serialize : ℕ → Grid → Header → Option (List ℕ)
serialize junk g h = do
  screen ← read_block g.cells 0 (mul32 g.width g.height)
  history ← history_bytes junk g (mul32 (available g) g.width)
  some (header_bytes g h ++ (encode_cells screen ++ history))

-- How `grid_deserialize` ends: -1 with nothing read, -1 after the header was stored into the grid,
-- a write outside an array, or 0.
pub data Parsed : Type 0 where
  too_short : Parsed
  truncated : Header → Grid → Parsed
  fault : Parsed
  parsed : Header → Grid → Parsed

-- the grid after the eight `memcpy` from the header
pub store_header : Grid → List ℕ → Grid
store_header g buf = record g {
  width = u32_at buf 12;
  height = u32_at buf 16;
  history_size = u32_at buf 20;
  history_count = u32_at buf 24;
  scroll_offset = u32_at buf 28;
}

pub header_of : List ℕ → Header
header_of buf = record { pane_id = u32_at buf 0; cx = u32_at buf 4; cy = u32_at buf 8 }

-- the arrays of the grid `g`, whose header fields are stored, from the cells in the buffer
pub store_cells : Header → Grid → List ℕ → Parsed
store_cells h g buf =
    let cells = decode_cells (mul32 g.width g.height) (drop 32 buf) in
    let stored = available g in
    let history =
      decode_cells (mul32 stored g.width) (drop (32 + 10 * mul32 g.width g.height) buf) in
    if ltb 0 g.history_size
    then (if leb (mul32 stored g.width) (mul32 g.history_size g.width)
        then parsed h (record g {
          cells = cells;
          history_cells =
              some (overlay (replicate (mul32 g.history_size g.width) zero_cell) 0 history);
          history_count = stored;
        })
        else fault)
    else parsed h (record g { cells = cells; history_cells = none })

-- `len` is the length of `buf`.
pub deserialize : Grid → List ℕ → Parsed
deserialize g buf =
    if ltb (length buf) 32
    then too_short
    else let g' = store_header g buf in
      if ltb (length buf) (32 + 10 * mul32 g'.width g'.height + 10 * mul32 (available g') g'.width)
      then truncated (header_of buf) g'
      else store_cells (header_of buf) g' buf
