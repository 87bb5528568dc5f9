-- ===== src/Grid/Serial/Restore.antt =====
-- The round trip of a grid through `grid_serialize` and `grid_deserialize`.
use mini_tmux.Base.{
  ℕ, ◌+◌, ◌*◌, ◌≤◌, ◌<◌, ◌^◌, ◌≡◌, refl, List, [], ◌++◌, subst, some, arith, ltb, length, drop, u32,
  ap₂, ◌∙◌, mul32, sym, overlay, length-append, le→leb, lt→ltb, le→ltb_false, ap, u32_at,
  drop-append, drop-add, append-nil, replicate, false,
}
use mathlib.Core.Option.{some-injective}
use mini_tmux.Grid.{Cell, Grid, zero_cell, available}
use mini_tmux.Grid.History.{IsValid, available-le}
use mini_tmux.Grid.Serial.{
  encode_cells, decode_cells, Header, header_bytes, serialize, parsed, store_cells, deserialize,
  header_of,
}
use mini_tmux.Grid.Serial.RoundTrip.{
  history_lines, length-encode_cells, decode-encode, length-history_lines, serialize_lem,
  screen_size, stored_size, mul32_le, row_le, IsHeader, header_of_lem, store_header_lem,
}

-- the ring of a restored grid: the saved lines from slot 0 on, the rest zero
abbrev pub restored_ring : Grid → List Cell → List Cell
restored_ring g ring =
    overlay (replicate (mul32 g.history_size g.width) zero_cell) 0 (history_lines g ring)

abbrev pub restored : Grid → List Cell → Grid
restored g ring = record g {
  history_cells = some (restored_ring g ring);
  history_count = available g;
}

module _ {g : Grid} {ring : List Cell} (v : IsValid g ring) (h : Header) where
  abbrev image : List ℕ
  image = header_bytes g h ++ (encode_cells g.cells ++ encode_cells (history_lines g ring))

  length-image : length image ≡ 32 + 10 * mul32 g.width g.height + 10 * mul32 (available g) g.width
  unfolding header_bytes
  length-image = omega (
    arith,
    length-append (encode_cells g.cells) (encode_cells (history_lines g ring)),
    length-encode_cells g.cells,
    length-encode_cells (history_lines g ring),
    length-history_lines v,
    screen_size v,
    stored_size v,
    v.screen_fits,
  )

  -- the first cells of the buffer
  drop_header : drop 32 image ≡ encode_cells g.cells ++ encode_cells (history_lines g ring)
  unfolding header_bytes
  drop_header = refl

  read_screen : decode_cells (mul32 g.width g.height) (drop 32 image) ≡ g.cells
  read_screen =
      ap₂ decode_cells (screen_size v ∙ sym v.screen_fits) drop_header ∙ decode-encode g.cells _

  drop_screen : drop (32 + 10 * mul32 g.width g.height) image ≡ encode_cells (history_lines g ring)
  drop_screen =
      drop-add 32 (10 * mul32 g.width g.height) image
      ∙ (ap₂ drop (omega (arith, length-encode_cells g.cells, screen_size v, v.screen_fits))
            drop_header
          ∙ drop-append (encode_cells g.cells) (encode_cells (history_lines g ring)))

  read_history :
      decode_cells (mul32 (available g) g.width) (drop (32 + 10 * mul32 g.width g.height) image)
      ≡ history_lines g ring
  read_history =
      ap₂ decode_cells (stored_size v ∙ sym (length-history_lines v))
        (drop_screen ∙ sym (append-nil _))
      ∙ decode-encode (history_lines g ring) []

  store_cells_lem :
      (g0 : Grid)
      → store_cells h (record g { cells = g0.cells; history_cells = g0.history_cells }) image
        ≡ parsed h (restored g ring)
  unfolding store_cells
  store_cells_lem g0 =
      rw
        (
          lt→ltb 0 g.history_size v.size_pos,
          le→leb (mul32 (available g) g.width) (mul32 g.history_size g.width) fits,
        )
        (λ i. parsed h (record g {
          cells = read_screen i;
          history_cells =
              some
                (overlay (replicate (mul32 g.history_size g.width) zero_cell) 0 (read_history i));
          history_count = available g;
        }))
    where
      fits : mul32 (available g) g.width ≤ mul32 g.history_size g.width
      fits = omega (
        arith,
        stored_size v,
        mul32_le g.history_size g.history_size g.width (omega arith) v.ring_small,
        row_le (available g) g.history_size g.width (available-le v).0,
      )

  -- A valid grid with its pane's id and cursor is written by `grid_serialize` inside the arrays,
  -- and `grid_deserialize` of those bytes into any grid returns 0 with the same id and cursor and
  -- with the grid itself, except that the history lines stand in order from slot 0.
  pub deserialize-serialize :
      (junk : ℕ) (g0 : Grid)
      → IsHeader h
      → g.width < u32
      → (buf : List ℕ) × (serialize junk g h ≡ some buf)
        × (deserialize g0 buf ≡ parsed h (restored g ring))
  unfolding deserialize
  deserialize-serialize junk g0 small wide = (
    image,
    serialize_lem v junk h,
    rw (long_enough, store_header_lem g0 h _ v wide, complete, header_of_lem g h _ small)
        (store_cells_lem g0),
  )
    where
      long_enough : ltb (length image) 32 ≡ false
      long_enough = le→ltb_false (length image) 32 (omega (arith, length-image))

      complete :
          ltb (length image) (32 + 10 * mul32 g.width g.height + 10 * mul32 (available g) g.width)
          ≡ false
      complete = le→ltb_false (length image) _ (omega (arith, length-image))

  -- The bytes that `grid_serialize` writes are 32 at least and fewer than 2^64, and the first four
  -- are the pane's id.
  pub serialize-Header :
      (junk : ℕ) (buf : List ℕ)
      → serialize junk g h ≡ some buf
      → IsHeader h
      → (32 ≤ length buf) × (length buf < 2 ^ 64) × (u32_at buf 0 ≡ h.pane_id)
  unfolding header_of
  serialize-Header junk buf e small =
      subst (λ b. (32 ≤ length b) × (length b < 2 ^ 64) × (u32_at b 0 ≡ h.pane_id))
        (some-injective image buf (sym (serialize_lem v junk h) ∙ e))
        (
          omega (arith, length-image),
          omega (arith, length-image),
          ap (λ r. r.pane_id) (header_of_lem g h _ small),
        )
