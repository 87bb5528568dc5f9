-- ===== src/Grid/Serial/RoundTrip.antt =====
-- What `grid_deserialize` makes of the bytes that `grid_serialize` wrote.
use native.Mathlib.Nat.{mod-lt, mod-eq_of_lt, add-mul, mul_comm}
use mini_tmux.Base.{
  ℕ, ◌+◌, ◌-◌, ◌*◌, ◌%◌, ◌^◌, ◌≤◌, ◌<◌, ◌≡◌, refl, List, [], ◌∷◌, ◌++◌, some, arith, leb,
  if◌then◌else◌, length, take, slice, u32, ap, ◌∙◌, mul32, sub32, Bool-cases, inl, inr, sym,
  length-slice, length-append, le→leb, take-length, leb→le, ◌/◌, ==_iff, ap₂, ◌==◌,
}
use mini_tmux.Grid.{Cell, Grid, available}
use mini_tmux.Grid.History.{IsValid, mul32_row, available-le, sub32_lem}
use mini_tmux.Grid.Serial.{
  encode_cell, decode_cell, encode_cells, decode_cells, read_block, unroll, history_bytes, Header,
  header_bytes, serialize, store_header, header_of,
}

pub length-encode_cells : (cs : List Cell) → length (encode_cells cs) ≡ 10 * length cs
unfolding encode_cells encode_cell
length-encode_cells [] = refl
length-encode_cells (c ∷ cs) = omega (arith, length-encode_cells cs)

pub decode-encode :
    (cs : List Cell) (rest : List ℕ) → decode_cells (length cs) (encode_cells cs ++ rest) ≡ cs
unfolding encode_cells encode_cell decode_cells decode_cell
decode-encode [] rest = refl
decode-encode (c ∷ cs) rest = ap (λ r. c ∷ r) (decode-encode cs rest)

-- the lines in the ring, oldest first
abbrev pub history_lines : Grid → List Cell → List Cell
history_lines g ring =
    if leb g.history_count g.history_size
    then slice 0 (g.history_count * g.width) ring
    else slice (g.history_count % g.history_size * g.width)
        ((g.history_size - g.history_count % g.history_size) * g.width) ring
      ++ slice 0 (g.history_count % g.history_size * g.width) ring

read_block-some :
    (cells : List Cell) (i n : ℕ)
    → i + n ≤ length cells
    → read_block cells i n ≡ some (slice i n cells)
unfolding read_block
read_block-some cells i n h = rw (le→leb (i + n) (length cells) h)

read_block_all : (cells : List Cell) (n : ℕ) → n ≡ length cells → read_block cells 0 n ≡ some cells
unfolding slice
read_block_all cells n e =
    read_block-some cells 0 n (omega arith) ∙ ap some (ap (λ k. take k cells) e ∙ take-length cells)

nil_of_length : (cs : List Cell) → length cs ≡ 0 → cs ≡ []
nil_of_length [] h = refl
nil_of_length (c ∷ cs) h = absurd (omega arith)

pub row_le : (i n w : ℕ) → i ≤ n → i * w ≤ n * w
row_le i n w h = grind arith

-- `mul32_row` for a row just past the end
pub mul32_le : (i n w : ℕ) → i ≤ n → n * w < 2 ^ 31 → mul32 i w ≡ i * w
mul32_le i n w h k = let below : i * w ≤ n * w = row_le i n w h in mod-eq_of_lt (omega arith)

pub rows_split : (o s w : ℕ) → o ≤ s → (s - o) * w + o * w ≡ s * w
rows_split o s w h = sym (add-mul (s - o) o w) ∙ ap (λ t. t * w) (omega arith)

module _ {g : Grid} {ring : List Cell} (v : IsValid g ring) where
  pub oldest-lt : g.history_count % g.history_size < g.history_size
  oldest-lt = mod-lt g.history_count v.size_pos

  unroll_lem :
      unroll g ring (g.history_size * g.width)
      ≡ some (
          slice
            (g.history_count % g.history_size * g.width)
            ((g.history_size - g.history_count % g.history_size) * g.width)
            ring
          ++ slice 0 (g.history_count % g.history_size * g.width) ring)
  unfolding unroll
  unroll_lem =
      rw (old_one, new_one, le→leb ((s - o) * w + o * w) (s * w) (omega (arith, split)))
        (rw
          (
            read_block-some ring (o * w) ((s - o) * w) (omega (arith, split, v.ring_fits)),
            read_block-some ring 0 (o * w) (omega (arith, split, v.ring_fits)),
          )
          refl)
    where
      s : ℕ
      s = g.history_size

      o : ℕ
      o = g.history_count % g.history_size

      w : ℕ
      w = g.width

      split : (s - o) * w + o * w ≡ s * w
      split = rows_split o s w (omega (arith, oldest-lt))

      old_one : mul32 (sub32 s o) w ≡ (s - o) * w
      old_one =
          ap (λ t. mul32 t w)
            (sub32_lem s o (omega (arith, oldest-lt)) (omega (arith, v.size_small)))
          ∙ mul32_le (s - o) s w (omega arith) v.ring_small

      new_one : mul32 o w ≡ o * w
      new_one = mul32_row o s w oldest-lt v.ring_small

  -- The ring in the buffer's order takes as many cells as the lines available.
  pub length-history_lines : length (history_lines g ring) ≡ available g * g.width
  length-history_lines = elim (Bool-cases (leb g.history_count g.history_size)) [
    | inl fits ↦
        let room : g.history_count * g.width ≤ g.history_size * g.width =
          row_le g.history_count g.history_size g.width (leb→le _ _ fits) in
        rw fits (
          length-slice 0 (g.history_count * g.width) ring (omega (arith, v.ring_fits))
          ∙ ap (λ t. t * g.width) (ground arith))
    | inr full ↦
        let split : (g.history_size - g.history_count % g.history_size) * g.width
              + g.history_count % g.history_size * g.width
            ≡ g.history_size * g.width =
          rows_split (g.history_count % g.history_size) g.history_size g.width
            (omega (arith, oldest-lt)) in
        let as_size : g.history_size ≡ available g = ground arith in
        rw full (
          length-append _ _
          ∙ (ap₂ ◌+◌ (length-slice _ _ ring (omega (arith, split, v.ring_fits))) (
                length-slice 0 (g.history_count % g.history_size * g.width) ring
                  (omega (arith, split, v.ring_fits)))
              ∙ (split ∙ ap (λ t. t * g.width) as_size)))
  ]

  lines_read :
      (if leb g.history_count g.history_size
        then read_block ring 0 (available g * g.width)
        else unroll g ring (available g * g.width))
      ≡ some (history_lines g ring)
  lines_read = elim (Bool-cases (leb g.history_count g.history_size)) [
    | inl fits ↦
        let room : g.history_count * g.width ≤ g.history_size * g.width =
          row_le g.history_count g.history_size g.width (leb→le _ _ fits) in
        let as_count : available g ≡ g.history_count = ground arith in
        rw fits (
          ap (λ t. read_block ring 0 (t * g.width)) as_count
          ∙ read_block-some ring 0 (g.history_count * g.width) (omega (arith, v.ring_fits)))
    | inr full ↦
        let as_size : available g ≡ g.history_size = ground arith in
        rw full (ap (λ t. unroll g ring (t * g.width)) as_size ∙ unroll_lem)
  ]

  history_bytes_lem :
      (junk : ℕ)
      → history_bytes junk g (available g * g.width) ≡ some (encode_cells (history_lines g ring))
  unfolding history_bytes encode_cells
  history_bytes_lem junk = elim (Bool-cases (available g * g.width == 0)) [
    | inl empty ↦ rw empty (
        ap (λ cs. some (encode_cells cs))
          (sym
            (nil_of_length (history_lines g ring) (length-history_lines ∙ (==_iff _ _).0 empty))))
    | inr some_lines ↦ ground (arith, v.allocated, lines_read)
  ]

  pub screen_size : mul32 g.width g.height ≡ g.height * g.width
  screen_size =
      ap (λ t. t % u32) (mul_comm g.width g.height) ∙ mod-eq_of_lt (omega (arith, v.screen_small))

  pub stored_size : mul32 (available g) g.width ≡ available g * g.width
  stored_size = mul32_le (available g) g.history_size g.width (available-le v).0 v.ring_small

  pub serialize_lem :
      (junk : ℕ) (h : Header)
      → serialize junk g h
        ≡ some (header_bytes g h ++ (encode_cells g.cells ++ encode_cells (history_lines g ring)))
  unfolding serialize
  serialize_lem junk h =
      rw
        (
          screen_size,
          read_block_all g.cells (g.height * g.width) (sym v.screen_fits),
          stored_size,
          history_bytes_lem junk,
        )
        refl

-- Every field of the header fits an `unsigned int`.
pub record IsHeader (h : Header) : Type 0 where
  pub pane_id_small : h.pane_id < u32
  pub cx_small : h.cx < u32
  pub cy_small : h.cy < u32

-- Four bytes of a header at byte `i` of it
u32_of_bytes :
    (n : ℕ)
    → n < u32
    → n % 256 + 256 * (n / 256 % 256) + 65536 * (n / 65536 % 256) + 16777216 * (n / 16777216 % 256)
      ≡ n
u32_of_bytes n h = omega arith

pub header_of_lem :
    (g : Grid) (h : Header) (rest : List ℕ) → IsHeader h → header_of (header_bytes g h ++ rest) ≡ h
unfolding header_of header_bytes
header_of_lem g h rest small = λ i. record {
  pane_id = u32_of_bytes h.pane_id small.pane_id_small i;
  cx = u32_of_bytes h.cx small.cx_small i;
  cy = u32_of_bytes h.cy small.cy_small i;
}

pub store_header_lem :
    {g : Grid} {ring : List Cell} (g0 : Grid) (h : Header) (rest : List ℕ)
    → IsValid g ring
    → g.width < u32
    → store_header g0 (header_bytes g h ++ rest)
      ≡ record g { cells = g0.cells; history_cells = g0.history_cells }
unfolding store_header header_bytes
store_header_lem {g} g0 h rest v small = λ i. record {
  cells = g0.cells;
  width = u32_of_bytes g.width small i;
  height = u32_of_bytes g.height (omega (arith, v.height_small)) i;
  history_cells = g0.history_cells;
  history_size = u32_of_bytes g.history_size (omega (arith, v.size_small)) i;
  history_count = u32_of_bytes g.history_count v.count_small i;
  scroll_offset = u32_of_bytes g.scroll_offset (ground (arith, v.scrolled, v.count_small)) i;
}
