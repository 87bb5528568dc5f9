-- ===== src/Grid/Log.antt =====
-- The history ring of a grid against the log of all lines that were ever pushed to it.
use native.Mathlib.Nat.{mod-add-mod, mod-eq_of_lt, mod-eq-sub-mod, mod-lt}
use native.Mathlib.Decide.{dec_lt, ℕ_discrete}
use mini_tmux.Base.{
  ℕ, zero, suc, ◌+◌, ◌-◌, ◌*◌, ◌%◌, ◌≤◌, ◌<◌, ◌≡◌, ◌≢◌, refl, List, [], ◌∷◌, ◌++◌, Option, none,
  some, arith, ltb, if◌then◌else◌, length, slice, get_or, u32, ap, ◌∙◌, Bool-cases, inl, inr, sym,
  ltb→lt, ltb_false→le, overlay, memcpy-some, length-slice, length-overlay, length-append,
  slice-overlay_self, slice-overlay_before, slice-overlay_after, leb, lt→ltb, le→ltb_false,
}
use mini_tmux.Grid.{
  Cell, Grid, push_line_to_history, Line, null, in_cells, in_history, get_display_line,
}
use mini_tmux.Grid.History.{IsValid, mul32_row, get_display_line_lem, available-le}

-- row `i` of an array of rows of `w` cells
abbrev pub row : ℕ → ℕ → List Cell → List Cell
row w i cells = slice (i * w) w cells

-- The ring holds the last `history_size` lines of `log`, the `m`-th in slot `m % history_size`.
pub record Logged (g : Grid) (ring : List Cell) (log : List (List Cell)) : Type 0 where
  pub counted : length log ≡ g.history_count
  pub kept :
      (m : ℕ)
      → m < g.history_count
      → g.history_count ≤ m + g.history_size
      → row g.width (m % g.history_size) ring ≡ get_or log m []

-- Fewer than `s` lines apart, two lines have different slots.
slot-ne : (s m d : ℕ) → 0 < d → d < s → (m + d) % s ≢ m % s
slot-ne s m d h k e = elim (dec_lt (m % s + d) s) [
  | yes p ↦ omega (arith, mod-add-mod m s d, mod-eq_of_lt p)
  | no p ↦ omega (
    arith,
    mod-add-mod m s d,
    mod-eq-sub-mod {n = m % s + d} {m = s} (omega arith),
    mod-eq_of_lt {n = m % s + d - s} {m = s} (omega (arith, mod-lt m {m = s} (omega arith))),
  )
]

pub rows_apart : (i j w : ℕ) → i < j → i * w + w ≤ j * w
rows_apart i j w h = grind arith

row-overlay_ne :
    (ring block : List Cell) (w i j : ℕ)
    → length block ≡ w
    → i ≢ j
    → row w i (overlay ring (j * w) block) ≡ row w i ring
row-overlay_ne ring block w i j len ne = elim (dec_lt i j) [
  | yes p ↦ slice-overlay_before ring (i * w) w (j * w) block (rows_apart i j w p)
  | no p ↦
      slice-overlay_after ring (i * w) w (j * w) block
        (omega (arith, rows_apart j i w (omega arith)))
]

row-overlay_self :
    (ring block : List Cell) (w j : ℕ)
    → length block ≡ w
    → j * w + w ≤ length ring
    → row w j (overlay ring (j * w) block) ≡ block
row-overlay_self ring block w j len fits =
    ap (λ n. slice (j * w) n (overlay ring (j * w) block)) (sym len)
    ∙ slice-overlay_self ring (j * w) block (omega arith)

pub get_or-append_last :
    (log : List (List Cell)) (x : List Cell) → get_or (log ++ (x ∷ [])) (length log) [] ≡ x
get_or-append_last [] x = refl
get_or-append_last (l ∷ log) x = get_or-append_last log x

pub get_or-append_lt :
    (log : List (List Cell)) (x : List Cell) (m : ℕ)
    → m < length log
    → get_or (log ++ (x ∷ [])) m [] ≡ get_or log m []
get_or-append_lt [] x m h = absurd (omega arith)
get_or-append_lt (l ∷ log) x zero h = refl
get_or-append_lt (l ∷ log) x (suc m) h = get_or-append_lt log x m (omega arith)

-- the ring after a push of `block`
abbrev pub pushed_ring : Grid → List Cell → List Cell → List Cell
pushed_ring g ring block = overlay ring (g.history_count % g.history_size * g.width) block

module _ {g : Grid} {ring : List Cell} (v : IsValid g ring) where
  slot_fits : g.history_count % g.history_size * g.width + g.width ≤ length ring
  slot_fits = omega (
    arith,
    v.ring_fits,
    rows_apart (g.history_count % g.history_size) g.history_size g.width
        (mod-lt g.history_count v.size_pos),
  )

  Logged-push :
      {log : List (List Cell)} (block : List Cell)
      → length block ≡ g.width
      → Logged g ring log
      → Logged
          (record g {
            history_cells = some (pushed_ring g ring block);
            history_count = g.history_count + 1;
          })
          (pushed_ring g ring block)
          (log ++ (block ∷ []))
  Logged-push {log} block len l = record {
    counted = omega (arith, length-append log (block ∷ []), l.counted);
    kept = kept;
  }
    where
      kept :
          (m : ℕ)
          → m < g.history_count + 1
          → g.history_count + 1 ≤ m + g.history_size
          → row g.width (m % g.history_size) (pushed_ring g ring block)
            ≡ get_or (log ++ (block ∷ [])) m []
      kept m h k = elim (ℕ_discrete m g.history_count) [
        | yes e ↦
            ap (λ t. row g.width (t % g.history_size) (pushed_ring g ring block)) e
            ∙ (row-overlay_self ring block g.width (g.history_count % g.history_size) len slot_fits
                ∙ (sym (get_or-append_last log block)
                    ∙ ap (λ t. get_or (log ++ (block ∷ [])) t []) (l.counted ∙ sym e)))
        | no ne ↦
            row-overlay_ne ring block g.width (m % g.history_size)
              (g.history_count % g.history_size) len
              (λ e.
                slot-ne g.history_size m (g.history_count - m) (omega arith) (omega arith)
                  (ap (λ t. t % g.history_size) (omega arith) ∙ sym e))
            ∙ (l.kept m (omega arith) (omega arith)
                ∙ sym (get_or-append_lt log block m (omega (arith, l.counted))))
      ]

  -- On a valid grid with fewer than 2^32 - 1 lines pushed, `grid_push_line_to_history` of a row of
  -- the screen accesses only memory inside the arrays, keeps the grid valid, and appends that row
  -- to the log that the ring holds.
  pub push_line_to_history_refines :
      {log : List (List Cell)} (line : ℕ)
      → line < g.height
      → g.history_count + 1 < u32
      → Logged g ring log
      → (g' : Grid) × (push_line_to_history g line ≡ some g')
        × IsValid g' (pushed_ring g ring (row g.width line g.cells))
        × Logged g'
            (pushed_ring g ring (row g.width line g.cells))
            (log ++ (row g.width line g.cells ∷ []))
        × (g'.cells ≡ g.cells)
        × (g'.scroll_offset ≡ g.scroll_offset)
  unfolding push_line_to_history
  push_line_to_history_refines line inside room l = (
    record g {
      history_cells = some (pushed_ring g ring block);
      history_count = g.history_count + 1;
    },
    ground (
      arith,
      mul32_row line g.height g.width inside v.screen_small,
      mul32_row (g.history_count % g.history_size) g.history_size g.width
          (mod-lt g.history_count v.size_pos) v.ring_small,
      memcpy-some ring (g.history_count % g.history_size * g.width) g.cells (line * g.width) g.width
          source_fits slot_fits,
    ),
    record {
      allocated = refl;
      screen_fits = v.screen_fits;
      ring_fits =
          length-overlay ring (g.history_count % g.history_size * g.width) block ∙ v.ring_fits;
      screen_small = v.screen_small;
      ring_small = v.ring_small;
      size_small = v.size_small;
      height_small = v.height_small;
      size_pos = v.size_pos;
      count_small = room;
      scrolled = ground (arith, v.scrolled);
    },
    Logged-push block len l,
    refl,
    refl,
  )
    where
      block : List Cell
      block = row g.width line g.cells

      source_fits : line * g.width + g.width ≤ length g.cells
      source_fits = omega (arith, v.screen_fits, rows_apart line g.height g.width inside)

      len : length block ≡ g.width
      len = length-slice (line * g.width) g.width g.cells source_fits

-- the `width` cells that a pointer leads to, `none` outside the arrays
unfoldable pub line_cells : Grid → Line → Option (List Cell)
line_cells g null = none
line_cells g (in_cells o) =
    if leb (o + g.width) (length g.cells) then some (slice o g.width g.cells) else none
line_cells g (in_history o) = elim g.history_cells [
  | none ↦ none
  | some ring ↦ if leb (o + g.width) (length ring) then some (slice o g.width ring) else none
]

-- The `m`-th line of the terminal's whole output: the lines pushed out, then the screen.
abbrev pub output_line : Grid → List (List Cell) → ℕ → List Cell
output_line g log m =
    if ltb m g.history_count then get_or log m [] else row g.width (m - g.history_count) g.cells

module _ {g : Grid} {ring : List Cell} (v : IsValid g ring) where
  line_cells_history :
      (slot : ℕ)
      → slot < g.history_size
      → line_cells g (in_history (slot * g.width)) ≡ some (row g.width slot ring)
  unfolding line_cells
  line_cells_history slot h =
      ground (arith, v.allocated, v.ring_fits, rows_apart slot g.history_size g.width h)

  line_cells_screen :
      (i : ℕ) → i < g.height → line_cells g (in_cells (i * g.width)) ≡ some (row g.width i g.cells)
  unfolding line_cells
  line_cells_screen i h = ground (arith, v.screen_fits, rows_apart i g.height g.width h)

  -- On a valid grid whose ring holds the end of `log`, row `y` of the display, scrolled back by
  -- `scroll_offset` lines, lies inside the arrays, and is the line that many lines before row `y`
  -- of the screen in the terminal's whole output.
  pub display_shows_output :
      {log : List (List Cell)} (y : ℕ)
      → Logged g ring log
      → y < g.height
      → line_cells g (get_display_line g y)
        ≡ some (output_line g log (g.history_count - g.scroll_offset + y))
  display_shows_output {log} y l h =
      rw (get_display_line_lem v y h) (elim (Bool-cases (ltb y g.scroll_offset)) [
        | inl old ↦
            let back : y < g.scroll_offset = ltb→lt y g.scroll_offset old in
            rw
              (
                old,
                lt→ltb (g.history_count - g.scroll_offset + y) g.history_count
                    (omega (arith, offset-le)),
              )
              (line_cells_history _ (mod-lt _ v.size_pos)
                ∙ ap some (
                    l.kept (g.history_count - g.scroll_offset + y) (omega (arith, offset-le))
                      (omega (arith, offset-le))))
        | inr new ↦
            let live : g.scroll_offset ≤ y = ltb_false→le y g.scroll_offset new in
            rw
              (
                new,
                le→ltb_false (g.history_count - g.scroll_offset + y) g.history_count
                    (omega (arith, offset-le)),
              )
              (line_cells_screen (y - g.scroll_offset) (omega arith)
                ∙ ap (λ t. some (row g.width t g.cells)) (omega (arith, offset-le)))
      ])
    where
      offset-le : (g.scroll_offset ≤ g.history_count) × (g.scroll_offset ≤ g.history_size)
      offset-le = omega (arith, v.scrolled, available-le v)
