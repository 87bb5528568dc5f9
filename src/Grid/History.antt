-- ===== src/Grid/History.antt =====
-- The history ring of a grid (render.c) against the log of all lines that were pushed to it.
use Prim.Native.Nat.{min}
use native.Mathlib.Nat.{mod-add-mod, add-mod_right, mod-eq_of_lt, mod-lt}
use mini_tmux.Base.{
  ℕ, ◌+◌, ◌-◌, ◌*◌, ◌%◌, ◌^◌, ◌≤◌, ◌<◌, ◌≡◌, refl, List, some, arith, ltb, if◌then◌else◌, length,
  replicate, u32, ap, ◌∙◌, mul32, add32, to_int, pos, ◌+ℤ◌, ◌-ℤ◌, leb, Bool-cases, inl, inr,
  length-replicate, lt→ltb, le→ltb_false, ◌||◌, false, ltb_ℤ, sub32, ltb_false→le, ◌==◌, sym,
  ltb→lt,
}
use mini_tmux.Grid.{
  Cell, Grid, zero_cell, init_history, available, scroll_up, scroll_down, in_cells, in_history,
  get_display_line, actual_slot, line_at,
}

-- A grid as `pane_create` makes it; pushing lines and scrolling keep it so. `pane_resize` to another
-- width does not: it leaves the history array as it is, so that `ring_fits` no longer holds. `ring` is
-- the history array.
pub record IsValid (g : Grid) (ring : List Cell) : Type 0 where
  pub allocated : g.history_cells ≡ some ring
  pub screen_fits : length g.cells ≡ g.height * g.width
  pub ring_fits : length ring ≡ g.history_size * g.width
  pub screen_small : g.height * g.width < 2 ^ 31
  pub ring_small : g.history_size * g.width < 2 ^ 31
  pub size_small : g.history_size < 2 ^ 31
  pub height_small : g.height < 2 ^ 31
  pub size_pos : 0 < g.history_size
  pub count_small : g.history_count < u32
  pub scrolled : g.scroll_offset ≤ available g

-- The element offset of row `i` of `n` does not wrap.
pub mul32_row : (i n w : ℕ) → i < n → n * w < 2 ^ 31 → mul32 i w ≡ i * w
mul32_row i n w h k = let below : i * w ≤ n * w = grind arith in mod-eq_of_lt (omega arith)

to_int_small : (x : ℕ) → x < 2 ^ 31 → to_int x ≡ pos x
to_int_small x h = ground arith

history_line_lem : (a o y : ℕ) → o ≤ a → pos a -ℤ pos o +ℤ pos y ≡ pos (a - o + y)
history_line_lem a o y h = ground arith

ltb_pos : (a b : ℕ) → ltb_ℤ (pos a) (pos b) ≡ ltb a b
ltb_pos a b = ground arith

pub sub32_lem : (a b : ℕ) → b ≤ a → a < u32 → sub32 a b ≡ a - b
sub32_lem a b h k = omega arith

module _ {g : Grid} {ring : List Cell} (v : IsValid g ring) where
  pub available-le : (available g ≤ g.history_size) × (available g ≤ g.history_count)
  available-le = ground arith

  -- The slots are those of the last `available` lines pushed, oldest first.
  pub actual_slot_lem :
      (k : ℕ)
      → k < available g
      → actual_slot g k ≡ (g.history_count - available g + k) % g.history_size
  actual_slot_lem k h = elim (Bool-cases (leb g.history_count g.history_size)) [
    | inl fits ↦
        rw fits (sym (mod-eq_of_lt (ground arith)) ∙ ap (λ t. t % g.history_size) (ground arith))
    | inr full ↦ rw full (full_slot (ground arith) (ground arith))
  ]
    where
      full_slot :
          available g ≡ g.history_size
          → g.history_size ≤ g.history_count
          → add32 (g.history_count % g.history_size) k % g.history_size
            ≡ (g.history_count - available g + k) % g.history_size
      full_slot e f =
          ap (λ t. t % g.history_size)
            (mod-eq_of_lt (omega (arith, mod-lt g.history_count v.size_pos)))
          ∙ (mod-add-mod g.history_count g.history_size k
              ∙ (ap (λ t. t % g.history_size) (omega arith)
                  ∙ (add-mod_right (g.history_count - g.history_size + k) g.history_size
                      ∙ ap (λ t. (g.history_count - t + k) % g.history_size) (sym e))))

  line_at_lem :
      (k : ℕ)
      → k < available g + g.height
      → line_at g (pos k) ≡ (
          if ltb k (available g)
          then in_history (((g.history_count - available g + k) % g.history_size) * g.width)
          else in_cells ((k - available g) * g.width))
  line_at_lem k h =
      rw (to_int_small (available g) (omega (arith, available-le)), ltb_pos k (available g))
        (elim (Bool-cases (ltb k (available g))) [
          | inl old ↦
              rw (old, actual_slot_lem k (ltb→lt k (available g) old))
                (ap in_history
                  (mul32_row _ g.history_size g.width (mod-lt _ v.size_pos) v.ring_small))
          | inr new ↦ rw new (ap in_cells (screen_row (ltb_false→le k (available g) new)))
        ])
    where
      screen_row :
          available g ≤ k → mul32 (sub32 k (available g)) g.width ≡ (k - available g) * g.width
      screen_row le =
          ap (λ t. mul32 t g.width) (sub32_lem k (available g) le (omega (arith, available-le)))
          ∙ mul32_row (k - available g) g.height g.width (omega arith) v.screen_small

  scrolled_line :
      (y : ℕ)
      → y < g.height
      → line_at g (to_int (available g) -ℤ to_int g.scroll_offset +ℤ to_int y) ≡ (
          if ltb y g.scroll_offset
          then in_history (((g.history_count - g.scroll_offset + y) % g.history_size) * g.width)
          else in_cells ((y - g.scroll_offset) * g.width))
  scrolled_line y h =
      ap (line_at g) whole
      ∙ (line_at_lem (available g - g.scroll_offset + y) (omega (arith, v.scrolled))
          ∙ elim (Bool-cases (ltb y g.scroll_offset)) [
            | inl old ↦
                rw
                  (
                    old,
                    lt→ltb (available g - g.scroll_offset + y) (available g)
                        (omega (arith, v.scrolled, ltb→lt y g.scroll_offset old)),
                  )
                  (ap (λ t. in_history (t % g.history_size * g.width))
                    (omega (arith, v.scrolled, available-le)))
            | inr new ↦
                rw
                  (
                    new,
                    le→ltb_false (available g - g.scroll_offset + y) (available g)
                        (omega (arith, v.scrolled, ltb_false→le y g.scroll_offset new)),
                  )
                  (ap (λ t. in_cells (t * g.width))
                    (omega (arith, v.scrolled, ltb_false→le y g.scroll_offset new)))
          ])
    where
      whole :
          to_int (available g) -ℤ to_int g.scroll_offset +ℤ to_int y
          ≡ pos (available g - g.scroll_offset + y)
      whole =
          rw
            (
              to_int_small (available g) (omega (arith, available-le)),
              to_int_small g.scroll_offset (omega (arith, available-le, v.scrolled)),
              to_int_small y (omega arith),
            )
            (history_line_lem (available g) g.scroll_offset y v.scrolled)

  -- The line shown in row `y` of the screen: not scrolled back, row `y` of `cells`; scrolled back by
  -- `scroll_offset` lines, the line that came that many lines before it.
  pub get_display_line_lem :
      (y : ℕ)
      → y < g.height
      → get_display_line g y ≡ (
          if ltb y g.scroll_offset
          then in_history (((g.history_count - g.scroll_offset + y) % g.history_size) * g.width)
          else in_cells ((y - g.scroll_offset) * g.width))
  unfolding get_display_line
  get_display_line_lem y h = elim (Bool-cases (g.scroll_offset == 0)) [
    | inl live ↦ ground (arith, mul32_row y g.height g.width h v.screen_small)
    | inr back ↦ rw (back, has_history back) (scrolled_line y h)
  ]
    where
      has_history :
          (g.scroll_offset == 0) ≡ false → (g.history_count == 0 || g.history_size == 0) ≡ false
      has_history back = ground (arith, v.scrolled, available-le, v.size_pos)

module _ {g : Grid} {ring : List Cell} (v : IsValid g ring) (lines : ℕ) where
  -- On a valid grid, if the sum of the offset and the lines does not wrap, `grid_scroll_up` moves back by `lines` but no further than the
  -- lines that the ring holds, and `grid_scroll_down` moves on by `lines` but no further than the
  -- live screen; both keep the grid valid and touch nothing but the offset.
  pub scroll_lem :
      lines + g.scroll_offset < u32
      → (scroll_up g lines
          ≡ record g { scroll_offset = min (g.scroll_offset + lines) (available g) })
        × (scroll_down g lines ≡ record g { scroll_offset = g.scroll_offset - lines })
        × IsValid (scroll_up g lines) ring
        × IsValid (scroll_down g lines) ring
  unfolding scroll_up scroll_down
  scroll_lem small = (ground arith, ground arith, up, down)
    where
      up : IsValid (scroll_up g lines) ring
      up = ground arith

      down : IsValid (scroll_down g lines) ring
      down = ground arith

-- `pane_create` prepares a grid of `sx` by `sy` with an empty history of 1000 lines: it is valid.
pub init_history-IsValid :
    (g : Grid)
    → length g.cells ≡ g.height * g.width
    → g.height * g.width < 2 ^ 31
    → 1000 * g.width < 2 ^ 31
    → g.height < 2 ^ 31
    → IsValid (init_history g 1000) (replicate (mul32 1000 g.width) zero_cell)
unfolding init_history
init_history-IsValid g fits small ring_small height_small = record {
  allocated = refl;
  screen_fits = fits;
  ring_fits = length-replicate _ zero_cell ∙ mod-eq_of_lt (omega arith);
  screen_small = small;
  ring_small = ring_small;
  size_small = omega arith;
  height_small = height_small;
  size_pos = omega arith;
  count_small = omega arith;
  scrolled = omega arith;
}
