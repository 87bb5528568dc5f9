-- ===== src/Window/Resize.antt =====
-- `pane_resize` of window.c: which cells the new screen has, and that no access misses an array.
use native.Mathlib.Nat.{mod-eq_of_lt}
use mini_tmux.Base.{
  ℕ, zero, suc, ◌+◌, ◌*◌, ◌^◌, ◌≤◌, ◌<◌, ◌≡◌, refl, List, some, arith, length, slice, overlay,
  length-overlay, length-slice, length-replicate, slice-overlay_self, slice-overlay_before, memcpy,
  memcpy-some, replicate, min, mul32, ltb, if◌then◌else◌, ◌∙◌, subst, ◌⊎◌, inl, inr,
}
use mini_tmux.Grid.{Cell, Grid, zero_cell}
use mini_tmux.Grid.History.{mul32_row}
use mini_tmux.Window.{Vterm, Pane, copy_rows, resized_cells, pane_resize, clamp}
use mini_tmux.Window.History.{HasRoom, push_lines-Pushed}

-- The rows from `y` to `e` have the first `k` cells of the old rows, the array its size.
record Copied (g : Grid) (sx k y e : ℕ) (new new' : List Cell) : Type 0 where
  size_same : length new' ≡ length new
  rows : (j : ℕ) → y ≤ j → j < e → slice (j * sx) k new' ≡ slice (j * g.width) k g.cells
  before : (j : ℕ) → j < y → slice (j * sx) k new' ≡ slice (j * sx) k new

row_before : (j y w : ℕ) → j < y → j * w + w ≤ y * w
row_before j y w h = grind arith

row_cases : (y j : ℕ) → y ≤ j → (y ≡ j) ⊎ (y < j)
row_cases y j h = omega arith

copy_rows-Copied :
    (g : Grid) (sx k y n h : ℕ) (new : List Cell)
    → k ≤ sx
    → k ≤ g.width
    → length new ≡ h * sx
    → h * sx < 2 ^ 31
    → y + n ≤ h
    → length g.cells ≡ g.height * g.width
    → g.height * g.width < 2 ^ 31
    → y + n ≤ g.height
    → (new' : List Cell) × (copy_rows g sx k y n new ≡ some new') × Copied g sx k y (y + n) new new'
unfolding copy_rows
copy_rows-Copied g sx k y zero h new a b c d e f i l = (
  new,
  refl,
  record { size_same = refl; rows = λ j u v. absurd (omega arith); before = λ j u. refl },
)
copy_rows-Copied g sx k y (suc n) h new a b c d e f i l =
    let to : mul32 y sx ≡ y * sx = mul32_row y h sx (omega arith) d in
    let from : mul32 y g.width ≡ y * g.width = mul32_row y g.height g.width (omega arith) i in
    let to_in = row_before y h sx (omega arith) in
    let from_in = row_before y g.height g.width (omega arith) in
    let block = slice (y * g.width) k g.cells in
    let block_size : length block ≡ k = length-slice (y * g.width) k g.cells (omega arith) in
    let copied : memcpy new (mul32 y sx) g.cells (mul32 y g.width) k
        ≡ some (overlay new (y * sx) block) =
      rw (to, from)
        (memcpy-some new (y * sx) g.cells (y * g.width) k (omega (arith, from_in))
          (omega (arith, to_in))) in
    let grown = length-overlay new (y * sx) block in
    let self =
      subst (λ m. slice (y * sx) m (overlay new (y * sx) block) ≡ block) block_size
        (slice-overlay_self new (y * sx) block (omega (arith, block_size, to_in))) in
    let (new', p, q) =
      copy_rows-Copied g sx k (suc y) n h (overlay new (y * sx) block) a b (grown ∙ c) d
        (omega arith) f i (omega arith) in
    (
      new',
      rw (copied, copy_rows) p,
      record {
        size_same = q.size_same ∙ grown;
        rows = λ j u v. elim (row_cases y j u) [
          | inl same ↦
              subst (λ r. slice (r * sx) k new' ≡ slice (r * g.width) k g.cells) same
                (q.before y (omega arith) ∙ self)
          | inr later ↦ q.rows j later (omega arith)
        ];
        before = λ j u.
            let row = row_before j y sx u in
            q.before j (omega arith)
            ∙ slice-overlay_before new (j * sx) k (y * sx) block (omega arith);
      },
    )

-- A screen of `sx` columns and `sy` rows that shows the part it shares with that of `g`.
pub record Shows (g : Grid) (sx sy : ℕ) (cells : List Cell) : Type 0 where
  pub fits : length cells ≡ sy * sx
  pub rows :
      (y : ℕ)
      → y < min g.height sy
      → slice (y * sx) (min g.width sx) cells ≡ slice (y * g.width) (min g.width sx) g.cells

narrower : (w sx : ℕ) → (if ltb w sx then w else sx) ≡ min w sx
narrower w sx = ground arith

mul32_comm : (a b : ℕ) → b * a < 2 ^ 31 → mul32 a b ≡ b * a
mul32_comm a b h = let c : a * b ≡ b * a = grind arith in mod-eq_of_lt (omega arith) ∙ c

pub resized_cells-Shows :
    (g : Grid) (sx sy : ℕ)
    → length g.cells ≡ g.height * g.width
    → g.height * g.width < 2 ^ 31
    → sy * sx < 2 ^ 31
    → (cells : List Cell) × (resized_cells g sx sy ≡ some cells) × Shows g sx sy cells
unfolding resized_cells
resized_cells-Shows g sx sy f i d =
    let size = length-replicate (sy * sx) zero_cell in
    let (cells, e, q) =
      copy_rows-Copied g sx (min g.width sx) 0 (min g.height sy) sy (replicate (sy * sx) zero_cell)
        (omega arith) (omega arith) size d (omega arith) f i (omega arith) in
    (
      cells,
      rw (narrower g.width sx, mul32_comm sx sy d) e,
      record { fits = q.size_same ∙ size; rows = λ y h. q.rows y (omega arith) (omega arith) },
    )

-- A pane of its own size, whose screen is as large as its grid says.
pub record IsPane (p : Pane) : Type 0 where
  pub screen_fits : length p.grid.cells ≡ p.grid.height * p.grid.width
  pub screen_small : p.grid.height * p.grid.width < 2 ^ 31
  pub width_same : p.grid.width ≡ p.sx
  pub height_same : p.grid.height ≡ p.sy

-- What `pane_resize` to `sx` columns and `sy` rows makes of `p`.
pub record Resized (p : Pane) (sx sy : ℕ) (p' : Pane) : Type 0 where
  pub is_pane : IsPane p'
  pub shows : Shows p.grid sx sy p'.grid.cells
  pub size : (p'.sx ≡ sx) × (p'.sy ≡ sy)
  pub cursor_in : (p'.cx < sx) × (p'.cy < sy)
  pub placed : (p'.xoff ≡ p.xoff) × (p'.yoff ≡ p.yoff)
  pub same : (p'.id ≡ p.id) × (p'.master_fd ≡ p.master_fd)
  pub has_room : HasRoom p'.grid sx

clamp_lt : (c size : ℕ) → 0 < size → size < 2 ^ 31 → clamp c size < size
clamp_lt c size h k = ground arith

-- A resize of a pane, whose grid has its size, to a screen of less than 2^31 cells, accesses only
-- the arrays if the history array has room for lines of the new width, whatever lines libvterm
-- pushes to the history. The new screen has the size, shows the part that it shares with the old
-- one, and has the cursor inside.
pub pane_resize-Resized :
    (vt : Vterm) (p : Pane) (sx sy : ℕ)
    → IsPane p
    → 0 < sx
    → 0 < sy
    → sy * sx < 2 ^ 31
    → HasRoom p.grid sx
    → (p' : Pane) × (pane_resize vt p sx sy ≡ some p') × Resized p sx sy p'
unfolding pane_resize
pane_resize-Resized vt p sx sy v x_pos y_pos small r =
    let (cells, e, shown) = resized_cells-Shows p.grid sx sy v.screen_fits v.screen_small small in
    let g0 = record p.grid { cells = cells; width = sx; height = sy } in
    let (g', e', q) = push_lines-Pushed (vt.scrolled_off p sx sy) g0 (record {
      ring = r.ring;
      allocated = r.allocated;
      size_pos = r.size_pos;
      room = r.room;
      room_small = r.room_small;
    }) in
    let x_small : sx ≤ sy * sx = grind arith in
    let y_small : sy ≤ sy * sx = grind arith in
    (
      record p { grid = g'; sx = sx; sy = sy; cx = clamp p.cx sx; cy = clamp p.cy sy },
      rw (e, e', pane_resize) refl,
      record {
        is_pane = record {
          screen_fits = rw (q.cells_same, q.height_same, q.width_same) shown.fits;
          screen_small = rw (q.height_same, q.width_same) small;
          width_same = q.width_same;
          height_same = q.height_same;
        };
        shows = rw q.cells_same shown;
        size = (refl, refl);
        cursor_in = (clamp_lt p.cx sx x_pos (omega arith), clamp_lt p.cy sy y_pos (omega arith));
        placed = (refl, refl);
        same = (refl, refl);
        has_room = q.has_room;
      },
    )
