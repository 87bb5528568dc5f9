-- ===== src/Input/Sync.antt =====
-- What `pane_input` of input.c leaves in a pane: the screen of libvterm, cell by cell.
use native.Mathlib.Nat.{mod-eq_of_lt}
use mini_tmux.Base.{
  ℕ, zero, suc, ◌+◌, ◌*◌, ◌^◌, ◌≤◌, ◌<◌, ◌≡◌, ◌⊎◌, inl, inr, refl, List, some, true, arith, length,
  get_elem?, set, length-set, get_elem?-set_self, get_elem?-set_ne, mul32, add32, ltb, lt→ltb, ◌∙◌,
  subst, ap, ap₂, sym,
}
use mini_tmux.Grid.{Cell, Grid}
use mini_tmux.Grid.History.{mul32_row}
use mini_tmux.Window.{ScreenCell, Pane}
use mini_tmux.Window.History.{HasRoom, push_lines-Pushed}
use mini_tmux.Window.Resize.{IsPane}
use mini_tmux.Input.{grid_cell, Parsed, sync_row, sync_rows, sync_grid_from_vterm, pane_input}

module _ (screen : ℕ → ℕ → ScreenCell) (w : ℕ) where
  -- The cells of row `y` from `x` to `e` are those of the screen, the cells in front as before.
  record RowSynced (y x e : ℕ) (cells cells' : List Cell) : Type 0 where
    size_same : length cells' ≡ length cells
    written : (j : ℕ) → x ≤ j → j < e → get_elem? cells' (y * w + j) ≡ some (grid_cell (screen y j))
    before : (i : ℕ) → i < y * w + x → get_elem? cells' i ≡ get_elem? cells i

  first_or_later : (x j : ℕ) → x ≤ j → (x ≡ j) ⊎ (x < j)
  first_or_later x j h = omega arith

  add32_cell : (y x h : ℕ) → y < h → x < w → h * w < 2 ^ 31 → add32 (mul32 y w) x ≡ y * w + x
  add32_cell y x h y_in x_in small =
      let row : (y + 1) * w ≤ h * w = grind arith in
      let at = mul32_row y h w y_in small in ap (λ r. add32 r x) at ∙ mod-eq_of_lt (omega arith)

  cell_in : (y x h : ℕ) → y < h → x < w → y * w + x < h * w
  cell_in y x h y_in x_in = let row : (y + 1) * w ≤ h * w = grind arith in omega arith

  sync_row-suc :
      (y x n : ℕ) (cells : List Cell)
      → add32 (mul32 y w) x ≡ y * w + x
      → ltb (y * w + x) (length cells) ≡ true
      → sync_row screen w y x (suc n) cells
        ≡ sync_row screen w y (suc x) n (set cells (y * w + x) (grid_cell (screen y x)))
  unfolding sync_row
  sync_row-suc y x n cells at in_cells = rw (at, in_cells) refl

  sync_row-RowSynced :
      (y x n h : ℕ) (cells : List Cell)
      → y < h
      → x + n ≤ w
      → length cells ≡ h * w
      → h * w < 2 ^ 31
      → (cells' : List Cell) × (sync_row screen w y x n cells ≡ some cells')
        × RowSynced y x (x + n) cells cells'
  unfolding sync_row
  sync_row-RowSynced y x zero h cells a b c d = (
    cells,
    refl,
    record { size_same = refl; written = λ j u v. absurd (omega arith); before = λ i u. refl },
  )
  sync_row-RowSynced y x (suc n) h cells a b c d =
      let at = add32_cell y x h a (omega arith) d in
      let inside = cell_in y x h a (omega arith) in
      let in_cells = lt→ltb (y * w + x) (length cells) (omega (arith, inside, c)) in
      let v = grid_cell (screen y x) in
      let same = length-set cells (y * w + x) v in
      let (cells', p, q) =
        sync_row-RowSynced y (suc x) n h (set cells (y * w + x) v) a (omega arith) (same ∙ c) d in
      (
        cells',
        sync_row-suc y x n cells at in_cells ∙ p,
        record {
          size_same = q.size_same ∙ same;
          written = λ j u b'. elim (first_or_later x j u) [
            | inl e ↦
                subst (λ r. get_elem? cells' (y * w + r) ≡ some (grid_cell (screen y r))) e
                  (q.before (y * w + x) (omega arith)
                    ∙ get_elem?-set_self cells (y * w + x) v (omega (arith, inside, c)))
            | inr later ↦ q.written j later (omega arith)
          ];
          before = λ i u.
              q.before i (omega arith)
              ∙ get_elem?-set_ne cells (y * w + x) i v (λ e. absurd (omega arith));
        },
      )

  -- The same of the rows from `y` to `e`, `n` cells of each.
  record RowsSynced (n y e : ℕ) (cells cells' : List Cell) : Type 0 where
    size_same : length cells' ≡ length cells
    written :
        (i j : ℕ)
        → y ≤ i
        → i < e
        → j < n
        → get_elem? cells' (i * w + j) ≡ some (grid_cell (screen i j))
    before : (i : ℕ) → i < y * w → get_elem? cells' i ≡ get_elem? cells i

  sync_rows-RowsSynced :
      (n y m h : ℕ) (cells : List Cell)
      → y + m ≤ h
      → n ≤ w
      → length cells ≡ h * w
      → h * w < 2 ^ 31
      → (cells' : List Cell) × (sync_rows screen w n y m cells ≡ some cells')
        × RowsSynced n y (y + m) cells cells'
  unfolding sync_rows
  sync_rows-RowsSynced n y zero h cells a b c d = (
    cells,
    refl,
    record { size_same = refl; written = λ i j u v t. absurd (omega arith); before = λ i u. refl },
  )
  sync_rows-RowsSynced n y (suc m) h cells a b c d =
      let (cells1, p1, q1) = sync_row-RowSynced y 0 n h cells (omega arith) (omega arith) c d in
      let (cells2, p2, q2) =
        sync_rows-RowsSynced n (suc y) m h cells1 (omega arith) b (q1.size_same ∙ c) d in
      let next : suc y * w ≡ y * w + w = omega arith in
      (
        cells2,
        rw (p1, sync_rows) p2,
        record {
          size_same = q2.size_same ∙ q1.size_same;
          written = λ i j u v t. elim (first_or_later y i u) [
            | inl e ↦
                subst (λ r. get_elem? cells2 (r * w + j) ≡ some (grid_cell (screen r j))) e
                  (q2.before (y * w + j) (omega arith) ∙ q1.written j (omega arith) (omega arith))
            | inr later ↦ q2.written i j later (omega arith) t
          ];
          before = λ i u. q2.before i (omega arith) ∙ q1.before i (omega arith);
        },
      )

-- The pane after its shell wrote: its grid holds the cells of libvterm's screen.
pub record Mirrors (v : Parsed) (p p' : Pane) : Type 0 where
  pub is_pane : IsPane p'
  pub cells :
      (y x : ℕ)
      → y < p.sy
      → x < p.sx
      → get_elem? p'.grid.cells (y * p.sx + x) ≡ some (grid_cell (v.screen y x))
  pub cursor : (p'.cx ≡ v.cursor_col) × (p'.cy ≡ v.cursor_row)
  pub has_room : HasRoom p'.grid p.sx

HasRoom-cells :
    (g : Grid) (cells : List Cell) (w : ℕ) → HasRoom g w → HasRoom (record g { cells = cells }) w
HasRoom-cells g cells w r = record {
  ring = r.ring;
  allocated = r.allocated;
  size_pos = r.size_pos;
  room = r.room;
  room_small = r.room_small;
}

sync-Mirrors :
    (v : Parsed) (p : Pane) (g : Grid)
    → g.width ≡ p.sx
    → g.height ≡ p.sy
    → length g.cells ≡ p.sy * p.sx
    → p.sy * p.sx < 2 ^ 31
    → HasRoom g p.sx
    → (p' : Pane) × (sync_grid_from_vterm v (record p { grid = g }) ≡ some p') × Mirrors v p p'
unfolding sync_grid_from_vterm
sync-Mirrors v p g w_same h_same size small r =
    let (cells, e, s) =
      sync_rows-RowsSynced v.screen p.sx p.sx 0 p.sy p.sy g.cells (omega arith) (omega arith) size
        small in
    let e_w = subst (λ w. sync_rows v.screen w p.sx 0 p.sy g.cells ≡ some cells) (sym w_same) e in
    (
      record p { grid = record g { cells = cells }; cx = v.cursor_col; cy = v.cursor_row },
      rw (e_w, sync_grid_from_vterm) refl,
      record {
        is_pane = record {
          screen_fits = s.size_same ∙ size ∙ ap₂ (λ a b. a * b) (sym h_same) (sym w_same);
          screen_small = rw (w_same, h_same) small;
          width_same = w_same;
          height_same = h_same;
        };
        cells = λ y x a b. s.written y x (omega arith) (omega arith) b;
        cursor = (refl, refl);
        has_room = HasRoom-cells g cells p.sx r;
      },
    )

-- Output of the shell to a pane whose grid has the pane's size, all its cells allocated, and whose
-- history array has room for lines of that width is taken without an access outside the arrays,
-- whatever lines it scrolls off. It leaves each cell of the screen of libvterm in the grid, and
-- the pane such that the next output is taken as well.
pub pane_input-Mirrors :
    (v : Parsed) (p : Pane)
    → IsPane p
    → HasRoom p.grid p.sx
    → (p' : Pane) × (pane_input v p ≡ some p') × Mirrors v p p'
unfolding pane_input sync_grid_from_vterm
pane_input-Mirrors v p ok r =
    let (g, e, q) =
      push_lines-Pushed v.scrolled_off p.grid (subst (HasRoom p.grid) (sym ok.width_same) r) in
    let (p', e', m) =
      sync-Mirrors v p g (q.width_same ∙ ok.width_same) (q.height_same ∙ ok.height_same)
        (ap length q.cells_same ∙ ok.screen_fits ∙ ap₂ (λ a b. a * b) ok.height_same ok.width_same)
        (rw (sym ok.height_same, sym ok.width_same) ok.screen_small)
        (subst (HasRoom g) ok.width_same q.has_room) in
    (p', rw (e, pane_input) e', m)
