-- ===== src/Input/Replay.antt =====
-- `sync_vterm_from_grid` of input.c, which writes a restored grid to libvterm, and what a terminal
-- shows of it. The array of cells has less than 2^32 of them.
use mini_tmux.Base.{
  ℕ, zero, suc, ◌+◌, ◌*◌, ◌^◌, ◌≤◌, ◌<◌, ◌≡◌, refl, List, [], ◌∷◌, ◌++◌, Option, none, some, arith,
  length, drop, All, add32, mul32, ap, ◌∙◌, sym, subst, length-drop, slice,
}
use mini_tmux.Grid.{Grid}
use mini_tmux.Grid.History.{mul32_row}
use mini_tmux.Grid.Log.{row, rows_apart}
use mini_tmux.Window
use mini_tmux.Render.{Out, home, clear, move, reset, Attrs, first_attrs, draw_cells}
use mini_tmux.Render.Screen.{
  plain, Paint, to_home, cleared, at, pen_after_all, paint, paint-append, glyphs, HasText, Shown,
  draw_cells-Shown,
}
use mini_tmux.Render.Pane.{All-drop, Shown-append}

unfoldable pub replay_row : Grid → Attrs → ℕ → Option (List Out × Attrs)
replay_row g a y = elim (draw_cells a 0 g.width (drop (mul32 y g.width) g.cells)) [
  | none ↦ none
  | some (out, a') ↦ some (move (add32 y 1) 1 ∷ out, a')
]

-- `n` rows from row `y` on
unfoldable pub replay_rows : Grid → Attrs → ℕ → ℕ → Option (List Out × Attrs)
replay_rows g a y zero = some ([], a)
replay_rows g a y (suc n) = elim (replay_row g a y) [
  | none ↦ none
  | some (out, a') ↦ elim (replay_rows g a' (suc y) n) [
    | none ↦ none
    | some (rest, a'') ↦ some (out ++ rest, a'')
  ]
]

unfoldable pub sync_vterm_from_grid : Window.Pane → Option (List Out)
sync_vterm_from_grid p = elim (replay_rows p.grid first_attrs 0 p.grid.height) [
  | none ↦ none
  | some (rows, _) ↦
      some (home ∷ clear ∷ reset ∷ (rows ++ (move (add32 p.cy 1) (add32 p.cx 1) ∷ [])))
]

-- what a terminal shows of `n` rows of the screen of `g` from row `y` on
unfoldable pub screen_view : Grid → ℕ → ℕ → List Paint
screen_view g y zero = []
screen_view g y (suc n) =
    (at (add32 y 1) 1 ∷ glyphs 0 (row g.width y g.cells)) ++ screen_view g (suc y) n

module _ (g : Grid) (fits : length g.cells ≡ g.height * g.width)
    (small : g.height * g.width < 2 ^ 31) (texts : All HasText g.cells) where
  replay_row-Shown :
      (a : Attrs) (y : ℕ)
      → y < g.height
      → (r : List Out × Attrs) × (replay_row g a y ≡ some r)
        × Shown a (at (add32 y 1) 1 ∷ glyphs 0 (row g.width y g.cells)) r
  unfolding replay_row paint pen_after_all slice
  replay_row-Shown a y h =
      let start = mul32_row y g.height g.width h small in
      let (r, e, s) =
        draw_cells-Shown a 0 g.width (drop (y * g.width) g.cells)
          (omega (arith, fits, length-drop (y * g.width) g.cells, rows_apart y g.height g.width h))
          (All-drop HasText (y * g.width) g.cells texts) in
      let e' = subst (λ i. draw_cells a 0 g.width (drop i g.cells) ≡ some r) (sym start) e in
      (
        (move (add32 y 1) 1 ∷ r.0, r.1),
        rw (e', replay_row) refl,
        record { shows = ap (λ v. at (add32 y 1) 1 ∷ v) s.shows; pen = s.pen },
      )

  replay_rows-suc :
      (a : Attrs) (y n : ℕ) (r r' : List Out × Attrs)
      → replay_row g a y ≡ some r
      → replay_rows g r.1 (suc y) n ≡ some r'
      → replay_rows g a y (suc n) ≡ some (r.0 ++ r'.0, r'.1)
  unfolding replay_rows
  replay_rows-suc a y n r r' e e' = rw (e, e', replay_rows) refl

  replay_rows-Shown :
      (a : Attrs) (y n : ℕ)
      → y + n ≤ g.height
      → (r : List Out × Attrs) × (replay_rows g a y n ≡ some r) × Shown a (screen_view g y n) r
  unfolding replay_rows screen_view paint pen_after_all
  replay_rows-Shown a y zero h = (([], a), refl, record { shows = refl; pen = refl })
  replay_rows-Shown a y (suc n) h =
      let (r, e, s) = replay_row-Shown a y (omega arith) in
      let (r', e', s') = replay_rows-Shown r.1 (suc y) n (omega arith) in
      (
        (r.0 ++ r'.0, r'.1),
        replay_rows-suc a y n r r' e e',
        Shown-append a (at (add32 y 1) 1 ∷ glyphs 0 (row g.width y g.cells))
            (screen_view g (suc y) n) r r' s s',
      )

-- For a pane with a screen of its size, below 2^31 cells with texts, what is written to libvterm
-- clears it and shows each row of the grid in its row, each cell with its own attributes, and
-- leaves the cursor at the place of the pane's.
pub sync_vterm_from_grid-shows :
    (p : Window.Pane)
    → length p.grid.cells ≡ p.grid.height * p.grid.width
    → p.grid.height * p.grid.width < 2 ^ 31
    → All HasText p.grid.cells
    → (out : List Out) × (sync_vterm_from_grid p ≡ some out)
      × (paint plain out
          ≡ to_home
            ∷ cleared
            ∷ (screen_view p.grid 0 p.grid.height ++ (at (add32 p.cy 1) (add32 p.cx 1) ∷ [])))
unfolding sync_vterm_from_grid paint
sync_vterm_from_grid-shows p fits small texts =
    let (r, e, s) =
      replay_rows-Shown p.grid fits small texts first_attrs 0 p.grid.height (omega arith) in
    let rest = move (add32 p.cy 1) (add32 p.cx 1) ∷ [] in
    (
      home ∷ clear ∷ reset ∷ (r.0 ++ rest),
      rw (e, sync_vterm_from_grid) refl,
      ap (λ v. to_home ∷ cleared ∷ v)
          (paint-append plain r.0 rest
            ∙ ap (λ v. v ++ (at (add32 p.cy 1) (add32 p.cx 1) ∷ [])) s.shows),
    )
