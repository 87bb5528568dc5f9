-- ===== src/Window/History.antt =====
-- The lines that libvterm pushes to the history of a pane (window.c) and the size of the array.
use native.Mathlib.Nat.{mod-lt}
use mini_tmux.Base.{
  ℕ, zero, suc, ◌+◌, ◌*◌, ◌%◌, ◌^◌, ◌≤◌, ◌<◌, ◌≡◌, refl, List, [], ◌∷◌, none, some, arith, length,
  get_elem?, set, length-set, Option-cases, inl, inr, min, mul32, add32, ◌==◌, ◌∙◌, subst, false,
}
use mini_tmux.Grid.{Cell, Grid}
use mini_tmux.Grid.History.{mul32_row}
use mini_tmux.Window.{ScreenCell, history_cell, push_cells, screen_sb_pushline, push_lines}

pub get_elem?-in :
    {A : Type 0} (xs : List A) (i : ℕ) → i < length xs → (a : A) × (get_elem? xs i ≡ some a)
get_elem?-in [] i h = absurd (omega arith)
get_elem?-in (x ∷ xs) zero h = (x, refl)
get_elem?-in (x ∷ xs) (suc i) h = get_elem?-in xs i (omega arith)

get_elem?-some :
    {A : Type 0} (xs : List A) (i : ℕ) (a : A) → get_elem? xs i ≡ some a → i < length xs
get_elem?-some [] i a e = absurd (cc)
get_elem?-some (x ∷ xs) zero a e = omega arith
get_elem?-some (x ∷ xs) (suc i) a e = omega (arith, get_elem?-some xs i a e)

push_cells-some :
    (ring : List Cell) (i n : ℕ) (vcs : List ScreenCell)
    → i + n ≤ length ring
    → n ≤ length vcs
    → (ring' : List Cell) × (push_cells ring i n vcs ≡ some ring') × (length ring' ≡ length ring)
unfolding push_cells
push_cells-some ring i zero vcs h k = (ring, refl, refl)
push_cells-some ring i (suc n) [] h k = absurd (omega arith)
push_cells-some ring i (suc n) (vc ∷ vcs) h k =
    let (c, e) = get_elem?-in ring i (omega arith) in
    let same = length-set ring i (history_cell c vc) in
    let (ring', e', l) =
      push_cells-some (set ring i (history_cell c vc)) (suc i) n vcs (omega (arith, same))
        (omega arith) in
    (ring', rw (e, push_cells) e', l ∙ same)

push_cells-none :
    (ring : List Cell) (i n : ℕ) (vcs : List ScreenCell)
    → length ring < i + n
    → n ≤ length vcs
    → 0 < n
    → push_cells ring i n vcs ≡ none
unfolding push_cells
push_cells-none ring i zero vcs h k m = absurd (omega arith)
push_cells-none ring i (suc n) [] h k m = absurd (omega arith)
push_cells-none ring i (suc n) (vc ∷ vcs) h k m = elim (Option-cases (get_elem? ring i)) [
  | inl e ↦ rw (e, push_cells) refl
  | inr (c, e) ↦
      rw (e, push_cells)
        (push_cells-none (set ring i (history_cell c vc)) (suc i) n vcs
          (omega (arith, length-set ring i (history_cell c vc))) (omega arith)
          (omega (arith, get_elem?-some ring i c e)))
]

-- The history has its lines, and space for each at `w` cells.
pub record HasRoom (g : Grid) (w : ℕ) : Type 0 where
  pub ring : List Cell
  pub allocated : g.history_cells ≡ some ring
  pub size_pos : 0 < g.history_size
  pub room : g.history_size * w ≤ length ring
  pub room_small : g.history_size * w < 2 ^ 31

pub HasRoom-narrower : (g : Grid) (w w' : ℕ) → w' ≤ w → HasRoom g w → HasRoom g w'
HasRoom-narrower g w w' h r =
    let below : g.history_size * w' ≤ g.history_size * w = grind arith in
    record {
      ring = r.ring;
      allocated = r.allocated;
      size_pos = r.size_pos;
      room = omega (arith, r.room);
      room_small = omega (arith, r.room_small);
    }

-- What pushing to the history leaves as it is.
pub record Pushed (g g' : Grid) : Type 0 where
  pub cells_same : g'.cells ≡ g.cells
  pub width_same : g'.width ≡ g.width
  pub height_same : g'.height ≡ g.height
  pub has_room : HasRoom g' g.width

-- A line of any number of columns that libvterm pushes stays inside a history with room, and
-- changes only the history.
pub screen_sb_pushline-Pushed :
    (vcs : List ScreenCell) (g : Grid)
    → HasRoom g g.width
    → (g' : Grid) × (screen_sb_pushline vcs g ≡ some g') × Pushed g g'
unfolding screen_sb_pushline
screen_sb_pushline-Pushed vcs g r =
    let slot = g.history_count % g.history_size in
    let in_ring : slot < g.history_size = mod-lt g.history_count r.size_pos in
    let below : (slot + 1) * g.width ≤ g.history_size * g.width = grind arith in
    let at : mul32 slot g.width ≡ slot * g.width =
      mul32_row slot g.history_size g.width in_ring r.room_small in
    let (ring', e, l) =
      push_cells-some r.ring (mul32 slot g.width) (min g.width (length vcs)) vcs
        (omega (arith, r.room)) (omega arith) in
    let pos_size : (g.history_size == 0) ≡ false = ground (arith, r.size_pos) in
    (
      record g { history_cells = some ring'; history_count = add32 g.history_count 1 },
      rw (r.allocated, pos_size, e, screen_sb_pushline) refl,
      record {
        cells_same = refl;
        width_same = refl;
        height_same = refl;
        has_room = record {
          ring = ring';
          allocated = refl;
          size_pos = r.size_pos;
          room = omega (arith, r.room);
          room_small = r.room_small;
        };
      },
    )

pub push_lines-Pushed :
    (lines : List (List ScreenCell)) (g : Grid)
    → HasRoom g g.width
    → (g' : Grid) × (push_lines lines g ≡ some g') × Pushed g g'
unfolding push_lines
push_lines-Pushed [] g r =
    (g, refl, record { cells_same = refl; width_same = refl; height_same = refl; has_room = r })
push_lines-Pushed (vcs ∷ lines) g r =
    let (g1, e1, p1) = screen_sb_pushline-Pushed vcs g r in
    let (g2, e2, p2) = push_lines-Pushed lines g1 (rw p1.width_same p1.has_room) in
    (
      g2,
      rw (e1, push_lines) e2,
      record {
        cells_same = p2.cells_same ∙ p1.cells_same;
        width_same = p2.width_same ∙ p1.width_same;
        height_same = p2.height_same ∙ p1.height_same;
        has_room = subst (HasRoom g2) p1.width_same p2.has_room;
      },
    )

row_end : (s n w : ℕ) → suc s ≡ n → s * w + w ≡ n * w
row_end s n w e = subst (λ k. s * w + w ≡ k * w) e (suc_mul s w)
  where
    suc_mul : (s w : ℕ) → s * w + w ≡ suc s * w
    suc_mul s w = omega arith

width_pos : (n w l : ℕ) → l < n * w → 0 < w
width_pos n zero l h = absurd (omega arith)
width_pos n (suc w) l h = omega arith

-- In a grid whose history has less room than its lines of the present width need (below 2^31
-- cells), a line of at least that width pushed to the last slot is written outside the history.
pub screen_sb_pushline_overflow :
    (vcs : List ScreenCell) (g : Grid) (ring : List Cell)
    → g.history_cells ≡ some ring
    → 0 < g.history_size
    → suc (g.history_count % g.history_size) ≡ g.history_size
    → g.history_size * g.width < 2 ^ 31
    → length ring < g.history_size * g.width
    → g.width ≤ length vcs
    → screen_sb_pushline vcs g ≡ none
unfolding screen_sb_pushline
screen_sb_pushline_overflow vcs g ring a size_pos last small short wide =
    let slot = g.history_count % g.history_size in
    let at : mul32 slot g.width ≡ slot * g.width =
      mul32_row slot g.history_size g.width (omega (arith, last)) small in
    let end : slot * g.width + g.width ≡ g.history_size * g.width =
      row_end slot g.history_size g.width last in
    let pos_width : 0 < g.width = width_pos g.history_size g.width (length ring) short in
    let pos_size : (g.history_size == 0) ≡ false = ground (arith, size_pos) in
    let missed =
      push_cells-none ring (mul32 slot g.width) (min g.width (length vcs)) vcs
        (omega (arith, at, end)) (omega arith) (omega (arith, pos_width)) in
    rw (a, pos_size, missed, screen_sb_pushline) refl
