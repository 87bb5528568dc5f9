-- ===== src/Client/Attach/Redrawn.antt =====
-- A client that attaches and draws itself: `client_main` of client.c with a session id, up to its loop,
-- against what the panes showed when their grids were saved.
pub mod Screen
pub mod Roundtrip
use mathlib.Core.Option.{some-injective}
use mini_tmux.Base.{
  ℕ, zero, suc, ◌+◌, ◌-◌, ◌*◌, ◌%◌, ◌≤◌, ◌<◌, ◌≡◌, refl, List, [], ◌∷◌, ◌++◌, Option, none, some,
  arith, length, map, All, ap, ap₂, ◌∙◌, sym, subst, take, drop, slice, overlay, overwrite,
  replicate, leb, mul32, Bool-cases, inl, inr, ℤ, add32, get_elem?, if◌then◌else◌,
}
use mini_tmux.Grid.{Cell, Grid, zero_cell, available, get_display_line}
use mini_tmux.Grid.History.{IsValid}
use mini_tmux.Grid.Log.{Logged, line_cells, output_line, display_shows_output}
use mini_tmux.Grid.Serial.RoundTrip.{history_lines}
use mini_tmux.Grid.Serial.Restore.{restored, restored_ring}
use mini_tmux.Grid.Serial.Display.{display-restored, restored-IsValid, restored-Logged}
use mini_tmux.Render.{Out}
use mini_tmux.Render.Screen.{HasText, Paint, plain, paint, cleared, to_home}
use mini_tmux.Render.Pane.{Renderable, All-drop, rows_view, row_view, pane_view}
use mini_tmux.Render.Status.{BarTexts, bar_mark, display_width}
use mini_tmux.Window.{Pane, pane_create, pane_set_master_fd}
use mini_tmux.Client.{Client, Answers}
use mini_tmux.Client.Draw.{first_draw}
use mini_tmux.Client.Draw.Parts.{bar_view, cursor_place, border_view}
use mini_tmux.Client.Draw.First.{AllRenderable, none_left, renderable, panes_view, first_draw-shows}
use mini_tmux.Client.Attach.{attached}
use mini_tmux.Client.Attach.Same.{log_of, log_of-Logged}
use mini_tmux.Client.Attach.Image.{Source, loaded}
use mini_tmux.Client.Attach.Restore.{SavedAll, loaded_panes}

-- The cells that a grid displays in a row.
abbrev pub displayed : Grid → ℕ → List Cell
displayed g y = elim (line_cells g (get_display_line g y)) [ none ↦ [] | some cs ↦ cs ]

All-take : (n : ℕ) (cs : List Cell) → All HasText cs → All HasText (take n cs)
All-take zero cs h = tt
All-take (suc n) [] h = tt
All-take (suc n) (c ∷ cs) h = (h.0, All-take n cs h.1)

All-slice : (i n : ℕ) (cs : List Cell) → All HasText cs → All HasText (slice i n cs)
unfolding slice
All-slice i n cs h = All-take n (drop i cs) (All-drop HasText i cs h)

All-append : (cs ds : List Cell) → All HasText cs → All HasText ds → All HasText (cs ++ ds)
All-append [] ds h k = k
All-append (c ∷ cs) ds h k = (h.0, All-append cs ds h.1 k)

All-replicate : (n : ℕ) (c : Cell) → HasText c → All HasText (replicate n c)
All-replicate zero c h = tt
All-replicate (suc n) c h = (h, All-replicate n c h)

All-overwrite :
    (dst block : List Cell)
    → All HasText dst
    → All HasText block
    → All HasText (overwrite dst block)
unfolding overwrite
All-overwrite dst [] h k = h
All-overwrite [] (b ∷ bs) h k = tt
All-overwrite (x ∷ dst) (b ∷ bs) h k = (k.0, All-overwrite dst bs h.1 k.1)

zero_cell-HasText : HasText zero_cell
zero_cell-HasText = record { shown = b' ' ∷ []; ends = refl }

history_lines-HasText :
    (g : Grid) (ring : List Cell) → All HasText ring → All HasText (history_lines g ring)
history_lines-HasText g ring h = elim (Bool-cases (leb g.history_count g.history_size)) [
  | inl fits ↦ rw fits (All-slice 0 (g.history_count * g.width) ring h)
  | inr full ↦ rw full (
      All-append
        (slice (g.history_count % g.history_size * g.width)
          ((g.history_size - g.history_count % g.history_size) * g.width) ring)
        (slice 0 (g.history_count % g.history_size * g.width) ring)
        (All-slice (g.history_count % g.history_size * g.width)
          ((g.history_size - g.history_count % g.history_size) * g.width) ring h)
        (All-slice 0 (g.history_count % g.history_size * g.width) ring h))
]

restored_ring-HasText :
    (g : Grid) (ring : List Cell) → All HasText ring → All HasText (restored_ring g ring)
unfolding overlay
restored_ring-HasText g ring h =
    All-overwrite (replicate (mul32 g.history_size g.width) zero_cell) (history_lines g ring)
      (All-replicate (mul32 g.history_size g.width) zero_cell zero_cell-HasText)
      (history_lines-HasText g ring h)

-- the log of a restored grid
abbrev restored_log : Grid → List Cell → List (List Cell)
restored_log g ring =
    drop (g.history_count - available g) (log_of g.history_count g.history_size g.width ring)

-- the lines that a restored grid shows, by its log
abbrev restored_lines : Grid → List Cell → ℕ → List Cell
restored_lines g ring y =
    output_line (restored g ring) (restored_log g ring)
      ((restored g ring).history_count - (restored g ring).scroll_offset + y)

-- They are those that the saved grid displayed.
restored_lines-displayed :
    {g : Grid} {ring : List Cell} (v : IsValid g ring) (y : ℕ)
    → y < g.height
    → restored_lines g ring y ≡ displayed g y
restored_lines-displayed {g} {ring} v y h =
    ap (λ o. elim o as (λ _. List Cell) [ none ↦ [] | some cs ↦ cs ])
      (sym
          (display_shows_output (restored-IsValid v) y (restored-Logged v (log_of-Logged g ring)) h)
        ∙ display-restored v y (log_of-Logged g ring) h)

-- A saved pane that fits the size `w` by `h` and has only cells with texts.
pub record Fits (w h : ℕ) (s : Source) : Type 0 where
  pub valid : IsValid s.grid s.ring
  pub width_same : s.grid.width ≡ w
  pub height_same : s.grid.height ≡ h
  pub screen_texts : All HasText s.grid.cells
  pub ring_texts : All HasText s.ring

loaded-Renderable :
    {w h : ℕ} {s : Source} (p : Pane)
    → Fits w h s
    → p.sx ≡ w
    → p.sy ≡ h
    → Renderable (loaded s p) (restored_ring s.grid s.ring) (restored_log s.grid s.ring)
loaded-Renderable {s} p f width height = record {
  valid = restored-IsValid f.valid;
  logged = restored-Logged f.valid (log_of-Logged s.grid s.ring);
  width_same = width ∙ sym f.width_same;
  height_same = height ∙ sym f.height_same;
  screen_texts = f.screen_texts;
  ring_texts = restored_ring-HasText s.grid s.ring f.ring_texts;
}
