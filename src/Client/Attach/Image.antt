-- ===== src/Client/Attach/Image.antt =====
-- The grids that a detached client left with the server, and what becomes of a pane into which one
-- of them is loaded.
use mini_tmux.Base.{ℕ, ◌≤◌, ◌<◌, ◌≡◌, refl, List, some, length, All, ap, ◌∙◌, sym, u32, u32_at}
use mathlib.Core.Option.{some-injective}
use mini_tmux.Grid.{Cell, Grid}
use mini_tmux.Grid.History.{IsValid}
use mini_tmux.Grid.Serial.{Header, serialize, deserialize, parsed}
use mini_tmux.Grid.Serial.RoundTrip.{IsHeader}
use mini_tmux.Grid.Serial.Restore.{restored, deserialize-serialize, serialize-Header}
use mini_tmux.Render.Screen.{HasText}
use mini_tmux.Window.{Pane}
use mini_tmux.Input.Replay.{sync_vterm_from_grid-shows}
use mini_tmux.Client.Attach.{load_pane}

-- a pane of the client that detached: its grid, the history of it, its id and cursor
pub record Source : Type 0 where
  pub grid : Grid
  pub ring : List Cell
  pub header : Header

-- `buf` is what `grid_serialize` made of the pane with the id `i`.
pub record Saved (i : ℕ) (s : Source) (buf : List ℕ) : Type 0 where
  pub valid : IsValid s.grid s.ring
  pub small : IsHeader s.header
  pub wide : s.grid.width < u32
  pub texts : All HasText s.grid.cells
  pub named : s.header.pane_id ≡ i
  pub junk : ℕ
  pub image : serialize junk s.grid s.header ≡ some buf

-- the pane `p` with the saved grid and cursor
abbrev pub loaded : Source → Pane → Pane
loaded s p = record p { grid = restored s.grid s.ring; cx = s.header.cx; cy = s.header.cy }

pub deserialize-Saved :
    {i : ℕ} {s : Source} {buf : List ℕ}
    → Saved i s buf
    → (g0 : Grid) → deserialize g0 buf ≡ parsed s.header (restored s.grid s.ring)
deserialize-Saved {s} {buf} v g0 =
    let (buf', e, d) = deserialize-serialize v.valid s.header v.junk g0 v.small v.wide in
    ap (deserialize g0) (some-injective buf buf' (sym v.image ∙ e)) ∙ d

pub u32_at-Saved : {i : ℕ} {s : Source} {buf : List ℕ} → Saved i s buf → u32_at buf 0 ≡ i
u32_at-Saved {s} {buf} v =
    (serialize-Header v.valid s.header v.junk buf v.image v.small).2 ∙ v.named

-- A saved grid is loaded into any pane.
pub load_pane-Saved :
    {i : ℕ} {s : Source} {buf : List ℕ}
    → Saved i s buf
    → (p : Pane) → load_pane buf p ≡ some (loaded s p)
unfolding load_pane
load_pane-Saved {s} {buf} v p =
    let (out, e, _) =
      sync_vterm_from_grid-shows (loaded s p) v.valid.screen_fits v.valid.screen_small v.texts in
    rw (deserialize-Saved v p.grid, load_pane, e) refl

pub length-Saved : {i : ℕ} {s : Source} {buf : List ℕ} → Saved i s buf → 32 ≤ length buf
length-Saved {s} {buf} v = (serialize-Header v.valid s.header v.junk buf v.image v.small).0
