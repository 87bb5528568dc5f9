-- ===== src/Client/Attach/Same.antt =====
-- Panes that show the same: what `grid_deserialize` restores on attaching (client.c, client_main), and how
-- many descriptors arrive for them.
use native.Mathlib.Decide.{ℕ_discrete}
use mini_tmux.Base.{
  ℕ, zero, suc, ◌+◌, ◌%◌, ◌≤◌, ◌<◌, ◌≡◌, refl, List, [], ◌∷◌, ◌++◌, Option, some, arith, length,
  length-append, none, le32, ap, ◌∙◌, sym, get_or, ℤ, add32,
}
use mini_tmux.Grid.{Cell, Grid, get_display_line}
use mini_tmux.Grid.Log.{Logged, row, line_cells, get_or-append_last, get_or-append_lt}
use mini_tmux.Grid.Serial.Display.{display-restored}
use mini_tmux.Window.{Pane, pane_create, pane_set_master_fd}
use mini_tmux.Server.Session
use mini_tmux.Server.Session.{
  Session, Server, update_session, find_session_by_client_fd, find_session_by_id,
}
use mini_tmux.Server.Wire.{Read}
use mini_tmux.Server.Invariant.{IsSession}
use mini_tmux.Server.Receive.Dispatch.{
  send_masters, send_grids, grid_count, send_grid, attach_effects,
}
use mini_tmux.Client.Attach.Arrival.{Arrives, nothing, descriptor, whole, pieces}
use mini_tmux.Client.Attach.Image.{Source}
use mini_tmux.Client.Attach.Restore.{loaded_panes}
use mini_tmux.Client.Attach.Kept.{Savable, no_panes, pane_with}

-- a log of the lines of a ring, `n` of them
abbrev pub log_of : ℕ → ℕ → ℕ → List Cell → List (List Cell)
log_of zero size w ring = []
log_of (suc n) size w ring = log_of n size w ring ++ (row w (n % size) ring ∷ [])

length-log_of : (n size w : ℕ) (ring : List Cell) → length (log_of n size w ring) ≡ n
length-log_of zero size w ring = refl
length-log_of (suc n) size w ring = omega (
  arith,
  length-append (log_of n size w ring) (row w (n % size) ring ∷ []),
  length-log_of n size w ring,
)

get_or-log_of :
    (n size w m : ℕ) (ring : List Cell)
    → m < n
    → get_or (log_of n size w ring) m [] ≡ row w (m % size) ring
get_or-log_of zero size w m ring h = absurd (omega (arith, h))
get_or-log_of (suc n) size w m ring h = elim (ℕ_discrete m n) [
  | yes e ↦
      ap (λ i. get_or (log_of (suc n) size w ring) i []) (e ∙ sym (length-log_of n size w ring))
      ∙ (get_or-append_last (log_of n size w ring) (row w (n % size) ring)
          ∙ ap (λ i. row w (i % size) ring) (sym e))
  | no ne ↦
      get_or-append_lt (log_of n size w ring) (row w (n % size) ring) m
        (omega (arith, h, ne, length-log_of n size w ring))
      ∙ get_or-log_of n size w m ring (omega (arith, h, ne))
]

-- every ring holds the end of some log
pub log_of-Logged :
    (g : Grid) (ring : List Cell)
    → Logged g ring (log_of g.history_count g.history_size g.width ring)
log_of-Logged g ring = record {
  counted = length-log_of g.history_count g.history_size g.width ring;
  kept = λ m h k. sym (get_or-log_of g.history_count g.history_size g.width m ring h);
}

-- The grid `g'` shows in every row of the display what `g` shows.
abbrev pub SameDisplay : Grid → Grid → Type 0
SameDisplay g g' =
    (y : ℕ)
    → y < g.height
    → line_cells g' (get_display_line g' y) ≡ line_cells g (get_display_line g y)

-- The same panes: each has its id and its cursor, and shows what it showed.
pub data SamePanes : List Pane → List Pane → Type 0 where
  none_left : SamePanes [] []
  same_pane :
      {p p' : Pane} {ps ps' : List Pane}
      → p'.id ≡ p.id
      → (p'.cx ≡ p.cx) × (p'.cy ≡ p.cy)
      → SameDisplay p.grid p'.grid
      → SamePanes ps ps'
      → SamePanes (p ∷ ps) (p' ∷ ps')

pub loaded_panes-SamePanes :
    (w h x : ℕ) (fds : List ℤ) {i : ℕ} {ps : List Pane} {ss : List Source}
    → Savable i ps ss
    → length fds ≡ length ps
    → SamePanes ps (loaded_panes w h i x fds ss)
unfolding loaded_panes pane_create pane_set_master_fd
loaded_panes-SamePanes w h x [] no_panes e = none_left
loaded_panes-SamePanes w h x (fd ∷ fds) no_panes e = absurd (omega (arith, e))
loaded_panes-SamePanes w h x [] (pane_with valid small wide texts named rest) e =
    absurd (omega (arith, e))
loaded_panes-SamePanes w h x (fd ∷ fds) (pane_with {p} {ring} valid small wide texts named rest) e =
    same_pane (sym named) (refl, refl)
      (λ y inside. display-restored valid y (log_of-Logged p.grid ring) inside)
      (loaded_panes-SamePanes w h (add32 x (add32 w 1)) fds rest (omega (arith, e)))

-- the descriptors among what was sent
abbrev sent_fds : List Session.Effect → ℕ
sent_fds [] = 0
sent_fds (Session.sent_fd sock fd ∷ es) = suc (sent_fds es)
sent_fds (e ∷ es) = sent_fds es

Arrives-sent_fds :
    {es : List Session.Effect} {fds : List ℤ} {rs : List Read}
    → Arrives es fds rs
    → length fds ≡ sent_fds es
Arrives-sent_fds nothing = refl
Arrives-sent_fds (descriptor fd nonneg rest) = ap suc (Arrives-sent_fds rest)
Arrives-sent_fds (whole short rest) = Arrives-sent_fds rest
Arrives-sent_fds (pieces long ps rest) = Arrives-sent_fds rest

sent_fds-send_masters :
    (sock : ℤ) (n : ℕ) (ms : List ℤ) (es : List Session.Effect)
    → n ≤ length ms
    → sent_fds (send_masters sock n ms ++ es) ≡ n + sent_fds es
unfolding send_masters
sent_fds-send_masters sock zero ms es h = omega arith
sent_fds-send_masters sock (suc n) [] es h = absurd (omega (arith, h))
sent_fds-send_masters sock (suc n) (m ∷ ms) es h =
    omega (arith, sent_fds-send_masters sock n ms es (omega (arith, h)))

sent_fds-send_grids :
    (sock : ℤ) (padding : List ℕ) (n : ℕ) (gs : List (Option (List ℕ)))
    → sent_fds (send_grids sock padding n gs) ≡ 0
unfolding send_grids send_grid
sent_fds-send_grids sock padding zero gs = refl
sent_fds-send_grids sock padding (suc n) [] = refl
sent_fds-send_grids sock padding (suc n) (none ∷ gs) = sent_fds-send_grids sock padding n gs
sent_fds-send_grids sock padding (suc n) (some [] ∷ gs) = sent_fds-send_grids sock padding n gs
sent_fds-send_grids sock padding (suc n) (some (b ∷ bs) ∷ gs) =
    sent_fds-send_grids sock padding n gs

-- a client that attaches to a well-formed session gets a descriptor for each pane
pub descriptors_lem :
    (sock : ℤ) (padding : List ℕ) (s : Session) {fds : List ℤ} {rs : List Read}
    → IsSession s
    → Arrives (attach_effects sock padding s) fds rs
    → length fds ≡ s.pane_count
unfolding attach_effects
descriptors_lem sock padding s valid arrives = omega (
  arith,
  Arrives-sent_fds arrives,
  sent_fds-send_masters sock s.pane_count s.master_fds
      (Session.wrote sock (le32 (grid_count s.pane_count s.grid_data))
        ∷ send_grids sock padding s.pane_count s.grid_data)
      (omega (arith, valid.masters, valid.panes)),
  sent_fds-send_grids sock padding s.pane_count s.grid_data,
)
