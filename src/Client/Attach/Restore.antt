-- ===== src/Client/Attach/Restore.antt =====
-- A client that attaches to a session and what the server sends to it: the panes of the client that
-- detached are there again.
use mini_tmux.Base.{
  ℕ, suc, ◌≤◌, ◌<◌, ◌≡◌, ◌≢◌, refl, List, [], ◌∷◌, ◌++◌, Option, some, arith, length, All, ap, ◌∙◌,
  sym, u32_at, u64_at, ==_iff, ne→==_false, le→ltb_false, add32, ℤ,
}
use mini_tmux.Server.Wire.{Read, got, header_image}
use mini_tmux.Server.Receive.Dispatch.{has_grid, grid_count}
use mini_tmux.Grid.Serial.Restore.{serialize-Header}
use mini_tmux.Window.{Pane, pane_create, pane_set_master_fd}
use mini_tmux.Client.Protocol.{eight_bytes}
use mini_tmux.Client.Attach.{
  load_pane, load_grid, take_grid, take_header, receive_grid, read_some, read_body,
}
use mini_tmux.Client.Attach.Arrival.{Pieces, read_body_takes_all}
use mini_tmux.Client.Attach.Image.{Source, Saved, loaded, u32_at-Saved, load_pane-Saved}

-- Grids are kept for the next `n` panes, of which `i` is the id of the first.
pub data SavedAll : ℕ → ℕ → List (Option (List ℕ)) → List Source → Type 0 where
  all_saved : {i : ℕ} {gs : List (Option (List ℕ))} → SavedAll i 0 gs []
  saved :
      {i n b : ℕ} {bs : List ℕ} {gs : List (Option (List ℕ))} {s : Source} {ss : List Source}
      → Saved i s (b ∷ bs)
      → SavedAll (suc i) n gs ss
      → SavedAll i (suc n) (some (b ∷ bs) ∷ gs) (s ∷ ss)

-- the panes for the descriptors, as `pane_create` makes them, `w` wide and `h` high, from id `i` and
-- column `x` on
unfoldable pub fresh_panes : ℕ → ℕ → ℕ → ℕ → List ℤ → List Pane
fresh_panes w h i x [] = []
fresh_panes w h i x (fd ∷ fds) =
    pane_set_master_fd (pane_create i w h x 0) fd
    ∷ fresh_panes w h (suc i) (add32 x (add32 w 1)) fds

-- the same panes, with the saved grids
unfoldable pub loaded_panes : ℕ → ℕ → ℕ → ℕ → List ℤ → List Source → List Pane
loaded_panes w h i x [] ss = []
loaded_panes w h i x (fd ∷ fds) [] = []
loaded_panes w h i x (fd ∷ fds) (s ∷ ss) =
    loaded s (pane_set_master_fd (pane_create i w h x 0) fd)
    ∷ loaded_panes w h (suc i) (add32 x (add32 w 1)) fds ss

pub grid_count-SavedAll :
    {i n : ℕ} {gs : List (Option (List ℕ))} {ss : List Source}
    → SavedAll i n gs ss
    → grid_count n gs ≡ n
unfolding grid_count has_grid
grid_count-SavedAll all_saved = refl
grid_count-SavedAll (saved v vs) = omega (arith, grid_count-SavedAll vs)

load_grid-append :
    (buf : List ℕ) (ready ps : List Pane) (p p' : Pane)
    → All (λ q. q.id ≢ u32_at buf 0) ready
    → p.id ≡ u32_at buf 0
    → load_pane buf p ≡ some p'
    → load_grid buf (ready ++ (p ∷ ps)) ≡ some (ready ++ (p' ∷ ps))
unfolding load_grid
load_grid-append buf [] ps p p' others same loads =
    rw ((==_iff p.id (u32_at buf 0)).1 same, load_grid, loads) refl
load_grid-append buf (q ∷ ready) ps p p' others same loads =
    rw
      (
        ne→==_false q.id (u32_at buf 0) others.0,
        load_grid,
        load_grid-append buf ready ps p p' others.1 same loads,
      )
      refl

take_grid-load_grid :
    (buf : List ℕ) (rest : List Read) (panes panes' : List Pane)
    → 4 ≤ length buf
    → load_grid buf panes ≡ some panes'
    → take_grid (length buf) (buf, rest) panes ≡ some (panes', rest)
unfolding take_grid
take_grid-load_grid buf rest panes panes' enough loads =
    rw
      (
        (==_iff (length buf) (length buf)).1 refl,
        le→ltb_false (length buf) 4 enough,
        loads,
        take_grid,
      )
      refl

-- One grid that arrives whole.
receive_grid-Pieces :
    {ps : List Read} (header buf : List ℕ) (rest : List Read) (panes panes' : List Pane)
    → length header ≡ 16
    → u32_at header 0 ≡ 308
    → u64_at header 8 ≡ length buf
    → 4 ≤ length buf
    → Pieces ps buf
    → load_grid buf panes ≡ some panes'
    → receive_grid (got header ∷ (ps ++ rest)) panes ≡ some (panes', rest)
unfolding receive_grid read_some take_header
receive_grid-Pieces {ps} header buf rest panes panes' long type len enough d loads =
    rw (long, type, take_header)
      (ap (λ n. take_grid n (read_body n [] (ps ++ rest)) panes) len
        ∙ (ap (λ r. take_grid (length buf) r panes) (read_body_takes_all rest d)
            ∙ take_grid-load_grid buf rest panes panes' enough loads))

-- every pane in front has an id below that of the next
abbrev pub Below : ℕ → List Pane → Type 0
Below i ready = All (λ q. q.id < i) ready

pub Below-append :
    (i : ℕ) (ready : List Pane) (p : Pane)
    → Below i ready
    → p.id ≡ i
    → Below (suc i) (ready ++ (p ∷ []))
Below-append i [] p below same = (omega (arith, same), tt)
Below-append i (q ∷ ready) p below same =
    (omega (arith, below.0), Below-append i ready p below.1 same)

Below-others : (i n : ℕ) (ready : List Pane) → n ≡ i → Below i ready → All (λ q. q.id ≢ n) ready
Below-others i n [] e below = tt
Below-others i n (q ∷ ready) e below =
    ((λ same. omega (arith, below.0)), Below-others i n ready e below.1)

-- the header in front of a grid
abbrev pub grid_header : ℕ → ℕ → ℕ → ℕ → ℕ → List ℕ
grid_header a b c d n = header_image (a ∷ b ∷ c ∷ d ∷ []) (record { type = 308; len = n })

-- The grid of the next pane.
pub receive_grid-Saved :
    {i : ℕ} {s : Source} {buf : List ℕ} {ps : List Read} (a b c d : ℕ) (rest : List Read)
    (ready panes : List Pane) (p : Pane)
    → Saved i s buf
    → Pieces ps buf
    → Below i ready
    → p.id ≡ i
    → receive_grid (got (grid_header a b c d (length buf)) ∷ (ps ++ rest)) (ready ++ (p ∷ panes))
      ≡ some (ready ++ (loaded s p ∷ panes), rest)
unfolding header_image
receive_grid-Saved {i} {s} {buf} a b c d rest ready panes p v arrives below same =
    let size = serialize-Header v.valid s.header v.junk buf v.image v.small in
    receive_grid-Pieces (grid_header a b c d (length buf)) buf rest (ready ++ (p ∷ panes))
      (ready ++ (loaded s p ∷ panes)) refl refl (eight_bytes (length buf) size.1)
      (omega (arith, size.0)) arrives
      (load_grid-append buf ready panes p (loaded s p)
        (Below-others i (u32_at buf 0) ready (u32_at-Saved v) below) (same ∙ sym (u32_at-Saved v))
        (load_pane-Saved v p))
