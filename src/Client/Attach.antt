-- ===== src/Client/Attach.antt =====
-- `client_main` of client.c, where it attaches to a session. What the socket to the server yields is
-- a list of reads and the list `recv_fds` of the client; when the reads are used up, the server has
-- closed it. A NULL pointer that is read, and access outside an array, is `faults`.
pub mod Arrival
pub mod Image
pub mod Restore
pub mod Panes
pub mod Reattach
pub mod Taller
pub mod Detach
pub mod Kept
pub mod Same
pub mod Again
pub mod Exited
pub mod Redrawn
mod Tests
use mini_tmux.Base.{
  ℕ, zero, suc, ◌+◌, ◌-◌, ◌/◌, ◌^◌, List, [], ◌∷◌, ◌++◌, Option, none, some, Bool, ◌&&◌, ltb, leb,
  ◌==◌, if◌then◌else◌, length, ℤ, ◌==ℤ◌, minus_one, add32, sub32, u32_at, u64_at, le32,
}
use mini_tmux.Grid.Serial.{too_short, truncated, fault, parsed, deserialize}
use mini_tmux.Window.{Pane, pane_create, pane_set_master_fd}
use mini_tmux.Input.Replay.{sync_vterm_from_grid}
use mini_tmux.Server.Session.{Winsize}
use mini_tmux.Server.Wire.{Read, got, eof, interrupted, failed, detach}
use mini_tmux.Client.{Client, Answers, act, wrote, set_size, pane_size, message, recv_fd, u16}

-- The bytes that one `read` yields, none when it returns 0 or -1, and the reads behind it.
unfoldable pub read_some : List Read → List ℕ × List Read
read_some [] = ([], [])
read_some (got bs ∷ rs) = (bs, rs)
read_some (eof ∷ rs) = ([], rs)
read_some (interrupted ∷ rs) = ([], rs)
read_some (failed ∷ rs) = ([], rs)

-- an `int` that was 0, after the bytes were read into it, as a number of rounds
unfoldable pub rounds : List ℕ → ℕ
rounds bs = if ltb (u32_at bs 0) (2 ^ 31) then u32_at bs 0 else 0

-- The loop that reads the data of a grid, with the bytes received so far.
unfoldable pub read_body : ℕ → List ℕ → List Read → List ℕ × List Read
read_body len recvd [] = (recvd, [])
read_body len recvd (r ∷ rs) =
    let more = λ (bs : List ℕ). read_body len (recvd ++ bs) rs in
    if ltb (length recvd) len
    then elim (read_some (r ∷ rs)).0 [ [] ↦ (recvd, rs) | b ∷ bs ↦ more (b ∷ bs) ]
    else (recvd, r ∷ rs)

-- `pane_width`: the signed quotient, stored as `unsigned int`
unfoldable pub attach_width : ℕ → ℕ → ℕ
attach_width col n = if leb (n - 1) col then (col - (n - 1)) / n else sub32 0 ((n - 1 - col) / n)

-- One descriptor, the `i`th, and its pane, with the column behind it; the call of `recv_fd` may fail.
unfoldable pub attach_pane : ℕ → ℕ → ℕ → Client → Client × ℕ
attach_pane w i x c =
    let (fd, fds) = recv_fd c.recv_fds in
    if fd ==ℤ minus_one then (record c { recv_fds = fds }, x) else (
      act
          (record c {
            recv_fds = fds;
            panes =
                c.panes
                ++ (pane_set_master_fd (pane_create c.next_pane_id w c.ws.ws_row x 0) fd ∷ []);
            next_pane_id = add32 c.next_pane_id 1;
            master_fd = if i == 0 then fd else c.master_fd;
          })
          (set_size fd (pane_size w c.ws.ws_row) ∷ []),
      add32 x (add32 w 1),
    )

-- `n` panes from the `i`th on
unfoldable pub attach_panes : ℕ → ℕ → ℕ → ℕ → Client → Client
attach_panes w i x zero c = c
attach_panes w i x (suc n) c = let (c', x') = attach_pane w i x c in attach_panes w (suc i) x' n c'

-- the pane after `grid_deserialize` and `sync_vterm_from_grid`
unfoldable pub load_pane : List ℕ → Pane → Option Pane
load_pane buf p = elim (deserialize p.grid buf) [
  | too_short ↦ some p
  | truncated h g ↦ some (record p { grid = g })
  | fault ↦ none
  | parsed h g ↦
      let p' = record p { grid = g; cx = h.cx; cy = h.cy } in
      elim (sync_vterm_from_grid p') [ none ↦ none | some _ ↦ some p' ]
]

-- the loop that looks for the pane of the id
unfoldable pub load_grid : List ℕ → List Pane → Option (List Pane)
load_grid buf [] = some []
load_grid buf (p ∷ ps) =
    let rest = load_grid buf ps in
    if p.id == u32_at buf 0
    then elim (load_pane buf p) [ none ↦ none | some p' ↦ some (p' ∷ ps) ]
    else elim rest [ none ↦ none | some ps' ↦ some (p ∷ ps') ]

-- the data of a grid of `len` bytes, as far as it was read
unfoldable pub take_grid : ℕ → List ℕ × List Read → List Pane → Option (List Pane × List Read)
take_grid len (bytes, after) ps =
    if length bytes == len
    then if ltb len 4
      then none
      else elim (load_grid bytes ps) [ none ↦ none | some ps' ↦ some (ps', after) ]
    else some (ps, after)

-- One grid: its header, as far as it was read, and its data.
unfoldable pub take_header : List ℕ × List Read → List Pane → Option (List Pane × List Read)
take_header (header, behind) ps =
    let grid = take_grid (u64_at header 8) (read_body (u64_at header 8) [] behind) ps in
    if length header == 16 && u32_at header 0 == 308 then grid else some (ps, behind)

unfoldable pub receive_grid : List Read → List Pane → Option (List Pane × List Read)
receive_grid reads ps = take_header (read_some reads) ps

unfoldable pub receive_grids : ℕ → List Read → List Pane → Option (List Pane × List Read)
receive_grids zero reads ps = some (ps, reads)
receive_grids (suc n) reads ps = elim (receive_grid reads ps) [
  | none ↦ none
  | some (ps', rest) ↦ receive_grids n rest ps'
]

-- How attaching ends: with the text MSG_ATTACH_FAILED, in a fault, or with the panes made and their
-- grids read, before the client first draws and enters its loop (`Client.Draw` has the drawing).
pub data Attach : Type 0 where
  refused : Client → Attach
  faults : Attach
  attached : Client → List Read → Attach

-- the grids, after the panes
unfoldable pub attach_grids : List Read → Client → Attach
attach_grids reads c =
    let (bytes, behind) = read_some reads in
    elim (receive_grids (rounds bytes) behind c.panes) [
      | none ↦ faults
      | some (ps, rest) ↦ attached (record c { panes = ps; pane = 0 }) rest
    ]

-- `client_main` with a session id, from `send_server` to the end of the block, before anything is drawn. When the first call of
-- `recv_fd` fails, `c->pane` stays NULL, and what is drawn first reads it.
unfoldable pub client_attach : Answers → ℕ → List Read → Client → Attach
client_attach k id reads c =
    let asked = act c (wrote c.server_fd (message k detach (le32 id)) ∷ []) in
    let (bytes, behind) = read_some reads in
    let n = rounds bytes in
    let sized = record asked { ws = record c.ws { ws_row = u16 (c.ws.ws_row + (2 ^ 16 - 1)) } } in
    if n == 0
    then refused asked
    else if (recv_fd c.recv_fds).0 ==ℤ minus_one
    then faults
    else attach_grids behind (attach_panes (attach_width c.ws.ws_col n) 0 0 n sized)
