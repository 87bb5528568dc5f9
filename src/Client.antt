-- ===== src/Client.antt =====
-- client.c, client.h and keyboard.c: the state of the client, its messages to the server, and the
-- layout of the panes. The list of panes is `c->pane->window->panes`, and `c->pane` is a place in
-- it. Writes take all bytes, allocations succeed, and what the client draws on its own terminal is
-- left out. Access outside an array, and division by zero, is `none`.
pub mod Keys
pub mod Machine
pub mod Loop
pub mod Draw
pub mod Layout
pub mod Tiling
pub mod Events
pub mod Focus
pub mod Leaving
pub mod Connect
pub mod Depth
pub mod Protocol
pub mod Attach
pub mod Main
pub mod Tests
use mini_tmux.Base.{
  ℕ, suc, ◌+◌, ◌-◌, ◌/◌, ◌%◌, ◌^◌, List, [], ◌∷◌, ◌++◌, Option, none, some, Bool, true, ◌==◌,
  if◌then◌else◌, length, get_elem?, set, map, is_nonneg, ℤ, ◌==ℤ◌, minus_one, add32, sub32, le32,
}
use mini_tmux.Grid.{Grid}
use mini_tmux.Grid.Serial.{serialize}
use mini_tmux.Window.{Pane, Vterm, pane_resize, pane_create, pane_set_master_fd}
use mini_tmux.Input.{Parsed, pane_input}
use mini_tmux.Server.Session.{Winsize}
use mini_tmux.Server.Wire.{
  header_image, MsgType, command, detach, list_sessions, detachkill, exited, resize, grid_save,
  other,
}

pub data ClientState : Type 0 where
  st_boot : ClientState
  st_running : ClientState
  st_resizing : ClientState
  st_exiting : ClientState

-- what the client does to the outside: bytes written, terminal sizes set, descriptors closed, and
-- the terminal put in raw mode and back
pub data Effect : Type 0 where
  wrote : (fd : ℤ) → List ℕ → Effect
  set_size : (fd : ℤ) → Winsize → Effect
  closed : (fd : ℤ) → Effect
  raw_mode : Effect
  restored_mode : Effect

-- the functions that a key can be bound to
pub data Handler : Type 0 where
  detach_session : Handler
  new_pane : Handler
  next_pane : Handler
  scroll_up : Handler
  scroll_down : Handler

-- `enum key_table` has one member.
pub record Keybind : Type 0 where
  pub key : ℕ
  pub handler : Handler

-- `struct client` with the pending flags of the signals, the flag of the prefix key, the key
-- bindings, the next pane id, the descriptors that `recv_fd` will return, and the effects so far.
-- `slave_fd`, `slave_pid`, `slave_name` and `environ` are not used.
pub record Client : Type 0 where
  pub state : ClientState
  pub server_fd : ℤ
  pub master_fd : ℤ
  pub ws : Winsize
  pub child_exited : Bool
  pub panes : List Pane
  pub pane : ℕ
  pub next_pane_id : ℕ
  pub ctrl_b_pressed : Bool
  pub sigwinch_pending : Bool
  pub sigchld_pending : Bool
  pub keybinds : List Keybind
  pub recv_fds : List ℤ
  pub trace : List Effect

abbrev pub act : Client → List Effect → Client
act c es = record c { trace = c.trace ++ es }

-- What the kernel and libvterm answer to the calls of one step.
pub record Answers : Type 0 where
  pub vterm : Vterm
  pub winsize : Option Winsize
  pub stdin : List ℕ
  pub pty : Option Parsed
  pub padding : List ℕ
  pub junk : ℕ

-- the number of a message type; `other` stands for one that is not used
unfoldable pub type_code : MsgType → ℕ
type_code command = 200
type_code detach = 201
type_code list_sessions = 202
type_code detachkill = 203
type_code exited = 205
type_code resize = 209
type_code grid_save = 308
type_code other = 12

-- the bytes that `send_server` writes
unfoldable pub message : Answers → MsgType → List ℕ → List ℕ
message k type buf =
    header_image k.padding (record { type = type_code type; len = length buf }) ++ buf

-- `unsigned short`
abbrev pub u16 : ℕ → ℕ
u16 n = n % 2 ^ 16

abbrev pub winsize_bytes : Winsize → List ℕ
winsize_bytes ws =
    ws.ws_row % 256
    ∷ ws.ws_row / 256 % 256
    ∷ ws.ws_col % 256
    ∷ ws.ws_col / 256 % 256
    ∷ ws.ws_xpixel % 256
    ∷ ws.ws_xpixel / 256 % 256
    ∷ ws.ws_ypixel % 256
    ∷ ws.ws_ypixel / 256 % 256
    ∷ []

-- `{.ws_row = h, .ws_col = w}`
abbrev pub pane_size : ℕ → ℕ → Winsize
pane_size w h = record { ws_row = u16 h; ws_col = u16 w; ws_xpixel = 0; ws_ypixel = 0 }

-- Every pane resized to `w` and `h` and placed behind the one before it, from column `x` on; with
-- the column behind the last.
unfoldable pub lay_out : Vterm → ℕ → ℕ → ℕ → List Pane → Option (List Pane × ℕ)
lay_out vt w h x [] = some ([], x)
lay_out vt w h x (p ∷ ps) = elim (pane_resize vt p w h) [
  | none ↦ none
  | some p' ↦ elim (lay_out vt w h (add32 x (add32 w 1)) ps) [
    | none ↦ none
    | some (rest, end) ↦ some (record p' { xoff = x } ∷ rest, end)
  ]
]

-- the sizes told to the terminals of the panes
unfoldable pub size_effects : ℕ → ℕ → List Pane → List Effect
size_effects w h ps = map (λ p. set_size p.master_fd (pane_size w h)) ps

-- `a / n`; division by zero is `none`
abbrev pub divided : ℕ → ℕ → Option ℕ
divided a n = if n == 0 then none else some (a / n)

-- `act_resize` when the size of the terminal is known
unfoldable pub resize_to : Answers → Winsize → Client → Option Client
resize_to k ws c =
    let n = length c.panes in
    let h = sub32 ws.ws_row 1 in
    elim (divided (add32 (sub32 ws.ws_col n) 1) n) [
      | none ↦ none
      | some w ↦ elim (lay_out k.vterm w h 0 c.panes) [
        | none ↦ none
        | some (panes, _) ↦ some (
            act (record c { ws = ws; panes = panes })
              (size_effects w h panes
                ++ (wrote c.server_fd (
                      message k resize
                        (winsize_bytes (record ws { ws_row = u16 (ws.ws_row + (2 ^ 16 - 1)) })))
                    ∷ [])))
      ]
    ]

-- `act_resize`
unfoldable pub act_resize : Answers → Client → Option Client
act_resize k c = elim k.winsize [ none ↦ some c | some ws ↦ resize_to k ws c ]

-- "pane-split" with its NUL
abbrev pub pane_split_text : List ℕ
pane_split_text = b'p' ∷ b'a' ∷ b'n' ∷ b'e' ∷ b'-' ∷ b's' ∷ b'p' ∷ b'l' ∷ b'i' ∷ b't' ∷ 0 ∷ []

-- `recv_fd`, and the descriptors left to receive
abbrev pub recv_fd : List ℤ → ℤ × List ℤ
recv_fd [] = (minus_one, [])
recv_fd (fd ∷ fds) = (fd, fds)

-- The panes of `act_pane_split` after the descriptor has come.
unfoldable pub add_split : Answers → ℤ → Pane → ℕ → ℕ → Client → Option Client
add_split k fd active w h c = elim (lay_out k.vterm w h 0 c.panes) [
  | none ↦ none
  | some (panes, x) ↦
      let fresh = pane_set_master_fd (pane_create c.next_pane_id w h x active.yoff) fd in
      some (
        act (record c { panes = panes ++ (fresh ∷ []); next_pane_id = add32 c.next_pane_id 1 })
          (size_effects w h (panes ++ (fresh ∷ []))))
]

-- `act_pane_split`; a `c->pane` outside the list is `none`
unfoldable pub act_pane_split : Answers → Client → Option Client
act_pane_split k c = elim (get_elem? c.panes c.pane) [
  | none ↦ none
  | some active ↦
      let n = suc (length c.panes) in
      let h = active.sy in
      let w = sub32 c.ws.ws_col (n - 1) / n in
      let (fd, fds) = recv_fd c.recv_fds in
      let asked =
        act (record c { recv_fds = fds })
          (wrote c.server_fd (message k resize (winsize_bytes (pane_size w h)))
            ∷ wrote c.server_fd (message k command pane_split_text)
            ∷ []) in
      if fd ==ℤ minus_one then some asked else add_split k fd active w h asked
]

-- the messages of `act_detach`, one for each pane
unfoldable pub grid_messages : Answers → ℤ → List Pane → Option (List Effect)
grid_messages k fd [] = some []
grid_messages k fd (p ∷ ps) =
    elim (serialize k.junk p.grid (record { pane_id = p.id; cx = p.cx; cy = p.cy })) [
      | none ↦ none
      | some buf ↦ elim (grid_messages k fd ps) [
        | none ↦ none
        | some rest ↦ some (wrote fd (message k grid_save buf) ∷ rest)
      ]
    ]

-- `act_detach`
unfoldable pub act_detach : Answers → Client → Option Client
act_detach k c = elim (grid_messages k c.server_fd c.panes) [
  | none ↦ none
  | some saved ↦ some (
      act (record c { child_exited = true })
        (saved ++ (wrote c.server_fd (message k detach []) ∷ restored_mode ∷ [])))
]

-- what libvterm answers to the shell of a pane
abbrev pub vterm_output_callback : Pane → List ℕ → List Effect
vterm_output_callback p bytes = if is_nonneg p.master_fd then wrote p.master_fd bytes ∷ [] else []

-- Output of the shell of pane `i`: the pane takes it, and libvterm may answer the shell.
unfoldable pub feed_pane : Parsed → ℕ → Client → Option Client
feed_pane v i c = elim (get_elem? c.panes i) [
  | none ↦ none
  | some p ↦ elim (pane_input v p) [
    | none ↦ none
    | some p' ↦
        some (act (record c { panes = set c.panes i p' }) (vterm_output_callback p v.response))
  ]
]

-- `act_child_exit`
unfoldable pub act_child_exit : Client → Client
act_child_exit c = act (record c { child_exited = true }) (restored_mode ∷ [])
