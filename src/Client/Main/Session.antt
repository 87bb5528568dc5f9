-- ===== src/Client/Main/Session.antt =====
-- A new session: the messages of `client_main`, and what the server makes of them.
use mini_tmux.Base.{ℕ, ◌<◌, ◌^◌, ◌≡◌, [], ◌∷◌, ◌++◌, Option, ℤ, pos}
use mathlib.Core.Option
use mini_tmux.Server.Session
use mini_tmux.Server.Session.{Session, Server, Winsize, session_init}
use mini_tmux.Server.Receive.{Reply, returns, exits, faults, blocks, Kernel, next_id, add_pane}
use mini_tmux.Window.{Pane, pane_create, pane_set_master_fd}
use mini_tmux.Client.{Client}
use mini_tmux.Client.Main.{less_a_row}

-- the message that follows, when the server goes on
unfoldable pub next_message : Reply → (Server → Reply) → Reply
next_message (returns r sv) f = f sv
next_message (exits sv) f = exits sv
next_message faults f = faults
next_message blocks f = blocks

-- every field fits an `unsigned short`
pub record IsWinsize (ws : Winsize) : Type 0 where
  pub row_small : ws.ws_row < 2 ^ 16
  pub col_small : ws.ws_col < 2 ^ 16
  pub xpixel_small : ws.ws_xpixel < 2 ^ 16
  pub ypixel_small : ws.ws_ypixel < 2 ^ 16

-- the session before its first pane, and with it
abbrev asked_session : Kernel → ℤ → Winsize → Server → Session
asked_session k fd ws sv = record (session_init k.tty_size k.heap_junk) {
  client_fd = fd;
  id = next_id sv.sessions;
  ws = ws;
}

abbrev pub opened_session : Kernel → ℤ → Winsize → Server → Session
opened_session k fd ws sv = add_pane k (asked_session k fd ws sv)

-- What the server makes of the two messages: one session more, with one shell, whose terminal's
-- descriptor is sent to the client.
pub record Served (k : Kernel) (fd : ℤ) (ws : Winsize) (sv : Server) (r : Reply) : Type 0 where
  pub server : Server
  pub goes_on : r ≡ returns (pos 1) server
  pub sessions : server.sessions ≡ sv.sessions ++ (opened_session k fd ws sv ∷ [])
  pub sent :
      server.trace
      ≡ sv.trace
        ++ (Session.sent_fd fd k.openpt
            ∷ Session.set_winsize k.open_slave ws
            ∷ Session.closed k.open_slave
            ∷ [])

-- a pane as large as the window less a row
abbrev pub new_pane : Client → ℕ → Pane
new_pane c m =
    pane_set_master_fd
      (pane_create c.next_pane_id (less_a_row c.ws).ws_col (less_a_row c.ws).ws_row 0 0) (pos m)
