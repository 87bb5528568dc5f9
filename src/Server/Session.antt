-- ===== src/Server/Session.antt =====
-- `struct session` of server.h, the list of sessions, and what the server does to the outside.
use mini_tmux.Base.{
  ℕ, List, ◌++◌, Option, none, Bool, false, ℤ, minus_one, ◌==ℤ◌, replicate, find_index, modify,
}

abbrev pub max_clients : ℕ
max_clients = 64

abbrev pub max_panes : ℕ
max_panes = 64

-- `struct winsize`
pub record Winsize : Type 0 where
  pub ws_row : ℕ
  pub ws_col : ℕ
  pub ws_xpixel : ℕ
  pub ws_ypixel : ℕ

-- A buffer `grid_data[i]` of `grid_data_len[i]` bytes is an entry of `grid_data`, NULL is `none`.
-- The terminal attributes, `environ` and `active_window` are not used by the server.
pub record Session : Type 0 where
  pub id : ℤ
  pub client_fd : ℤ
  pub master_fds : List ℤ
  pub pane_count : ℕ
  pub pane_pids : List ℤ
  pub slave_fd : ℤ
  pub detached : Bool
  pub slave_pid : ℤ
  pub ws : Winsize
  pub child_exited : Bool
  pub slave_name : List ℕ
  pub grid_data : List (Option (List ℕ))

-- What `malloc` left in the fields that `session_init` does not set (`slave_name`), and the size
-- that TIOCGWINSZ gives, are arguments.
unfoldable pub session_init : Winsize → List ℕ → Session
session_init ws name = record {
  id = minus_one;
  client_fd = minus_one;
  master_fds = replicate max_panes minus_one;
  pane_count = 0;
  pane_pids = replicate max_panes minus_one;
  slave_fd = minus_one;
  detached = false;
  slave_pid = minus_one;
  ws = ws;
  child_exited = false;
  slave_name = name;
  grid_data = replicate max_panes none;
}

-- A pointer to a session is its place in the list.
unfoldable pub find_session_by_client_fd : List Session → ℤ → Option ℕ
find_session_by_client_fd sessions fd = find_index (λ s. s.client_fd ==ℤ fd) sessions

unfoldable pub find_session_by_id : List Session → ℤ → Option ℕ
find_session_by_id sessions id = find_index (λ s. s.id ==ℤ id) sessions

-- the system calls that others see
pub data Effect : Type 0 where
  wrote : (fd : ℤ) → List ℕ → Effect
  sent_fd : (sock fd : ℤ) → Effect
  closed : (fd : ℤ) → Effect
  killed : (pid : ℤ) → Effect
  set_winsize : (fd : ℤ) → Winsize → Effect

-- `session_list`, `client_fds` of `server_loop`, the pending flag, and the effects so far
pub record Server : Type 0 where
  pub sessions : List Session
  pub client_fds : List ℤ
  pub sigchld_pending : Bool
  pub trace : List Effect

abbrev pub emit : Server → List Effect → Server
emit sv es = record sv { trace = sv.trace ++ es }

abbrev pub update_session : Server → ℕ → (Session → Session) → Server
update_session sv i f = record sv { sessions = modify sv.sessions i f }
