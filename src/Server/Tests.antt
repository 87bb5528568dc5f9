-- ===== src/Server/Tests.antt =====
-- A server with one attached session of one pane; the theorems about the server at it.
use mini_tmux.Base.{
  ◌≡◌, refl, List, [], ◌∷◌, ◌++◌, none, some, arith, get_elem?, replicate, set, pos, minus_one,
  true, false, le32, le64, find_index,
}
use mini_tmux.Server.Session.{
  Winsize, Session, Server, Effect, closed, max_panes, max_clients, find_session_by_id,
  find_session_by_client_fd,
}
use mini_tmux.Server.Wire.{Read, got, interrupted, eof, complete, read_n, detach}
use mini_tmux.Server.Wire.Delivery.{piece, eintr, done, read_n-Delivers}
use mini_tmux.Server.Receive.{returns, faults, Kernel, Texts, receive_kill, receive_list}
use mini_tmux.Server.Receive.Dispatch.{receive_message}
use mini_tmux.Server.Loop.{Input, Select, selected, eintr as interrupted_select}
use mini_tmux.Server.Invariant.{IsSession, IsValid}
use mini_tmux.Server.Kill.{
  session_with, receive_kill-removes, receive_kill-keeps, receive_kill_stale_slot,
}
use mini_tmux.Server.Attach.{ReturnsCount, attach_adds_session}
use mini_tmux.Server.Listing.{listing, receive_list_overflow}

abbrev size : Winsize
size = record { ws_row = 24; ws_col = 80; ws_xpixel = 0; ws_ypixel = 0 }

abbrev pub texts : Texts
texts = record {
  session_line = λ id detached pid. b'0' ∷ 10 ∷ [];
  no_sessions = b'-' ∷ [];
  session_killed = λ id. b'k' ∷ [];
  session_not_found = λ id. b'n' ∷ [];
}

abbrev pub kernel : Kernel
kernel = record {
  openpt = pos 9;
  ptsname = [];
  open_slave = pos 10;
  spawned_pid = pos 100;
  tty_size = size;
  heap_junk = [];
}

abbrev pub attached_session : Session
attached_session = record {
  id = pos 0;
  client_fd = pos 5;
  master_fds = set (replicate max_panes minus_one) 0 (pos 6);
  pane_count = 1;
  pane_pids = set (replicate max_panes minus_one) 0 (pos 99);
  slave_fd = minus_one;
  detached = false;
  slave_pid = pos 99;
  ws = size;
  child_exited = false;
  slave_name = [];
  grid_data = replicate max_panes none;
}

abbrev pub server : Server
server = record {
  sessions = attached_session ∷ [];
  client_fds = set (replicate max_clients minus_one) 0 (pos 5);
  sigchld_pending = false;
  trace = [];
}

pub attached_session-IsSession : IsSession attached_session
attached_session-IsSession = record {
  masters = refl;
  pids = refl;
  grids = refl;
  panes = omega arith;
}

pub server-IsValid : IsValid 1 server
server-IsValid = record {
  all_sessions = (attached_session-IsSession, tt);
  ids = (refl, omega arith, omega arith);
  slots = refl;
}

-- the client at 5 splits a pane, in two reads
abbrev split_reads : List Read
split_reads =
    got (le32 200 ++ (0 ∷ 0 ∷ 0 ∷ 0 ∷ []))
    ∷ interrupted
    ∷ got (le64 11)
    ∷ got (b'p' ∷ b'a' ∷ b'n' ∷ b'e' ∷ b'-' ∷ b's' ∷ b'p' ∷ b'l' ∷ b'i' ∷ b't' ∷ 0 ∷ [])
    ∷ []

read_n-Delivers_example :
    read_n 3 (got (1 ∷ []) ∷ interrupted ∷ got (2 ∷ 3 ∷ []) ∷ eof ∷ [])
    ≡ complete (1 ∷ 2 ∷ 3 ∷ []) (eof ∷ [])
read_n-Delivers_example = read_n-Delivers (eof ∷ []) (piece (eintr (piece done)))

abbrev quiet_input : Input
quiet_input = record {
  readable = λ fd. false;
  accepted = some (pos 5);
  reads = λ fd. split_reads;
  kernel = λ fd. kernel;
  padding = 0 ∷ 0 ∷ 0 ∷ 0 ∷ [];
  exited_pids = pos 100 ∷ [];
  sigchld = true;
}

abbrev busy_input : Input
busy_input = record quiet_input { readable = λ fd. true; accepted = none; sigchld = false }

abbrev history : List (Select × Input)
history = (selected, quiet_input) ∷ (selected, busy_input) ∷ (interrupted_select, quiet_input) ∷ []

receive_kill-removes_example :
    (sv' : Server) × (receive_kill texts (pos 7) (0 ∷ 0 ∷ 0 ∷ 0 ∷ []) server
      ≡ returns minus_one sv')
    × (session_with (pos 0) sv'.sessions ≡ none)
unfolding find_session_by_id find_index
receive_kill-removes_example =
    receive_kill-removes texts (pos 7) (0 ∷ 0 ∷ 0 ∷ 0 ∷ []) server {i = 0}
      {target = attached_session} server-IsValid (omega arith) refl refl (omega arith)

receive_kill-keeps_example :
    (sv' : Server) × (receive_kill texts (pos 7) (0 ∷ 0 ∷ 0 ∷ 0 ∷ []) server
      ≡ returns minus_one sv')
    × (session_with (pos 1) sv'.sessions ≡ session_with (pos 1) server.sessions)
unfolding find_session_by_id find_index
receive_kill-keeps_example =
    receive_kill-keeps texts (pos 7) (0 ∷ 0 ∷ 0 ∷ 0 ∷ []) server {i = 0} {target = attached_session}
      (pos 1) (omega arith) refl refl (omega arith) (ground arith)

receive_kill_stale_slot_example :
    (sv' : Server) × (receive_kill texts (pos 7) (0 ∷ 0 ∷ 0 ∷ 0 ∷ []) server
      ≡ returns minus_one sv')
    × (get_elem? sv'.client_fds 0 ≡ some (pos 5))
    × (before : List Effect) × (after : List Effect) × (sv'.trace
        ≡ before ++ (closed (pos 5) ∷ after))
unfolding find_session_by_id find_index
receive_kill_stale_slot_example =
    receive_kill_stale_slot texts (pos 7) (0 ∷ 0 ∷ 0 ∷ 0 ∷ []) server {i = 0}
      {target = attached_session} 5 0 (omega arith) refl refl (omega arith) refl refl

attach_adds_session_example :
    ReturnsCount 2 (receive_message kernel texts (pos 7) [] detach (0 ∷ 0 ∷ 0 ∷ 0 ∷ []) server)
unfolding find_session_by_client_fd find_index
attach_adds_session_example =
    attach_adds_session kernel texts (pos 7) [] 0 (0 ∷ 0 ∷ 0 ∷ []) server (omega arith) refl

-- a line of 5000 bytes
abbrev wide_texts : Texts
wide_texts = record texts { session_line = λ id detached pid. replicate 5000 b'x' }

receive_list_overflow_example :
    receive_list wide_texts
      (pos 7)
      (record server { sessions = attached_session ∷ attached_session ∷ [] })
    ≡ faults
unfolding listing
receive_list_overflow_example =
    receive_list_overflow wide_texts (pos 7)
      (record server { sessions = attached_session ∷ attached_session ∷ [] })
      (attached_session ∷ []) [] attached_session refl refl (omega arith)
