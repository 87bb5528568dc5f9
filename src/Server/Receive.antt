-- ===== src/Server/Receive.antt =====
-- `server_receive` of server.c, first part: how a call ends, and the handlers of
-- MSG_LIST_SESSIONS, MSG_DETACHKILL, MSG_COMMAND and MSG_RESIZE. `Dispatch` has the rest.
-- A read outside a buffer, through NULL included, is a fault. Allocations succeed, and writes to a
-- socket take all the bytes. Logging is compiled out.
pub mod Dispatch
use mini_tmux.Base.{
  ℕ, zero, suc, ◌+◌, ◌-◌, ◌^◌, ◌≤◌, ◌<◌, List, [], ◌∷◌, ◌++◌, Option, none, some, ◌>>=◌, Bool, true,
  false, ◌&&◌, not, ltb, leb, ◌==◌, if◌then◌else◌, length, take, get_elem?, get_or, set, replicate,
  ℤ, pos, negsuc, minus_one, ◌+ℤ◌, ◌==ℤ◌, is_nonneg, is_pos, to_int, le32, le64, u32_at, u16_at,
  modify, remove_at,
}
use mini_tmux.Server.Session.{
  Winsize, Session, session_init, max_panes, find_session_by_client_fd, find_session_by_id, Effect,
  wrote, sent_fd, closed, killed, set_winsize, Server, emit, update_session,
}
use mini_tmux.Server.Wire.{
  Read, complete, ended, error, waiting, read_n, MsgType, command, detach, list_sessions,
  detachkill, exited, resize, grid_save, other, msgtype_of, MsgHeader, sizeof_header, header_at,
  header_image,
}

-- How the call ends: it returns, the server process ends by `_exit`, it accesses memory outside a
-- buffer, or it waits for more input.
pub data Reply : Type 0 where
  returns : ℤ → Server → Reply
  exits : Server → Reply
  faults : Reply
  blocks : Reply

-- What the kernel answers to the calls of one message.
pub record Kernel : Type 0 where
  pub openpt : ℤ
  pub ptsname : List ℕ
  pub open_slave : ℤ
  pub spawned_pid : ℤ
  pub tty_size : Winsize
  pub heap_junk : List ℕ

-- The texts that `snprintf` makes of the formats and of `TR`; none contains a NUL.
pub record Texts : Type 0 where
  pub session_line : ℤ → Bool → ℤ → List ℕ
  pub no_sessions : List ℕ
  pub session_killed : ℤ → List ℕ
  pub session_not_found : ℤ → List ℕ

-- `write(fd, &len, sizeof(len)); write(fd, response, len);` for `len = strlen(response) + 1`
unfoldable pub send_response : ℤ → List ℕ → Server → Server
send_response fd text sv =
    emit sv (wrote fd (le64 (length text + 1)) ∷ wrote fd (text ++ (0 ∷ [])) ∷ [])

abbrev pub response_size : ℕ
response_size = 4096

-- `snprintf` at `response + offset`: the text so far, and the offset. An offset past the buffer
-- is a write outside it.
unfoldable pub list_lines : Texts → List Session → List ℕ → ℕ → Option (List ℕ × ℕ)
list_lines t [] text offset = some (text, offset)
list_lines t (s ∷ ss) text offset =
    let line = t.session_line s.id s.detached s.slave_pid in
    let listed =
      list_lines t ss (text ++ take (response_size - offset - 1) line) (offset + length line) in
    let skipped = list_lines t ss text offset in
    if is_pos s.slave_pid then (if ltb response_size offset then none else listed) else skipped

-- `count` of the listed sessions
unfoldable pub listed_count : List Session → ℕ
listed_count [] = 0
listed_count (s ∷ ss) = (if is_pos s.slave_pid then 1 else 0) + listed_count ss

-- MSG_LIST_SESSIONS
unfoldable pub receive_list : Texts → ℤ → Server → Reply
receive_list t fd sv = elim (list_lines t sv.sessions [] 0) [
  | none ↦ faults
  | some (text, offset) ↦
      returns minus_one
        (send_response fd (if listed_count sv.sessions == 0 then t.no_sessions else text) sv)
]

-- the effects on the first `n` panes: the shells are killed, the masters closed
unfoldable pub kill_panes : ℕ → List ℤ → List ℤ → List Effect
kill_panes zero pids fds = []
kill_panes (suc n) (pid ∷ pids) (fd ∷ fds) =
    (if is_pos pid then killed pid ∷ [] else [])
    ++ ((if is_nonneg fd then closed fd ∷ [] else []) ++ kill_panes n pids fds)
kill_panes (suc n) _ _ = []

abbrev pub close_open : ℤ → List Effect
close_open fd = if is_nonneg fd then closed fd ∷ [] else []

-- the session at `i`, killed and taken off the list
unfoldable pub kill_session : ℕ → Session → Server → Server
kill_session i target sv =
    emit (record sv { sessions = remove_at sv.sessions i })
      (kill_panes target.pane_count target.pane_pids target.master_fds
        ++ (close_open target.slave_fd ++ close_open target.client_fd))

-- MSG_DETACHKILL
unfoldable pub receive_kill : Texts → ℤ → List ℕ → Server → Reply
receive_kill t fd buf sv =
    if ltb (length buf) 4
    then faults
    else let id = to_int (u32_at buf 0) in
      let refused = returns minus_one (send_response fd (t.session_not_found id) sv) in
      elim (find_session_by_id sv.sessions id) [
        | none ↦ refused
        | some i ↦ elim (get_elem? sv.sessions i) [
          | none ↦ refused
          | some target ↦
              if ltb 0 target.pane_count
              then returns minus_one
                  (send_response fd (t.session_killed id) (kill_session i target sv))
              else refused
        ]
      ]

-- `i + 1` for an `int` of 32 bits; past the largest, where C defines nothing, it wraps around.
abbrev pub int_inc : ℤ → ℤ
int_inc i = if i ==ℤ pos (2 ^ 31 - 1) then negsuc (2 ^ 31 - 1) else i +ℤ pos 1

-- the id of a new session: one more than that of the last in the list
unfoldable pub next_id : List Session → ℤ
next_id [] = pos 0
next_id (s ∷ []) = int_inc s.id
next_id (s ∷ s' ∷ ss) = next_id (s' ∷ ss)

unfoldable pub new_session : Kernel → ℤ → Server → Server
new_session k fd sv =
    let fresh = session_init k.tty_size k.heap_junk in
    record sv {
      sessions = sv.sessions ++ (record fresh { client_fd = fd; id = next_id sv.sessions } ∷ []);
    }

-- the place of the session of `fd`, which is created if there is none
unfoldable pub current_session : Kernel → ℤ → Server → ℕ × Server
current_session k fd sv = elim (find_session_by_client_fd sv.sessions fd) [
  | some i ↦ (i, sv)
  | none ↦ (length sv.sessions, new_session k fd sv)
]

-- `strcmp(buf, text) == 0`; `none` is a read past the end of `buf`
unfoldable pub str_equal : List ℕ → List ℕ → Option Bool
str_equal [] text = none
str_equal (b ∷ buf) [] = some (b == 0)
str_equal (b ∷ buf) (c ∷ text) =
    let rest = str_equal buf text in if b == c then rest else some false

-- "new-session" and "pane-split"
abbrev pub new_session_command : List ℕ
new_session_command =
    b'n' ∷ b'e' ∷ b'w' ∷ b'-' ∷ b's' ∷ b'e' ∷ b's' ∷ b's' ∷ b'i' ∷ b'o' ∷ b'n' ∷ []

abbrev pub pane_split_command : List ℕ
pane_split_command = b'p' ∷ b'a' ∷ b'n' ∷ b'e' ∷ b'-' ∷ b's' ∷ b'p' ∷ b'l' ∷ b'i' ∷ b't' ∷ []

-- the condition of MSG_COMMAND, the second comparison made only if the first fails
unfoldable pub opens_pane : List ℕ → Option Bool
opens_pane buf = do
  new ← str_equal buf new_session_command
  if new then some true else str_equal buf pane_split_command

-- the arrays of a session with a new pane at `pane_count`
unfoldable pub add_pane : Kernel → Session → Session
add_pane k s = record s {
  slave_name = k.ptsname;
  slave_fd = minus_one;
  slave_pid = k.spawned_pid;
  master_fds = set s.master_fds s.pane_count k.openpt;
  pane_pids = set s.pane_pids s.pane_count k.spawned_pid;
  pane_count = suc s.pane_count;
}

-- A failing `spawn_child` leaves the process too.
unfoldable pub open_pane : Kernel → ℤ → ℕ → Session → Server → Reply
open_pane k fd i cur sv =
    if leb max_panes cur.pane_count
    then returns (pos 1) sv
    else if k.openpt ==ℤ minus_one
    then exits sv
    else let opened =
        emit sv
          (sent_fd fd k.openpt ∷ set_winsize k.open_slave cur.ws ∷ closed k.open_slave ∷ []) in
      if is_nonneg k.spawned_pid
      then returns (pos 1) (update_session opened i (add_pane k))
      else exits (emit opened (closed k.openpt ∷ []))

-- MSG_COMMAND
unfoldable pub receive_command : Kernel → ℤ → List ℕ → ℕ → Session → Server → Reply
receive_command k fd buf i cur sv = elim (opens_pane buf) [
  | none ↦ faults
  | some true ↦ open_pane k fd i cur sv
  | some false ↦ returns (pos 1) sv
]

abbrev pub winsize_at : List ℕ → Winsize
winsize_at buf = record {
  ws_row = u16_at buf 0;
  ws_col = u16_at buf 2;
  ws_xpixel = u16_at buf 4;
  ws_ypixel = u16_at buf 6;
}

-- MSG_RESIZE
unfoldable pub receive_resize : List ℕ → ℕ → Server → Reply
receive_resize buf i sv =
    if ltb (length buf) 8
    then faults
    else returns (pos 1) (update_session sv i (λ s. record s { ws = winsize_at buf }))
