-- ===== src/Client/Main.antt =====
-- `client_main` of client.c around its loop: the requests that are answered with a text, a new
-- session, and what is sent at the end.
pub mod Answer
pub mod Session
mod Tests
use mini_tmux.Base.{
  ℕ, zero, suc, ◌+◌, ◌-◌, ◌^◌, List, [], ◌∷◌, ◌++◌, Option, none, some, Bool, ◌&&◌, ltb, ◌==◌,
  if◌then◌else◌, length, ℤ, ◌==ℤ◌, minus_one, add32, u64_at, le32, map,
}
use mini_tmux.Util.{client_check_nested}
use mini_tmux.Render.{up_to_nul}
use mini_tmux.Window.{Pane, pane_create, pane_set_master_fd}
use mini_tmux.Server.Session.{Winsize}
use mini_tmux.Server.Wire.{Read, command, exited, list_sessions, detachkill, resize}
use mini_tmux.Client.{Client, Answers, act, wrote, closed, message, winsize_bytes, recv_fd, u16}
use mini_tmux.Client.Machine.{dispatch_event, ev_enable_raw_mode}
use mini_tmux.Client.Attach.{read_some, Attach, refused, faults, attached, client_attach}

-- What is printed of the answer to a request: the bytes of its second read, up to the NUL. The size
-- is read into a variable that has no value before, and a text without NUL is read past its end:
-- `none`.
unfoldable pub print_answer : List Read → Option (List ℕ)
print_answer reads =
    let (size, behind) = read_some reads in
    let (response, _) = read_some behind in
    if length size == 0
    then some []
    else if ltb (length size) 8
    then none
    else if ltb 0 (u64_at size 0) && ltb 0 (length response)
    then up_to_nul response
    else some []

-- The client after a request, with the text it prints.
unfoldable pub client_list : Answers → List Read → Client → Option (Client × List ℕ)
client_list k reads c = elim (print_answer reads) [
  | none ↦ none
  | some text ↦
      some (act c (wrote c.server_fd (message k list_sessions []) ∷ closed c.server_fd ∷ []), text)
]

unfoldable pub client_kill : Answers → ℕ → List Read → Client → Option (Client × List ℕ)
client_kill k id reads c = elim (print_answer reads) [
  | none ↦ none
  | some text ↦
      some
        (act c (wrote c.server_fd (message k detachkill (le32 id)) ∷ closed c.server_fd ∷ []), text)
]

-- "new-session" with its NUL
abbrev pub new_session_text : List ℕ
new_session_text =
    b'n' ∷ b'e' ∷ b'w' ∷ b'-' ∷ b's' ∷ b'e' ∷ b's' ∷ b's' ∷ b'i' ∷ b'o' ∷ b'n' ∷ 0 ∷ []

-- the row of the status bar taken off
abbrev pub less_a_row : Winsize → Winsize
less_a_row ws = record ws { ws_row = u16 (ws.ws_row + (2 ^ 16 - 1)) }

-- The client that asked for a new session, or `none` when `recv_fd` fails.
unfoldable pub client_new : Answers → Client → Option Client
client_new k c =
    let ws = less_a_row c.ws in
    let (fd, fds) = recv_fd c.recv_fds in
    let p = pane_set_master_fd (pane_create c.next_pane_id ws.ws_col ws.ws_row 0 0) fd in
    if fd ==ℤ minus_one
    then none
    else some (
        act
          (record c {
            master_fd = fd;
            ws = ws;
            panes = p ∷ [];
            pane = 0;
            next_pane_id = add32 c.next_pane_id 1;
            recv_fds = fds;
          })
          (wrote c.server_fd (message k resize (winsize_bytes ws))
            ∷ wrote c.server_fd (message k command new_session_text)
            ∷ []))

-- what `main` was asked for
pub data Request : Type 0 where
  list_all : Request
  kill_id : ℕ → Request
  attach_id : ℕ → Request
  fresh : Request

-- How `client_main` goes on: it prints a text and returns, returns -1, ends the process for a nested
-- run, faults, or enters its loop.
pub data Start : Type 0 where
  printed : Client → List ℕ → Start
  attach_refused : Client → Start
  failed_start : Start
  nested : Start
  bad_start : Start
  looping : Client → Start

-- a text printed, with its client
abbrev pub with_text : Option (Client × List ℕ) → Start
with_text o = elim o [ none ↦ bad_start | some (c, text) ↦ printed c text ]

-- raw mode, in front of the loop
unfoldable pub enter_loop : Answers → Client → Start
enter_loop k c = elim (dispatch_event k ev_enable_raw_mode c) [
  | none ↦ bad_start
  | some c' ↦ looping c'
]

-- `client_main` from `client_connect` to `client_loop`; `env` holds MINI_TMUX and TMUX.
unfoldable pub client_start :
    Answers → Option (List ℕ) × Option (List ℕ) → Request → List Read → Client → Start
client_start k env list_all reads c = with_text (client_list k reads c)
client_start k env (kill_id id) reads c = with_text (client_kill k id reads c)
client_start k env (attach_id id) reads c = elim (client_attach k id reads c) [
  | refused c' ↦ attach_refused c'
  | faults ↦ bad_start
  | attached c' _ ↦ enter_loop k c'
]
client_start k env fresh reads c =
    if client_check_nested env.0 env.1
    then nested
    else elim (client_new k c) [ none ↦ failed_start | some c' ↦ enter_loop k c' ]

-- "-1" with its NUL: `slave_pid` is not set
abbrev pub exit_text : List ℕ
exit_text = b'-' ∷ b'1' ∷ 0 ∷ []

-- what is sent behind the loop
unfoldable pub client_end : Answers → Client → Client
client_end k c = act c (wrote c.server_fd (message k exited exit_text) ∷ [])
