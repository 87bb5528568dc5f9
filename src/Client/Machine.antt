-- ===== src/Client/Machine.antt =====
-- The state machine of client.c: `dispatch_event`, its table and the actions. An action may
-- dispatch in turn; `depth` bounds how deep, and `deepest` stands for what is dispatched below it.
use mini_tmux.Base.{
  ℕ, zero, suc, List, [], ◌∷◌, Option, none, some, true, false, ◌&&◌, ◌||◌, ◌==◌, if◌then◌else◌,
  get_elem?, modify,
}
use mini_tmux.Client.{
  ClientState, st_boot, st_running, st_resizing, st_exiting, Client, Answers, act, raw_mode,
  act_resize, act_pane_split, act_detach, act_child_exit, feed_pane,
}
use mini_tmux.Client.Keys.{KeyEvent, detached, pane_split, handle_key, to_pane}

pub data ClientEvent : Type 0 where
  ev_stdin_read ev_pty_read ev_winch ev_chld_exit ev_interrupt ev_eof_stdin ev_eof_pty
        ev_enable_raw_mode ev_detached ev_pane_split :
      ClientEvent

pub data Action : Type 0 where
  enable_raw_mode resize child_exit pty_read stdin_read detach split : Action

-- the value of a state and of an event
abbrev pub state_value : ClientState → ℕ
state_value st_boot = 0
state_value st_running = 1
state_value st_resizing = 2
state_value st_exiting = 3

abbrev pub event_value : ClientEvent → ℕ
event_value ev_stdin_read = 0
event_value ev_pty_read = 1
event_value ev_winch = 2
event_value ev_chld_exit = 3
event_value ev_interrupt = 4
event_value ev_eof_stdin = 5
event_value ev_eof_pty = 6
event_value ev_enable_raw_mode = 7
event_value ev_detached = 8
event_value ev_pane_split = 9

-- a row of the table
pub record StateTransition : Type 0 where
  pub state : ClientState
  pub event : ClientEvent
  pub next : ClientState
  pub action : Option Action

abbrev row : ClientState → ClientEvent → ClientState → Option Action → StateTransition
row s e n a = record { state = s; event = e; next = n; action = a }

abbrev pub table : List StateTransition
table =
    row st_boot ev_enable_raw_mode st_running (some enable_raw_mode)
    ∷ row st_running ev_winch st_running (some resize)
    ∷ row st_running ev_chld_exit st_exiting (some child_exit)
    ∷ row st_running ev_pty_read st_running (some pty_read)
    ∷ row st_running ev_stdin_read st_running (some stdin_read)
    ∷ row st_exiting ev_stdin_read st_exiting none
    ∷ row st_exiting ev_pty_read st_exiting none
    ∷ row st_running ev_eof_pty st_exiting (some child_exit)
    ∷ row st_running ev_eof_stdin st_exiting none
    ∷ row st_running ev_interrupt st_exiting none
    ∷ row st_running ev_detached st_exiting (some detach)
    ∷ row st_running ev_pane_split st_running (some split)
    ∷ []

unfoldable pub find_transition :
    List StateTransition → ClientState → ClientEvent → Option StateTransition
find_transition [] s e = none
find_transition (t ∷ ts) s e =
    let rest = find_transition ts s e in
    if state_value t.state == state_value s && event_value t.event == event_value e
    then some t
    else rest

-- the event of a key's function
abbrev pub key_event : KeyEvent → ClientEvent
key_event detached = ev_detached
key_event pane_split = ev_pane_split

-- a key while no prefix was pressed: leaving the history view, or to the shell
unfoldable pub plain_key : ℕ → Client → Option Client
plain_key b c = elim (get_elem? c.panes c.pane) [
  | none ↦ none
  | some p ↦
      if p.grid.scroll_offset == 0
      then to_pane c (b ∷ [])
      else let live = record c {
        panes =
            modify c.panes c.pane (λ q. record q { grid = record q.grid { scroll_offset = 0 } });
      } in
        if b == 0x1b || b == b'q' then some live else to_pane live (b ∷ [])
]

-- one byte of input
unfoldable pub key_byte : (ClientEvent → Client → Option Client) → ℕ → Client → Option Client
key_byte again b c =
    if b == 2
    then (elim (if c.ctrl_b_pressed then to_pane c (b ∷ []) else some c) [
      | none ↦ none
      | some c' ↦ some (record c' { ctrl_b_pressed = true })
    ])
    else if c.ctrl_b_pressed
    then (elim (handle_key (λ e. again (key_event e)) b c) [
      | none ↦ none
      | some c' ↦ some (record c' { ctrl_b_pressed = false })
    ])
    else plain_key b c

unfoldable pub key_bytes : (ClientEvent → Client → Option Client) → List ℕ → Client → Option Client
key_bytes again [] c = some c
key_bytes again (b ∷ bs) c = elim (key_byte again b c) [
  | none ↦ none
  | some c' ↦ key_bytes again bs c'
]

-- `act_stdin_read`; end of input, or a failing read, gives no bytes
unfoldable pub act_stdin_read :
    (ClientEvent → Client → Option Client) → Answers → Client → Option Client
act_stdin_read again k c = elim k.stdin [
  | [] ↦ again ev_eof_stdin c
  | b ∷ bs ↦ key_bytes again (b ∷ bs) c
]

-- `act_pty_read`; no code dispatches EV_PTY_READ
unfoldable pub act_pty_read :
    (ClientEvent → Client → Option Client) → Answers → Client → Option Client
act_pty_read again k c = elim k.pty [ none ↦ again ev_eof_pty c | some v ↦ feed_pane v c.pane c ]

-- the action of a row
unfoldable pub run_action :
    (ClientEvent → Client → Option Client) → Answers → Action → Client → Option Client
run_action again k enable_raw_mode c = some (act c (raw_mode ∷ []))
run_action again k resize c = act_resize k c
run_action again k child_exit c = some (act_child_exit c)
run_action again k pty_read c = act_pty_read again k c
run_action again k stdin_read c = act_stdin_read again k c
run_action again k detach c = act_detach k c
run_action again k split c = act_pane_split k c

abbrev pub run_optional :
    (ClientEvent → Client → Option Client) → Answers → Option Action → Client → Option Client
run_optional again k none c = some c
run_optional again k (some a) c = run_action again k a c

-- what is done for a row, or for no row
unfoldable pub take_transition :
    (ClientEvent → Client → Option Client)
    → Answers
    → Option StateTransition
    → Client
    → Option Client
take_transition again k none c = some c
take_transition again k (some t) c = elim (run_optional again k t.action c) [
  | none ↦ none
  | some c' ↦ some (record c' { state = t.next })
]

unfoldable pub dispatch :
    (deepest : ClientEvent → Client → Option Client)
    → ℕ
    → Answers
    → ClientEvent
    → Client
    → Option Client
dispatch deepest zero k ev c = deepest ev c
dispatch deepest (suc depth) k ev c =
    take_transition (dispatch deepest depth k) k (find_transition table c.state ev) c

-- stands for a third level of dispatches, which is never reached
abbrev pub not_reached : ClientEvent → Client → Option Client
not_reached ev c = none

-- `dispatch_event`
abbrev pub dispatch_event : Answers → ClientEvent → Client → Option Client
dispatch_event k ev c = dispatch not_reached 2 k ev c
