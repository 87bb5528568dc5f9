-- ===== src/Client/Depth.antt =====
-- How deep the dispatches of client.c nest: an action dispatches only events whose own actions
-- dispatch none.
use mini_tmux.Base.{ℕ, suc, ◌≡◌, refl, List, [], ◌∷◌, Option, none, some}
use mini_tmux.Client.{
  ClientState, st_boot, st_running, st_resizing, st_exiting, Client, Answers, feed_pane, Handler,
  detach_session, new_pane, next_pane, scroll_up, scroll_down,
}
use mini_tmux.Input.{Parsed}
use mini_tmux.Client.Keys.{
  KeyEvent, detached, pane_split, run_handler, find_binding, handle_key, lower,
}
use mini_tmux.Client.Machine.{
  ClientEvent, ev_eof_stdin, ev_eof_pty, Action, enable_raw_mode, resize, child_exit, pty_read,
  stdin_read, detach, split, key_event, find_transition, table, take_transition, run_action,
  run_optional, act_stdin_read, act_pty_read, key_byte, key_bytes, dispatch, StateTransition,
}

abbrev pub Dispatcher : Type 0
Dispatcher = ClientEvent → Client → Option Client

-- Two dispatchers that agree on the events that actions dispatch.
record Agree (d d' : Dispatcher) : Type 0 where
  eof_stdin : (c : Client) → d ev_eof_stdin c ≡ d' ev_eof_stdin c
  eof_pty : (c : Client) → d ev_eof_pty c ≡ d' ev_eof_pty c
  keys : (e : KeyEvent) (c : Client) → d (key_event e) c ≡ d' (key_event e) c

module _ {d d' : Dispatcher} (same : Agree d d') where
  run_handler-same :
      (h : Handler) (c : Client)
      → run_handler (λ e. d (key_event e)) h c ≡ run_handler (λ e. d' (key_event e)) h c
  unfolding run_handler
  run_handler-same detach_session c = same.keys detached c
  run_handler-same new_pane c = same.keys pane_split c
  run_handler-same next_pane c = refl
  run_handler-same scroll_up c = refl
  run_handler-same scroll_down c = refl

  -- the functions of a key, or what else is done for it
  bound_key :
      (h : Option Handler) (c : Client) (unbound : Option Client)
      → elim h as (λ _. Option Client) [
        | some f ↦ run_handler (λ e. d (key_event e)) f c
        | none ↦ unbound
      ]
        ≡ elim h as (λ _. Option Client) [
          | some f ↦ run_handler (λ e. d' (key_event e)) f c
          | none ↦ unbound
        ]
  bound_key none c unbound = refl
  bound_key (some h) c unbound = run_handler-same h c

  handle_key-same :
      (b : ℕ) (c : Client)
      → handle_key (λ e. d (key_event e)) b c ≡ handle_key (λ e. d' (key_event e)) b c
  unfolding handle_key
  handle_key-same b c = bound_key (find_binding c.keybinds (lower b)) c _

  key_byte-same : (b : ℕ) (c : Client) → key_byte d b c ≡ key_byte d' b c
  unfolding key_byte
  key_byte-same b c = rw (handle_key-same b c, key_byte) refl

  key_bytes-same : (bs : List ℕ) (c : Client) → key_bytes d bs c ≡ key_bytes d' bs c
  unfolding key_bytes
  key_bytes-same [] c = refl
  key_bytes-same (b ∷ bs) c =
      rw (key_byte-same b c, key_bytes)
        (next_step (key_byte d' b c) (key_bytes d bs) (key_bytes d' bs)
          (λ c'. key_bytes-same bs c'))
    where
      next_step :
          (o : Option Client) (f g : Client → Option Client)
          → ((c' : Client) → f c' ≡ g c')
          → elim o as (λ _. Option Client) [ none ↦ none | some c' ↦ f c' ]
            ≡ elim o as (λ _. Option Client) [ none ↦ none | some c' ↦ g c' ]
      next_step none f g e = refl
      next_step (some c') f g e = e c'

  input_bytes :
      (bs : List ℕ) (c : Client)
      → elim bs as (λ _. Option Client) [ [] ↦ d ev_eof_stdin c | b ∷ r ↦ key_bytes d (b ∷ r) c ]
        ≡ elim bs as (λ _. Option Client) [
          | [] ↦ d' ev_eof_stdin c
          | b ∷ r ↦ key_bytes d' (b ∷ r) c
        ]
  input_bytes [] c = same.eof_stdin c
  input_bytes (b ∷ bs) c = key_bytes-same (b ∷ bs) c

  act_stdin_read-same : (k : Answers) (c : Client) → act_stdin_read d k c ≡ act_stdin_read d' k c
  unfolding act_stdin_read
  act_stdin_read-same k c = input_bytes k.stdin c

  shell_output :
      (o : Option Parsed) (c : Client)
      → elim o as (λ _. Option Client) [ none ↦ d ev_eof_pty c | some v ↦ feed_pane v c.pane c ]
        ≡ elim o as (λ _. Option Client) [ none ↦ d' ev_eof_pty c | some v ↦ feed_pane v c.pane c ]
  shell_output none c = same.eof_pty c
  shell_output (some v) c = refl

  act_pty_read-same : (k : Answers) (c : Client) → act_pty_read d k c ≡ act_pty_read d' k c
  unfolding act_pty_read
  act_pty_read-same k c = shell_output k.pty c

  run_action-same :
      (k : Answers) (a : Action) (c : Client) → run_action d k a c ≡ run_action d' k a c
  unfolding run_action
  run_action-same k enable_raw_mode c = refl
  run_action-same k resize c = refl
  run_action-same k child_exit c = refl
  run_action-same k pty_read c = act_pty_read-same k c
  run_action-same k stdin_read c = act_stdin_read-same k c
  run_action-same k detach c = refl
  run_action-same k split c = refl

  run_optional-same :
      (k : Answers) (a : Option Action) (c : Client) → run_optional d k a c ≡ run_optional d' k a c
  run_optional-same k none c = refl
  run_optional-same k (some a) c = run_action-same k a c

  take_transition-same :
      (k : Answers) (t : Option StateTransition) (c : Client)
      → take_transition d k t c ≡ take_transition d' k t c
  unfolding take_transition
  take_transition-same k none c = refl
  take_transition-same k (some t) c = rw (run_optional-same k t.action c, take_transition) refl

module _ (d d' : Dispatcher) (k : Answers) (c : Client) where
  nested_eof_stdin :
      (s : ClientState)
      → take_transition d k (find_transition table s ev_eof_stdin) c
        ≡ take_transition d' k (find_transition table s ev_eof_stdin) c
  unfolding take_transition find_transition run_action
  nested_eof_stdin st_boot = refl
  nested_eof_stdin st_running = refl
  nested_eof_stdin st_resizing = refl
  nested_eof_stdin st_exiting = refl

  nested_eof_pty :
      (s : ClientState)
      → take_transition d k (find_transition table s ev_eof_pty) c
        ≡ take_transition d' k (find_transition table s ev_eof_pty) c
  unfolding take_transition find_transition run_action
  nested_eof_pty st_boot = refl
  nested_eof_pty st_running = refl
  nested_eof_pty st_resizing = refl
  nested_eof_pty st_exiting = refl

  nested_key :
      (e : KeyEvent) (s : ClientState)
      → take_transition d k (find_transition table s (key_event e)) c
        ≡ take_transition d' k (find_transition table s (key_event e)) c
  unfolding take_transition find_transition run_action
  nested_key detached st_boot = refl
  nested_key detached st_running = refl
  nested_key detached st_resizing = refl
  nested_key detached st_exiting = refl
  nested_key pane_split st_boot = refl
  nested_key pane_split st_running = refl
  nested_key pane_split st_resizing = refl
  nested_key pane_split st_exiting = refl

nested-Agree :
    (deepest deepest' : Dispatcher) (depth : ℕ) (k : Answers)
    → Agree (dispatch deepest (suc depth) k) (dispatch deepest' 1 k)
unfolding dispatch
nested-Agree deepest deepest' depth k = record {
  eof_stdin = λ c. nested_eof_stdin (dispatch deepest depth k) deepest' k c c.state;
  eof_pty = λ c. nested_eof_pty (dispatch deepest depth k) deepest' k c c.state;
  keys = λ e c. nested_key (dispatch deepest depth k) deepest' k c e c.state;
}

-- Two levels of dispatch are enough for every event in every state, for every action and input: a
-- third level is never reached. Whatever `deepest` or `deepest'` would answer below the bound, and
-- however much deeper the bound is, the result is the same.
pub dispatch_depth :
    (deepest deepest' : Dispatcher) (depth : ℕ) (k : Answers) (ev : ClientEvent) (c : Client)
    → dispatch deepest (suc (suc depth)) k ev c ≡ dispatch deepest' 2 k ev c
unfolding dispatch
dispatch_depth deepest deepest' depth k ev c =
    take_transition-same (nested-Agree deepest deepest' depth k) k
      (find_transition table c.state ev) c
