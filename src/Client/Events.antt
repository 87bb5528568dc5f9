-- ===== src/Client/Events.antt =====
-- What the client does with input, with the end of input and with the end of a shell (client.c).
use mini_tmux.Base.{
  ℕ, zero, suc, ◌+◌, ◌≡◌, ◌≢◌, refl, List, [], ◌∷◌, Option, none, some, true, false, arith, All,
  length, get_elem?, map, append_assoc, append-nil, ℤ, is_nonneg, ◌==◌, ne→==_false, if_true,
  if_false, if_both, if◌then◌else◌, ◌∙◌, ap, sym,
}
use mini_tmux.Window.{Pane}
use mini_tmux.Window.History.{get_elem?-in}
use mini_tmux.Client.{st_running, st_exiting, Client, Answers, act, wrote, Effect}
use mini_tmux.Client.Keys.{to_pane}
use mini_tmux.Client.Machine.{
  ClientEvent, ev_stdin_read, ev_eof_stdin, ev_eof_pty, ev_winch, find_transition, table,
  take_transition, run_action, act_stdin_read, plain_key, key_byte, key_bytes, dispatch,
  not_reached, dispatch_event,
}
use mini_tmux.Client.Loop.{
  Ready, ready, read_panes, serve_signals, serve_fds, loop_step, continues, continued,
  selected_step,
}

abbrev keys_written : ℤ → List ℕ → List Effect
keys_written fd bs = map (λ b. wrote fd (b ∷ [])) bs

key_byte-plain :
    (again : ClientEvent → Client → Option Client) (b : ℕ) (c : Client) (p : Pane)
    → c.ctrl_b_pressed ≡ false
    → get_elem? c.panes c.pane ≡ some p
    → p.grid.scroll_offset ≡ 0
    → b ≢ 2
    → key_byte again b c ≡ some (act c (wrote p.master_fd (b ∷ []) ∷ []))
unfolding key_byte plain_key
key_byte-plain again b c p released at live other =
    let sent : to_pane c (b ∷ []) ≡ some (act c (wrote p.master_fd (b ∷ []) ∷ [])) =
      rw (at, to_pane) refl in
    if_false (b == 2) _ _ (ne→==_false b 2 other)
    ∙ if_false c.ctrl_b_pressed _ _ released
    ∙ rw (at, plain_key) (if_true (p.grid.scroll_offset == 0) _ _ (ap (λ o. o == 0) live) ∙ sent)

-- While no prefix key is pressed and the pane shows its live screen, bytes of input without Ctrl-B
-- all go to its shell, in order, and nothing else changes.
pub key_bytes-plain :
    (again : ClientEvent → Client → Option Client) (bs : List ℕ) (c : Client) (p : Pane)
    → c.ctrl_b_pressed ≡ false
    → get_elem? c.panes c.pane ≡ some p
    → p.grid.scroll_offset ≡ 0
    → All (λ b. b ≢ 2) bs
    → key_bytes again bs c ≡ some (act c (keys_written p.master_fd bs))
unfolding key_bytes
key_bytes-plain again [] c p released at live others =
    ap (λ t. some (record c { trace = t })) (sym (append-nil c.trace))
key_bytes-plain again (b ∷ bs) c p released at live others =
    let w = wrote p.master_fd (b ∷ []) in
    let first = key_byte-plain again b c p released at live others.0 in
    let rest = key_bytes-plain again bs (act c (w ∷ [])) p released at live others.1 in
    rw (first, key_bytes) rest
    ∙ ap (λ t. some (record c { trace = t }))
        (append_assoc c.trace (w ∷ []) (keys_written p.master_fd bs))

act_stdin_read-eof :
    (again : ClientEvent → Client → Option Client) (k : Answers) (c : Client)
    → k.stdin ≡ []
    → act_stdin_read again k c ≡ again ev_eof_stdin c
unfolding act_stdin_read
act_stdin_read-eof again k c eof = rw eof refl

-- The end of the terminal's input while the client runs: the state EXITING that the nested event
-- sets is overwritten by the outer transition, so that nothing is changed.
pub dispatch_event_eof :
    (k : Answers) (c : Client)
    → c.state ≡ st_running
    → k.stdin ≡ []
    → dispatch_event k ev_stdin_read c ≡ some (record c { state = st_running })
unfolding dispatch find_transition take_transition run_action
dispatch_event_eof k c running eof =
    let nested : dispatch not_reached 1 k ev_eof_stdin c ≡ some (record c { state = st_exiting }) =
      ap
        (λ s. take_transition (dispatch not_reached 0 k) k (find_transition table s ev_eof_stdin) c)
        running in
    ap (λ s. take_transition (dispatch not_reached 1 k) k (find_transition table s ev_stdin_read) c)
      running
    ∙ ap (λ o. ended_with o) (act_stdin_read-eof (dispatch not_reached 1 k) k c eof ∙ nested)
  where
    ended_with : Option Client → Option Client
    ended_with none = none
    ended_with (some c') = some (record c' { state = st_running })

no_output :
    (r : Ready) (p : Pane)
    → ((fd : ℤ) → r.pty fd ≡ none)
    → (if is_nonneg p.master_fd then r.pty p.master_fd else none) ≡ none
no_output r p idle =
    if_both (λ o. o ≡ none) (is_nonneg p.master_fd) (r.pty p.master_fd) none (idle p.master_fd) refl

pub read_panes-idle :
    (r : Ready) (n i : ℕ) (c : Client)
    → ((fd : ℤ) → r.pty fd ≡ none)
    → i + n ≡ length c.panes
    → read_panes r n i false c ≡ some (c, false)
unfolding read_panes
read_panes-idle r zero i c idle e = refl
read_panes-idle r (suc n) i c idle e =
    let (p, at) = get_elem?-in c.panes i (omega arith) in
    rw (at, no_output r p idle, read_panes) (read_panes-idle r n (suc i) c idle (omega arith))

pub serve_signals-none :
    (k : Answers) (c : Client)
    → c.sigwinch_pending ≡ false
    → c.sigchld_pending ≡ false
    → serve_signals k c ≡ some c
unfolding serve_signals
serve_signals-none k c a b =
    rw
      (
        if_false c.sigwinch_pending
            (dispatch_event k ev_winch (record c { sigwinch_pending = false })) (some c) a,
        serve_signals,
      )
      (if_false c.sigchld_pending _ _ b)

serve_fds-eof :
    (k : Answers) (r : Ready) (c c' : Client)
    → r.server_closed ≡ false
    → ((fd : ℤ) → r.pty fd ≡ none)
    → r.stdin_ready ≡ true
    → dispatch_event k ev_stdin_read c ≡ some c'
    → serve_fds k r c ≡ some c'
unfolding serve_fds
serve_fds-eof k r c c' open' idle input e =
    rw
      (
        if_false r.server_closed (dispatch_event k ev_eof_pty c) (some c) open',
        read_panes-idle r (length c.panes) 0 c idle (omega arith),
        serve_fds,
      )
      (if_true r.stdin_ready _ _ input ∙ e)

-- A running client whose terminal is at the end of its input goes on with its loop, its state
-- unchanged, when no signal is pending, no shell wrote and the server did not close the connection.
pub loop_step_eof :
    (k : Answers) (r : Ready) (c : Client)
    → c.state ≡ st_running
    → c.child_exited ≡ false
    → c.sigwinch_pending ≡ false
    → c.sigchld_pending ≡ false
    → r.selected ≡ ready
    → r.server_closed ≡ false
    → ((fd : ℤ) → r.pty fd ≡ none)
    → r.stdin_ready ≡ true
    → k.stdin ≡ []
    → loop_step k r c ≡ continues (record c { state = st_running })
unfolding loop_step selected_step
loop_step_eof k r c running alive no_winch no_chld ok open' idle input eof =
    if_false c.child_exited _ _ alive
    ∙ ap (λ s. selected_step k r c s) ok
    ∙ rw (serve_signals-none k c no_winch no_chld, selected_step)
        (ap continued (serve_fds-eof k r c _ open' idle input (dispatch_event_eof k c running eof)))
