-- ===== src/Client/Leaving.antt =====
-- How the client leaves its loop (client.c).
use mini_tmux.Base.{
  ◌≡◌, refl, List, ◌∷◌, none, some, true, false, arith, length, ℤ, if_true, if_false, if_both, ◌∙◌,
  ap,
}
use mini_tmux.Client.{st_running, st_exiting, Client, Answers, act_child_exit}
use mini_tmux.Client.Machine.{
  ev_stdin_read, ev_eof_pty, find_transition, table, take_transition, run_action, dispatch,
  not_reached, dispatch_event,
}
use mini_tmux.Client.Loop.{
  Ready, ready, serve_fds, loop_step, continues, continued, selected_step, client_loop, left,
}
use mini_tmux.Client.Events.{read_panes-idle, serve_signals-none}

-- the client that is about to leave
abbrev pub closing : Client → Client
closing c = record (act_child_exit c) { state = st_exiting }

dispatch_event-eof_pty :
    (k : Answers) (c : Client)
    → c.state ≡ st_running
    → dispatch_event k ev_eof_pty c ≡ some (closing c)
unfolding dispatch find_transition take_transition run_action
dispatch_event-eof_pty k c running =
    ap (λ s. take_transition (dispatch not_reached 1 k) k (find_transition table s ev_eof_pty) c)
      running

dispatch_event-exiting :
    (k : Answers) (c : Client) → dispatch_event k ev_stdin_read (closing c) ≡ some (closing c)
unfolding dispatch find_transition take_transition run_action
dispatch_event-exiting k c = refl

serve_fds-closed :
    (k : Answers) (r : Ready) (c : Client)
    → c.state ≡ st_running
    → r.server_closed ≡ true
    → ((fd : ℤ) → r.pty fd ≡ none)
    → serve_fds k r c ≡ some (closing c)
unfolding serve_fds act_child_exit
serve_fds-closed k r c running closed idle =
    rw
      (
        if_true r.server_closed (dispatch_event k ev_eof_pty c) (some c) closed
            ∙ dispatch_event-eof_pty k c running,
        read_panes-idle r (length c.panes) 0 (closing c) idle (omega arith),
        serve_fds,
      )
      (if_both (λ o. o ≡ some (closing c)) r.stdin_ready _ _ (dispatch_event-exiting k c) refl)

loop_step-closed :
    (k : Answers) (r : Ready) (c : Client)
    → c.state ≡ st_running
    → c.child_exited ≡ false
    → c.sigwinch_pending ≡ false
    → c.sigchld_pending ≡ false
    → r.selected ≡ ready
    → r.server_closed ≡ true
    → ((fd : ℤ) → r.pty fd ≡ none)
    → loop_step k r c ≡ continues (closing c)
unfolding loop_step selected_step
loop_step-closed k r c running alive no_winch no_chld ok closed idle =
    if_false c.child_exited _ _ alive
    ∙ ap (λ s. selected_step k r c s) ok
    ∙ rw (serve_signals-none k c no_winch no_chld, selected_step)
        (ap continued (serve_fds-closed k r c running closed idle))

-- When the server closes the connection of a running client, no signal is pending and no shell
-- wrote, the client leaves its loop at the next iteration, whatever comes with it and whether or not
-- there was input, with its terminal put back.
pub client_loop_closed :
    (k : Answers) (r : Ready) (c : Client) (next : Answers × Ready) (rest : List (Answers × Ready))
    → c.state ≡ st_running
    → c.child_exited ≡ false
    → c.sigwinch_pending ≡ false
    → c.sigchld_pending ≡ false
    → r.selected ≡ ready
    → r.server_closed ≡ true
    → ((fd : ℤ) → r.pty fd ≡ none)
    → client_loop ((k, r) ∷ next ∷ rest) c ≡ left (closing c)
unfolding client_loop loop_step act_child_exit
client_loop_closed k r c next rest running alive no_winch no_chld ok closed idle =
    rw (loop_step-closed k r c running alive no_winch no_chld ok closed idle, client_loop) refl
