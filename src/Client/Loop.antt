-- ===== src/Client/Loop.antt =====
-- `client_loop` of client.c: one iteration. What `select` and the reads give is an argument. A use
-- of a pane after it was freed is `none`.
use mini_tmux.Base.{
  ℕ, zero, suc, ◌-◌, List, [], ◌∷◌, Option, none, some, Bool, true, false, ◌&&◌, ltb, not, ◌==◌,
  if◌then◌else◌, length, get_elem?, remove_at, ℤ, is_nonneg, sub32,
}
use mini_tmux.Window.{Pane}
use mini_tmux.Input.{Parsed}
use mini_tmux.Client.{Client, Answers, act, closed, lay_out, size_effects, divided, feed_pane}
use mini_tmux.Client.Machine.{
  dispatch_event, ev_interrupt, ev_winch, ev_chld_exit, ev_eof_pty, ev_stdin_read,
}

-- What a ready descriptor of a pane gives: output, the end (or an error), or a read to try again.
pub data PtyRead : Type 0 where
  output : Parsed → PtyRead
  ended : PtyRead
  again : PtyRead

pub data Selected : Type 0 where
  ready : Selected
  interrupted : Selected
  failed : Selected

-- One iteration: `select`, whether the server closed the connection, the panes by their descriptors,
-- the terminal.
pub record Ready : Type 0 where
  pub selected : Selected
  pub server_closed : Bool
  pub pty : ℤ → Option PtyRead
  pub stdin_ready : Bool

-- `link.next` and `link.prev` of the pane at `i` of `n`: a place, or `n` for the head of the list
abbrev pub link_next : ℕ → ℕ → ℕ
link_next n i = if ltb (suc i) n then suc i else n

abbrev pub link_prev : ℕ → ℕ → ℕ
link_prev n i = if i == 0 then n else i - 1

-- the pane that is chosen for the one at `i`, `n` for the head of the list
abbrev pub successor : ℕ → ℕ → ℕ
successor n i = if link_next n i == n then link_prev n i else link_next n i

-- `c->pane` when the shell of the pane at `i` of `n` ended
unfoldable pub choose_focus : ℕ → ℕ → ℕ → ℕ
choose_focus n i focus =
    if focus == i then (if successor n i == n then focus else successor n i) else focus

-- What a pointer to the pane at `f` points to when the pane at `i` was taken off and freed: its
-- place among the others, or, for the pane itself, nothing.
unfoldable pub place_without : ℕ → ℕ → Option ℕ
place_without i f = if f == i then none else if ltb i f then some (f - 1) else some f

-- The pane at `i` whose shell ended is closed, taken off the list and freed. The test for an empty
-- list reads through `c->pane`.
unfoldable pub drop_pane : ℕ → Pane → Client → Option Client
drop_pane i p c = elim (place_without i (choose_focus (length c.panes) i c.pane)) [
  | none ↦ none
  | some focus ↦
      some (act (record c { panes = remove_at c.panes i; pane = focus }) (closed p.master_fd ∷ []))
]

-- The panes from place `i` on, `n` of them, and whether one was removed so far.
unfoldable pub read_panes : Ready → ℕ → ℕ → Bool → Client → Option (Client × Bool)
read_panes r zero i removed c = some (c, removed)
read_panes r (suc n) i removed c =
    let later = λ (c' : Client). read_panes r n (suc i) removed c' in
    let without = λ (c' : Client). read_panes r n i true c' in
    elim (get_elem? c.panes i) [
      | none ↦ none
      | some p ↦ elim (if is_nonneg p.master_fd then r.pty p.master_fd else none) [
        | none ↦ later c
        | some again ↦ later c
        | some (output v) ↦ elim (feed_pane v i c) [ none ↦ none | some c' ↦ later c' ]
        | some ended ↦ elim (drop_pane i p c) [ none ↦ none | some c' ↦ without c' ]
      ]
    ]

-- the panes that are left, over the whole width
unfoldable pub fit_panes : Answers → Client → Option Client
fit_panes k c =
    let n = length c.panes in
    let h = sub32 c.ws.ws_row 1 in
    elim (divided (sub32 c.ws.ws_col (n - 1)) n) [
      | none ↦ none
      | some w ↦ elim (lay_out k.vterm w h 0 c.panes) [
        | none ↦ none
        | some (panes, _) ↦ some (act (record c { panes = panes }) (size_effects w h panes))
      ]
    ]

-- the two pending signals
unfoldable pub serve_signals : Answers → Client → Option Client
serve_signals k c =
    elim (if c.sigwinch_pending
      then dispatch_event k ev_winch (record c { sigwinch_pending = false })
      else some c) [
        | none ↦ none
        | some c' ↦
            if c'.sigchld_pending
            then dispatch_event k ev_chld_exit (record c' { sigchld_pending = false })
            else some c'
      ]

-- the descriptors, if `select` succeeded
unfoldable pub serve_fds : Answers → Ready → Client → Option Client
serve_fds k r c = elim (if r.server_closed then dispatch_event k ev_eof_pty c else some c) [
  | none ↦ none
  | some c1 ↦ elim (read_panes r (length c1.panes) 0 false c1) [
    | none ↦ none
    | some (c2, removed) ↦
        elim (if removed && not c2.child_exited then fit_panes k c2 else some c2) [
          | none ↦ none
          | some c3 ↦ if r.stdin_ready then dispatch_event k ev_stdin_read c3 else some c3
        ]
  ]
]

-- How an iteration ends.
pub data Iteration : Type 0 where
  continues : Client → Iteration
  leaves : Client → Iteration
  faults : Iteration

abbrev pub continued : Option Client → Iteration
continued none = faults
continued (some c) = continues c

-- what follows `select`
unfoldable pub selected_step : Answers → Ready → Client → Selected → Iteration
selected_step k r c failed = elim (dispatch_event k ev_interrupt c) [
  | none ↦ faults
  | some c' ↦ leaves c'
]
selected_step k r c interrupted = continued (serve_signals k c)
selected_step k r c ready = elim (serve_signals k c) [
  | none ↦ faults
  | some c' ↦ continued (serve_fds k r c')
]

-- one iteration of `client_loop`
unfoldable pub loop_step : Answers → Ready → Client → Iteration
loop_step k r c = if c.child_exited then leaves c else selected_step k r c r.selected

-- How the loop stands after iterations for which the answers are given.
pub data LoopRun : Type 0 where
  running : Client → LoopRun
  left : Client → LoopRun
  faulted : LoopRun

-- `client_loop`
unfoldable pub client_loop : List (Answers × Ready) → Client → LoopRun
client_loop [] c = running c
client_loop ((k, r) ∷ rest) c = elim (loop_step k r c) [
  | continues c' ↦ client_loop rest c'
  | leaves c' ↦ left c'
  | faults ↦ faulted
]
