-- ===== src/Server/Loop.antt =====
-- `server_loop` of server.c: one iteration, as its steps and composed.
-- The kernel's answers are the `Input`. Loops over the 64 slots run over the list `client_fds`.
use mini_tmux.Base.{
  ℕ, zero, suc, List, [], ◌∷◌, ◌++◌, Option, none, some, Bool, true, false, ◌&&◌, not,
  if◌then◌else◌, get_or, set, ℤ, minus_one, ◌==ℤ◌, is_nonneg, is_pos, pos, negsuc, replicate,
}
use mini_tmux.Server.Session.{Session, max_clients, Effect, closed, Server, emit}
use mini_tmux.Server.Wire.{Read}
use mini_tmux.Server.Receive.{Reply, returns, exits, faults, blocks, Kernel, Texts, close_open}
use mini_tmux.Server.Receive.Dispatch.{server_receive}

-- the first slot that holds `old` gets `new`
unfoldable pub replace_slot : ℤ → ℤ → List ℤ → List ℤ
replace_slot old new [] = []
replace_slot old new (fd ∷ fds) = if fd ==ℤ old then new ∷ fds else fd ∷ replace_slot old new fds

-- A new connection takes the first free slot; with none it stays open and is in no slot.
unfoldable pub accept_client : ℤ → Server → Server
accept_client new_fd sv =
    if is_nonneg new_fd
    then record sv { client_fds = replace_slot minus_one new_fd sv.client_fds }
    else sv

-- What the kernel answers in one iteration: the descriptors that `select` found readable, what
-- `accept` returns if the listening socket is readable, and for each client what its reads and the
-- other calls yield.
pub record Input : Type 0 where
  pub readable : ℤ → Bool
  pub accepted : Option ℤ
  pub reads : ℤ → List Read
  pub kernel : ℤ → Kernel
  pub padding : List ℕ
  pub exited_pids : List ℤ
  pub sigchld : Bool

-- `select` returned, was interrupted by a signal, or failed.
pub data Select : Type 0 where
  selected : Select
  eintr : Select
  select_failed : Select

-- The handling of the slots from `i` on, `n` of them.
unfoldable pub serve_slots : Texts → Input → ℕ → ℕ → Server → Reply
serve_slots t inp zero i sv = returns (pos 0) sv
serve_slots t inp (suc n) i sv =
    let fd = get_or sv.client_fds i minus_one in
    let next = λ (sv' : Server). serve_slots t inp n (suc i) sv' in
    if is_nonneg fd && inp.readable fd
    then elim (server_receive (inp.kernel fd) t fd inp.padding (inp.reads fd) sv) [
      | returns (pos r) sv' ↦ next sv'
      | returns (negsuc r) sv' ↦
          next (emit (record sv' { client_fds = set sv'.client_fds i minus_one }) (closed fd ∷ []))
      | exits sv' ↦ exits sv'
      | faults ↦ faults
      | blocks ↦ blocks
    ]
    else next sv

-- what is done with the ready descriptors
unfoldable pub serve_ready : Texts → Input → Server → Reply
serve_ready t inp sv = elim inp.accepted [
  | none ↦ serve_slots t inp max_clients 0 sv
  | some new_fd ↦ serve_slots t inp max_clients 0 (accept_client new_fd sv)
]

-- The sessions marked as detached lose their client; the shells run on.
unfoldable pub sweep_session : Session → List ℤ → Session × List ℤ × List Effect
sweep_session s fds =
    if s.detached
    then (
      record s { client_fd = minus_one },
      replace_slot s.client_fd minus_one fds,
      closed s.client_fd ∷ [],
    )
    else (s, fds, [])

unfoldable pub sweep_sessions : List Session → List ℤ → List Session × List ℤ × List Effect
sweep_sessions [] fds = ([], fds, [])
sweep_sessions (s ∷ ss) fds =
    let (s', fds', es) = sweep_session s fds in
    let (ss', fds'', es') = sweep_sessions ss fds' in (s' ∷ ss', fds'', es ++ es')

unfoldable pub sweep_detached : Server → Server
sweep_detached sv =
    let (ss, fds, es) = sweep_sessions sv.sessions sv.client_fds in
    emit (record sv { sessions = ss; client_fds = fds }) es

-- the first of the first `n` panes whose shell is `pid`
unfoldable pub find_pane : ℤ → ℕ → List ℤ → Option ℕ
find_pane pid zero pids = none
find_pane pid (suc n) [] = none
find_pane pid (suc n) (p ∷ pids) =
    let rest = find_pane pid n pids in
    if p ==ℤ pid then some 0 else elim rest [ none ↦ none | some i ↦ some (suc i) ]

-- no shell of the first `n` panes runs
unfoldable pub all_exited : ℕ → List ℤ → Bool
all_exited zero pids = true
all_exited (suc n) [] = true
all_exited (suc n) (p ∷ pids) = not (is_pos p) && all_exited n pids

-- pane `i` of a session after its shell exited
unfoldable pub exit_pane : ℕ → Session → Session
exit_pane i s = record s {
  master_fds =
      (if is_nonneg (get_or s.master_fds i minus_one)
        then set s.master_fds i minus_one
        else s.master_fds);
  pane_pids = set s.pane_pids i minus_one;
}

-- The session ends with its last shell, and its client is disconnected.
unfoldable pub end_session : Session → List ℤ → Session × List ℤ × List Effect
end_session s fds =
    if is_nonneg s.client_fd
    then (
      record s { child_exited = true; client_fd = minus_one },
      replace_slot s.client_fd minus_one fds,
      closed s.client_fd ∷ [],
    )
    else (record s { child_exited = true }, fds, [])

unfoldable pub reap_session : ℤ → Session → List ℤ → Session × List ℤ × List Effect
reap_session pid s fds = elim (find_pane pid s.pane_count s.pane_pids) [
  | none ↦ (s, fds, [])
  | some i ↦
      let s' = exit_pane i s in
      let es = close_open (get_or s.master_fds i minus_one) in
      let (s'', fds', es') = end_session s' fds in
      if all_exited s'.pane_count s'.pane_pids then (s'', fds', es ++ es') else (s', fds, es)
]

unfoldable pub reap_pid : ℤ → List Session → List ℤ → List Session × List ℤ × List Effect
reap_pid pid [] fds = ([], fds, [])
reap_pid pid (s ∷ ss) fds =
    let (s', fds', es) = reap_session pid s fds in
    let (ss', fds'', es') = reap_pid pid ss fds' in (s' ∷ ss', fds'', es ++ es')

-- `while ((pid = waitpid(-1, &status, WNOHANG)) > 0)`
unfoldable pub reap_pids : List ℤ → Server → Server
reap_pids [] sv = sv
reap_pids (pid ∷ pids) sv =
    let (ss, fds, es) = reap_pid pid sv.sessions sv.client_fds in
    reap_pids pids (emit (record sv { sessions = ss; client_fds = fds }) es)

-- the sessions left when the ended ones are taken off the list
unfoldable pub drop_exited : List Session → List Session
drop_exited [] = []
drop_exited (s ∷ ss) = if s.child_exited then drop_exited ss else s ∷ drop_exited ss

unfoldable pub reap_children : Input → Server → Server
reap_children inp sv =
    if sv.sigchld_pending
    then (let sv' = reap_pids inp.exited_pids (record sv { sigchld_pending = false }) in
        record sv' { sessions = drop_exited sv'.sessions })
    else sv

-- SIGCHLD only sets the flag.
unfoldable pub server_signal_handler : Server → Server
server_signal_handler sv = record sv { sigchld_pending = true }

-- the part of an iteration behind the handling of the descriptors
unfoldable pub after_select : Input → Server → Server
after_select inp sv =
    reap_children inp (sweep_detached (if inp.sigchld then server_signal_handler sv else sv))

pub data Iteration : Type 0 where
  goes_on : Server → Iteration
  -- `break`: the loop, and the server, ends
  stops : Server → Iteration
  exited : Server → Iteration
  faulted : Iteration
  blocked : Iteration

unfoldable pub loop_step : Texts → Select → Input → Server → Iteration
loop_step t select_failed inp sv = stops sv
loop_step t eintr inp sv = goes_on (after_select inp sv)
loop_step t selected inp sv = elim (serve_ready t inp sv) [
  | returns r sv' ↦ goes_on (after_select inp sv')
  | exits sv' ↦ exited sv'
  | faults ↦ faulted
  | blocks ↦ blocked
]

-- the state in which the loop starts
unfoldable pub initial : Server
initial = record {
  sessions = [];
  client_fds = replicate max_clients minus_one;
  sigchld_pending = false;
  trace = [];
}

-- iterations in a row, each with what the kernel does in it
unfoldable pub run : Texts → List (Select × Input) → Server → Iteration
run t [] sv = goes_on sv
run t ((sel, inp) ∷ rest) sv = elim (loop_step t sel inp sv) [
  | goes_on sv' ↦ run t rest sv'
  | stops sv' ↦ stops sv'
  | exited sv' ↦ exited sv'
  | faulted ↦ faulted
  | blocked ↦ blocked
]
