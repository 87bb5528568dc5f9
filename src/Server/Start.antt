-- ===== src/Server/Start.antt =====
-- `server_start` of server.c, as each of its three processes runs it, and the sets of `select` in
-- `server_loop`. The answers of the system calls are arguments; a table leads from a descriptor to
-- the number of an open file. `waitpid` and `umask`, and the message of a failure, are left out. What
-- the daemon does behind `server_loop`, to close its socket and exit, is left out too.
pub mod Caller
pub mod Detached
mod Tests
use mini_tmux.Base.{
  ℕ, zero, suc, List, [], ◌∷◌, Option, none, some, Bool, true, false, if◌then◌else◌, ltb, ℤ, pos,
  negsuc, minus_one,
}
use mini_tmux.Server.Session.{Server}
use mini_tmux.Server.Loop.{initial}
use mini_tmux.Spawn.{Table, with_fd}

-- the descriptors, and which signals are blocked
pub record Process : Type 0 where
  pub fds : Table
  pub blocked : ℕ → Bool

-- What the calls return. `listener`, `null` and `connection` are the files behind the listening
-- socket, "/dev/null" and the socket of the client; `null_fds` are the descriptors of the three
-- calls of `open`.
pub record StartAnswers : Type 0 where
  pub socket : Option ℕ
  pub bind_works : Bool
  pub listen_works : Bool
  pub fork : ℤ
  pub setsid_works : Bool
  pub fork_again : ℤ
  pub null_fds : ℕ × ℕ × ℕ
  pub client_socket : Option ℕ
  pub connects : Bool
  pub listener : ℕ
  pub null : ℕ
  pub connection : ℕ

-- How the function ends: it returns, the process exits, or it runs `server_loop` with the
-- descriptor, in the state given.
pub data Start : Type 0 where
  returns : ℤ → Process → Start
  exits : ℕ → Start
  serves : ℕ → Process → Server → Start

abbrev pub open_fd : ℕ → ℕ → Process → Process
open_fd fd file p = record p { fds = with_fd fd (some file) p.fds }

abbrev pub close_fd : ℕ → Process → Process
close_fd fd p = record p { fds = with_fd fd none p.fds }

abbrev pub block_all : Process → Process
block_all p = record p { blocked = λ s. true }

abbrev pub set_mask : (ℕ → Bool) → Process → Process
set_mask old p = record p { blocked = old }

-- the second child, with the mask to restore
unfoldable pub run_daemon : StartAnswers → ℕ → (ℕ → Bool) → Process → Start
run_daemon k listen_fd old p =
    let closed = close_fd 2 (close_fd 1 (close_fd 0 p)) in
    let opened =
      open_fd k.null_fds.2 k.null
        (open_fd k.null_fds.1 k.null (open_fd k.null_fds.0 k.null closed)) in
    serves listen_fd (set_mask old opened) initial

-- the first child
unfoldable pub run_first_child : StartAnswers → ℕ → (ℕ → Bool) → Process → Start
run_first_child k listen_fd old p =
    if k.setsid_works
    then elim k.fork_again [
      | negsuc n ↦ exits 1
      | pos zero ↦ run_daemon k listen_fd old p
      | pos (suc n) ↦ exits 0
    ]
    else exits 1

-- the parent, after the first child exited
unfoldable pub connect_client : StartAnswers → ℕ → (ℕ → Bool) → Process → Start
connect_client k listen_fd old p =
    let p' = close_fd listen_fd (set_mask old p) in
    elim k.client_socket [
      | none ↦ returns minus_one p'
      | some fd ↦
          if k.connects
          then returns (pos fd) (open_fd fd k.connection p')
          else returns minus_one (close_fd fd (open_fd fd k.connection p'))
    ]

-- from the first `fork` on
unfoldable pub fork_daemon : StartAnswers → ℕ → (ℕ → Bool) → Process → Start
fork_daemon k listen_fd old p = elim k.fork [
  | negsuc n ↦ returns minus_one (close_fd listen_fd (set_mask old p))
  | pos zero ↦ run_first_child k listen_fd old p
  | pos (suc n) ↦ connect_client k listen_fd old p
]

unfoldable pub server_start : StartAnswers → Process → Start
server_start k p = elim k.socket [
  | none ↦ returns minus_one p
  | some listen_fd ↦
      let p' = open_fd listen_fd k.listener p in
      if k.bind_works
      then (if k.listen_works
          then fork_daemon k listen_fd p'.blocked (block_all p')
          else returns minus_one (close_fd listen_fd p'))
      else returns minus_one (close_fd listen_fd p')
]
