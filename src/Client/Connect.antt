-- ===== src/Client/Connect.antt =====
-- client.c: `client_connect` with its lock, `client_init` and `signal_handler`. What the system calls
-- return is an argument, and so is what `server_start` returns.
use mini_tmux.Base.{
  ℕ, ◌≡◌, refl, List, [], ◌∷◌, ◌++◌, Option, none, some, Bool, true, false, if◌then◌else◌, ℤ, pos,
  negsuc, minus_one,
}
use mini_tmux.Server.Session.{Winsize}
use mini_tmux.Client.{Client, Answers, st_boot, st_running}
use mini_tmux.Client.Machine.{dispatch, find_transition, take_transition, run_action}
use mini_tmux.Client.Main.{client_new, client_start, fresh, looping, enter_loop}
use mini_tmux.Util.{client_check_nested}

-- what `flock` without waiting gives
pub data TryLock : Type 0 where
  locked would_block lock_failed : TryLock

-- what `unlink` of the socket's path gives
pub data Unlink : Type 0 where
  unlinked not_there unlink_failed : Unlink

-- The answers: the socket, whether `connect` succeeds, the lock file and its lock, `unlink`, and
-- `server_start`. The loop that waits for the lock ends some time.
pub record ConnectAnswers : Type 0 where
  pub socket : Option ℕ
  pub connects : Bool
  pub lock_file : Option ℕ
  pub try_lock : TryLock
  pub unlink : Unlink
  pub server_start : ℤ

-- what was done to descriptors and to the server
pub data ConnectEffect : Type 0 where
  closed_fd : ℕ → ConnectEffect
  started : ConnectEffect

-- `client_get_lock`: the descriptor, -1, or -2 after another held the lock
unfoldable pub client_get_lock : ConnectAnswers → ℤ × List ConnectEffect
client_get_lock k = elim k.lock_file [
  | none ↦ (minus_one, [])
  | some fd ↦ elim k.try_lock [
    | locked ↦ (pos fd, [])
    | would_block ↦ (negsuc 1, closed_fd fd ∷ [])
    | lock_failed ↦ (pos fd, [])
  ]
]

-- after a failing `connect`, with the lock's descriptor
unfoldable pub start_server : ConnectAnswers → ℤ → ℤ × List ConnectEffect
start_server k (pos fd) = elim k.unlink [
  | unlinked ↦ (k.server_start, started ∷ [])
  | not_there ↦ (k.server_start, started ∷ [])
  | unlink_failed ↦ (minus_one, closed_fd fd ∷ [])
]
start_server k (negsuc n) = (k.server_start, started ∷ [])

-- `client_connect`: `locked` stays 0, so that the test behind it is never passed
unfoldable pub client_connect : ConnectAnswers → ℤ × List ConnectEffect
client_connect k = elim k.socket [
  | none ↦ (minus_one, [])
  | some fd ↦
      if k.connects
      then (pos fd, [])
      else let (lockfd, tried) = client_get_lock k in
        let (result, done) = start_server k lockfd in (result, closed_fd fd ∷ (tried ++ done))
]

-- When no server answers and the lock is taken, the server is started, and the descriptor of the lock
-- is not closed: the only one that is closed is the socket.
pub client_connect_keeps_lock :
    (k : ConnectAnswers) (fd lock : ℕ)
    → k.socket ≡ some fd
    → k.connects ≡ false
    → k.lock_file ≡ some lock
    → k.try_lock ≡ locked
    → k.unlink ≡ unlinked
    → client_connect k ≡ (k.server_start, closed_fd fd ∷ started ∷ [])
unfolding client_connect client_get_lock start_server
client_connect_keeps_lock k fd lock a b c d e = rw (a, b, c, d, e) refl

-- When another client holds the lock, it is waited for, but then a server is started all the same,
-- without another attempt to connect, and without `unlink`.
pub client_connect_after_wait :
    (k : ConnectAnswers) (fd lock : ℕ)
    → k.socket ≡ some fd
    → k.connects ≡ false
    → k.lock_file ≡ some lock
    → k.try_lock ≡ would_block
    → client_connect k ≡ (k.server_start, closed_fd fd ∷ closed_fd lock ∷ started ∷ [])
unfolding client_connect client_get_lock start_server
client_connect_after_wait k fd lock a b c d = rw (a, b, c, d) refl

-- `client_init` of the global client, whose other fields are 0, with the size that TIOCGWINSZ gives
-- and the descriptors that will be received
unfoldable pub client_init : Winsize → List ℤ → Client
client_init ws fds = record {
  state = st_boot;
  server_fd = minus_one;
  master_fd = minus_one;
  ws = ws;
  child_exited = false;
  panes = [];
  pane = 0;
  next_pane_id = 0;
  ctrl_b_pressed = false;
  sigwinch_pending = false;
  sigchld_pending = false;
  keybinds = [];
  recv_fds = fds;
  trace = [];
}

-- the signals that are caught; for SIGCHLD, whether `waitpid` found a child that ended
pub data Signal : Type 0 where
  sigwinch : Signal
  sigchld : Bool → Signal

unfoldable pub signal_handler : Signal → Client → Client
signal_handler sigwinch c = record c { sigwinch_pending = true }
signal_handler (sigchld reaped) c = record c {
  sigchld_pending = if reaped then true else c.sigchld_pending;
}

-- A client that is started without options outside a session, and gets a descriptor, enters its loop
-- in the state RUNNING.
pub client_start-running :
    (k : Answers) (ws : Winsize) (m : ℕ) (fds : List ℤ)
    → (c : Client) × (client_start k (none, none) fresh [] (client_init ws (pos m ∷ fds))
        ≡ looping c)
      × (c.state ≡ st_running)
unfolding client_start client_check_nested client_new client_init enter_loop dispatch
    find_transition take_transition run_action
client_start-running k ws m fds = (_, refl, refl)
