-- ===== src/Server/Start/Detached.antt =====
-- What the daemon has that `server_start` of server.c makes.
use mini_tmux.Base.{ltb, if◌then◌else◌, ℕ, ◌≤◌, ◌<◌, ◌≡◌, ◌≢◌, none, some}
use mini_tmux.Spawn.{Table, with_fd}
use mini_tmux.Server.Loop.{initial}
use mini_tmux.Server.Start.{Process, StartAnswers, Start, serves}

-- the least descriptor that is not in use
abbrev pub Lowest : ℕ → Table → Type 0
Lowest fd t = (t fd ≡ none) × ((d : ℕ) → d < fd → t d ≢ none)

-- The three calls of `open` give the least descriptors not in use, as they are documented to.
pub record OpensLowest (k : StartAnswers) (t : Table) : Type 0 where
  pub first : Lowest k.null_fds.0 t
  pub second : Lowest k.null_fds.1 (with_fd k.null_fds.0 (some k.null) t)
  pub third :
      Lowest k.null_fds.2
        (with_fd k.null_fds.1 (some k.null) (with_fd k.null_fds.0 (some k.null) t))

-- the table with the standard descriptors closed
abbrev pub no_standard : Table → Table
no_standard t = with_fd 2 none (with_fd 1 none (with_fd 0 none t))

-- the three descriptors that `open` gives
abbrev pub OpensStandard : ℕ × ℕ × ℕ → Type 0
OpensStandard fds = (fds.0 ≡ 0) × (fds.1 ≡ 1) × (fds.2 ≡ 2)

-- the table of the daemon
abbrev daemon_fds : ℕ × ℕ × ℕ → ℕ → Table → Table
daemon_fds fds null t =
    with_fd fds.2 (some null)
      (with_fd fds.1 (some null) (with_fd fds.0 (some null) (no_standard t)))

-- The process runs `server_loop` from the empty state. Its standard descriptors are "/dev/null", the
-- others are the listening socket and those that it inherited, and no further signal is blocked.
pub record Daemon (k : StartAnswers) (p : Process) (listen_fd : ℕ) (r : Start) : Type 0 where
  pub process : Process
  pub running : r ≡ serves listen_fd process initial
  pub standard : (d : ℕ) → d < 3 → process.fds d ≡ some k.null
  pub listens : process.fds listen_fd ≡ some (if ltb listen_fd 3 then k.null else k.listener)
  pub inherited : (d : ℕ) → 3 ≤ d → d ≢ listen_fd → process.fds d ≡ p.fds d
  pub unblocked : process.blocked ≡ p.blocked
