-- ===== src/Server/Start/Caller.antt =====
-- What the process that calls `server_start` of server.c has after it.
use native.Mathlib.Decide.{ℕ_discrete}
use mini_tmux.Base.{
  ℕ, zero, suc, ◌≡◌, ◌≢◌, refl, Option, none, some, if_both, if◌then◌else◌, ap, ◌∙◌, sym, ==_iff, ℤ,
  pos, negsuc, minus_one,
}
use mini_tmux.Spawn.{Table, with_fd}
use mini_tmux.Spawn.Table.{with_fd_self, with_fd_ne}
use mini_tmux.Server.Start.{
  Process, StartAnswers, Start, returns, server_start, fork_daemon, connect_client, run_first_child,
  open_fd, close_fd, set_mask, block_all,
}

-- the same descriptors lead to the same files
abbrev pub SameTable : Table → Table → Type 0
SameTable t t' = (d : ℕ) → t' d ≡ t d

-- A descriptor that was free is free again when it is closed.
pub closed_again :
    (fd : ℕ) (file : Option ℕ) (t : Table)
    → t fd ≡ none
    → SameTable t (with_fd fd none (with_fd fd file t))
closed_again fd file t free d = elim (ℕ_discrete d fd) [
  | yes e ↦ rw ((==_iff d fd).1 e) (sym (ap t e ∙ free))
  | no ne ↦ with_fd_ne fd d none (with_fd fd file t) ne ∙ with_fd_ne fd d file t ne
]

-- How the calling process goes on: nothing was left open and no signal stays blocked, but for the
-- socket that is returned, which leads to the file `connection`.
pub data Settled (connection : ℕ) (p : Process) : Start → Type 0 where
  failed :
      {p' : Process}
      → SameTable p.fds p'.fds
      → p'.blocked ≡ p.blocked
      → Settled connection p (returns minus_one p')
  connected :
      {fd : ℕ} {p' : Process}
      → p.fds fd ≡ none
      → p'.fds fd ≡ some connection
      → ((d : ℕ) → d ≢ fd → p'.fds d ≡ p.fds d)
      → p'.blocked ≡ p.blocked
      → Settled connection p (returns (pos fd) p')

-- `socket` gives a descriptor that is not in use.
pub record FreshSockets (k : StartAnswers) (p : Process) : Type 0 where
  pub listening : (fd : ℕ) → k.socket ≡ some fd → p.fds fd ≡ none
  pub connecting : (fd : ℕ) → k.client_socket ≡ some fd → p.fds fd ≡ none

connect_client-Settled :
    (k : StartAnswers) (p q : Process) (listen_fd : ℕ)
    → SameTable p.fds (with_fd listen_fd none q.fds)
    → FreshSockets k p
    → Settled k.connection p (connect_client k listen_fd p.blocked q)
unfolding connect_client
connect_client-Settled k p q listen_fd same fresh = by_socket k.client_socket fresh.connecting
  where
    p' : Process
    p' = close_fd listen_fd (set_mask p.blocked q)

    by_socket :
        (o : Option ℕ)
        → ((fd : ℕ) → o ≡ some fd → p.fds fd ≡ none)
        → Settled k.connection p (elim o [
          | none ↦ returns minus_one p'
          | some fd ↦
              if k.connects
              then returns (pos fd) (open_fd fd k.connection p')
              else returns minus_one (close_fd fd (open_fd fd k.connection p'))
        ])
    by_socket none unused = failed same refl
    by_socket (some fd) unused =
        if_both (Settled k.connection p) k.connects _ _
          (connected (unused fd refl) (with_fd_self fd (some k.connection) p'.fds)
            (λ d ne. with_fd_ne fd d (some k.connection) p'.fds ne ∙ same d) refl)
          (failed
            (λ d. closed_again fd (some k.connection) p'.fds (same fd ∙ unused fd refl) d ∙ same d)
            refl)

fork_daemon-Settled :
    (k : StartAnswers) (p q : Process) (listen_fd : ℕ)
    → SameTable p.fds (with_fd listen_fd none q.fds)
    → FreshSockets k p
    → k.fork ≢ pos 0
    → Settled k.connection p (fork_daemon k listen_fd p.blocked q)
unfolding fork_daemon
fork_daemon-Settled k p q listen_fd same fresh parent = by_fork k.fork parent
  where
    by_fork :
        (r : ℤ)
        → r ≢ pos 0
        → Settled k.connection p (elim r [
          | negsuc n ↦ returns minus_one (close_fd listen_fd (set_mask p.blocked q))
          | pos zero ↦ run_first_child k listen_fd p.blocked q
          | pos (suc n) ↦ connect_client k listen_fd p.blocked q
        ])
    by_fork (negsuc n) ne = failed same refl
    by_fork (pos zero) ne = absurd (ne refl)
    by_fork (pos (suc n)) ne = connect_client-Settled k p q listen_fd same fresh

-- In the process that calls it, `server_start` returns: -1, with every descriptor as before, or a
-- socket that leads to the connection, under a descriptor that was not in use, with every other
-- descriptor as before. The same signals are blocked as before. The sockets that it gets are
-- descriptors not in use.
pub server_start-Settled :
    (k : StartAnswers) (p : Process)
    → FreshSockets k p
    → k.fork ≢ pos 0
    → Settled k.connection p (server_start k p)
unfolding server_start
server_start-Settled k p fresh parent = by_socket k.socket fresh.listening
  where
    by_socket :
        (o : Option ℕ)
        → ((fd : ℕ) → o ≡ some fd → p.fds fd ≡ none)
        → Settled k.connection p (elim o [
          | none ↦ returns minus_one p
          | some listen_fd ↦
              if k.bind_works
              then (if k.listen_works
                  then fork_daemon k listen_fd p.blocked
                      (block_all (open_fd listen_fd k.listener p))
                  else returns minus_one (close_fd listen_fd (open_fd listen_fd k.listener p)))
              else returns minus_one (close_fd listen_fd (open_fd listen_fd k.listener p))
        ])
    by_socket none unused = failed (λ d. refl) refl
    by_socket (some fd) unused =
        let same : SameTable p.fds (with_fd fd none (with_fd fd (some k.listener) p.fds)) =
          closed_again fd (some k.listener) p.fds (unused fd refl) in
        if_both (Settled k.connection p) k.bind_works _ _
          (if_both (Settled k.connection p) k.listen_works _ _
            (fork_daemon-Settled k p (block_all (open_fd fd k.listener p)) fd same fresh parent)
            (failed same refl))
          (failed same refl)
