-- ===== src/Spawn/Shell.antt =====
-- The shell that `spawn_child` of spawn.c starts, and a client that is started from it.
use mini_tmux.Base.{
  ℕ, zero, suc, ◌≤◌, ◌<◌, ◌≡◌, refl, List, [], ◌∷◌, Option, none, some, true, arith, ◌∙◌, pos,
}
use mini_tmux.Server.Session.{Session}
use mini_tmux.Server.Wire.{Read}
use mini_tmux.Messages.{text_bytes}
use mini_tmux.Util.{checkshell, getshell, default_shell, client_check_nested}
use mini_tmux.Util.Shell.{getshell-usable}
use mini_tmux.Client.{Client, Answers}
use mini_tmux.Client.Main.{fresh, nested, client_start}
use mini_tmux.CommandLine.{same_text}
use mini_tmux.Spawn.{
  Process, SpawnAnswers, Table, runs, spawn_child, run_child, prepare_child, with_fd, dup2, setenv,
  Spawned,
}
use mini_tmux.Spawn.Table.{with_fd_self, dup2_new, dup2_keeps, close_all_below, close_all_closes}

-- the descriptors of the terminal after the three calls of `dup2`
three_dups :
    (fd file d : ℕ) (t : Table)
    → t fd ≡ some file
    → d < 3
    → dup2 fd 2 (dup2 fd 1 (dup2 fd 0 t)) d ≡ some file
three_dups fd file zero t h small =
    let at_fd = dup2_keeps fd 0 fd t file h h in
    dup2_keeps fd 2 0 (dup2 fd 1 (dup2 fd 0 t)) file
      (dup2_keeps fd 1 fd (dup2 fd 0 t) file at_fd at_fd)
      (dup2_keeps fd 1 0 (dup2 fd 0 t) file at_fd (dup2_new fd 0 t ∙ h))
three_dups fd file (suc zero) t h small =
    let at_fd = dup2_keeps fd 0 fd t file h h in
    dup2_keeps fd 2 1 (dup2 fd 1 (dup2 fd 0 t)) file
      (dup2_keeps fd 1 fd (dup2 fd 0 t) file at_fd at_fd) (dup2_new fd 1 (dup2 fd 0 t) ∙ at_fd)
three_dups fd file (suc (suc zero)) t h small =
    let at_fd = dup2_keeps fd 0 fd t file h h in
    dup2_new fd 2 (dup2 fd 1 (dup2 fd 0 t)) ∙ dup2_keeps fd 1 fd (dup2 fd 0 t) file at_fd at_fd
three_dups fd file (suc (suc (suc d))) t h small = absurd (omega (arith, small))

-- A client in the environment that is started without options is refused as one inside another.
abbrev pub RefusesClients : Process → Type 0
RefusesClients p =
    (k : Answers) (reads : List Read) (c : Client)
    → client_start k (p.env (text_bytes "MINI_TMUX"), p.env (text_bytes "TMUX")) fresh reads c
      ≡ nested

-- The process runs a usable shell on the terminal, and holds no other descriptor below 1024.
pub record OnTerminal (k : SpawnAnswers) (r : Spawned) : Type 0 where
  pub shell : List ℕ
  pub process : Process
  pub running : r ≡ runs shell (shell ∷ []) process
  pub usable : checkshell k.executable (some shell) ≡ true
  pub standard : (d : ℕ) → d < 3 → process.fds d ≡ some k.slave
  pub closed : (d : ℕ) → 3 ≤ d → d < 1024 → process.fds d ≡ none
  pub refuses : RefusesClients process

nested_start :
    (b : ℕ) (text : List ℕ) (tmux : Option (List ℕ)) (k : Answers) (reads : List Read) (c : Client)
    → client_start k (some (b ∷ text), tmux) fresh reads c ≡ nested
unfolding client_start client_check_nested
nested_start b text none k reads c = refl
nested_start b text (some []) k reads c = refl
nested_start b text (some (a ∷ rest)) k reads c = refl

prepare_child-RefusesClients :
    (k : SpawnAnswers) (s : Session) (fd b : ℕ) (text : List ℕ) (p : Process)
    → k.number s.slave_pid ≡ b ∷ text
    → RefusesClients (prepare_child k s fd p)
unfolding prepare_child setenv same_text text_bytes
prepare_child-RefusesClients k s fd b text p digits c reads cl =
    rw digits (nested_start b text (p.env (text_bytes "TMUX")) c reads cl)

-- In the child, if the terminal can be opened, "/bin/sh" can be executed, "%d" gives some text, and
-- `execve` works, a usable shell runs with itself as the only argument. Its descriptors 0, 1 and 2
-- are the terminal, all others below 1024 are closed, those of the server's clients among them, and
-- a client that is started in it without options is refused.
pub spawn_child-OnTerminal :
    (k : SpawnAnswers) (s : Session) (p : Process) (fd b : ℕ) (text : List ℕ)
    → k.fork ≡ pos 0
    → k.open_slave ≡ some fd
    → k.execve_works ≡ true
    → k.executable default_shell ≡ true
    → k.number s.slave_pid ≡ b ∷ text
    → OnTerminal k (spawn_child k s p)
unfolding spawn_child run_child prepare_child
spawn_child-OnTerminal k s p fd b text child opened works sh digits = record {
  shell = getshell k.executable (p.env (text_bytes "SHELL")) k.pw_shell;
  process = prepare_child k s fd p;
  running = rw (child, opened, works, spawn_child, run_child) refl;
  usable = getshell-usable k.executable (p.env (text_bytes "SHELL")) k.pw_shell sh;
  standard = λ d small.
      close_all_below 1021 3 d _ small
      ∙ three_dups fd k.slave d (with_fd fd (some k.slave) p.fds)
          (with_fd_self fd (some k.slave) p.fds) small;
  closed = λ d low high. close_all_closes 1021 3 d _ low (omega (arith, high));
  refuses = prepare_child-RefusesClients k s fd b text p digits;
}
