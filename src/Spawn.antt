-- ===== src/Spawn.antt =====
-- spawn.c: the process of a shell. The answers of `fork`, `open` and `execve`, what is in the open
-- files, and what `snprintf` makes of "%d" are arguments. A table of descriptors leads to the number
-- of an open file; descriptors are natural numbers, and `dup2` and `close` do to the table what they
-- are documented to do. The messages of `perror` are left out.
pub mod Table
pub mod Shell
mod Tests
use mini_tmux.Base.{
  ℕ, zero, suc, ◌==◌, List, [], ◌∷◌, ◌++◌, Option, none, some, Bool, true, false, if◌then◌else◌, ℤ,
  pos, negsuc,
}
use mini_tmux.Server.Session.{Session}
use mini_tmux.Messages.{text_bytes}
use mini_tmux.CommandLine.{same_text}
use mini_tmux.Util.{getshell}

-- the open file of a descriptor
abbrev pub Table : Type 0
Table = ℕ → Option ℕ

-- a descriptor made to lead to a file, or closed by `none`
abbrev pub with_fd : ℕ → Option ℕ → Table → Table
with_fd fd file t d = if d == fd then file else t d

unfoldable pub dup2 : ℕ → ℕ → Table → Table
dup2 old new t = with_fd new (t old) t

-- `for (int fd = first; fd < first + n; fd++) close(fd);`
unfoldable pub close_all : ℕ → ℕ → Table → Table
close_all zero first t = t
close_all (suc n) first t = close_all n (suc first) (with_fd first none t)

abbrev pub Environ : Type 0
Environ = List ℕ → Option (List ℕ)

-- `setenv(name, value, 1)`
unfoldable pub setenv : List ℕ → List ℕ → Environ → Environ
setenv name value env n = if same_text n name then some value else env n

-- the flags of `struct termios` that are set here; the others are one value
pub record Termios : Type 0 where
  pub opost : Bool
  pub onlcr : Bool
  pub icrnl : Bool
  pub others : ℕ

-- the calls that concern the terminal and the session of the process
pub data TtyCall : Type 0 where
  new_session : TtyCall
  set_attributes : (fd : ℕ) → Termios → TtyCall
  set_controlling : (fd : ℕ) → TtyCall
  set_foreground : (fd pid : ℕ) → TtyCall

pub record Process : Type 0 where
  pub fds : Table
  pub env : Environ
  pub calls : List TtyCall

-- What the calls return: in the child, `fork` gives 0. `open` gives a descriptor, or fails; `slave`
-- is the file that is opened. `executable` is what `access` says.
pub record SpawnAnswers : Type 0 where
  pub fork : ℤ
  pub open_slave : Option ℕ
  pub slave : ℕ
  pub attributes : Termios
  pub child_pid : ℕ
  pub executable : List ℕ → Bool
  pub pw_shell : Option (List ℕ)
  pub number : ℤ → List ℕ
  pub execve_works : Bool

-- How `spawn_child` ends in the process that it runs in: it returns, the process exits, or the
-- process becomes a program, with its path and arguments.
pub data Spawned : Type 0 where
  returns : ℤ → Spawned
  exits : ℕ → Spawned
  runs : List ℕ → List (List ℕ) → Process → Spawned

unfoldable pub with_output_flags : Termios → Termios
with_output_flags tio = record tio { opost = true; onlcr = true; icrnl = true }

-- the child before `execve`, with the descriptor of the terminal
unfoldable pub prepare_child : SpawnAnswers → Session → ℕ → Process → Process
prepare_child k s fd p = record {
  fds = close_all 1021 3 (dup2 fd 2 (dup2 fd 1 (dup2 fd 0 (with_fd fd (some k.slave) p.fds))));
  env =
      setenv (text_bytes "MINI_TMUX") (k.number s.slave_pid)
        (setenv (text_bytes "TERM") (text_bytes "xterm-256color") p.env);
  calls =
      p.calls
      ++ (new_session
          ∷ set_attributes fd (with_output_flags k.attributes)
          ∷ set_controlling fd
          ∷ set_foreground fd k.child_pid
          ∷ []);
}

unfoldable pub run_child : SpawnAnswers → Session → Process → Spawned
run_child k s p =
    let shell = getshell k.executable (p.env (text_bytes "SHELL")) k.pw_shell in
    elim k.open_slave [
      | none ↦ exits 1
      | some fd ↦
          if k.execve_works then runs shell (shell ∷ []) (prepare_child k s fd p) else exits 1
    ]

unfoldable pub spawn_child : SpawnAnswers → Session → Process → Spawned
spawn_child k s p = elim k.fork [
  | negsuc n ↦ exits 1
  | pos zero ↦ run_child k s p
  | pos (suc n) ↦ returns (pos (suc n))
]
