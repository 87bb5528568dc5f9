-- ===== src/Spawn/Tests.antt =====
-- A shell that is started for a session, on the descriptors that the server has.
use mini_tmux.Base.{ℕ, refl, List, [], ◌∷◌, none, some, true, false, pos, ℤ, negsuc}
use mini_tmux.Spawn.{SpawnAnswers, Process, spawn_child}
use mini_tmux.Spawn.Shell.{OnTerminal, spawn_child-OnTerminal}
use mini_tmux.Server.Tests.{attached_session}

abbrev shown : ℤ → List ℕ
shown (pos n) = b'7' ∷ []
shown (negsuc n) = b'-' ∷ b'1' ∷ []

abbrev answers : SpawnAnswers
answers = record {
  fork = pos 0;
  open_slave = some 9;
  slave = 40;
  attributes = record { opost = false; onlcr = false; icrnl = false; others = 0 };
  child_pid = 123;
  executable = λ path. true;
  pw_shell = none;
  number = shown;
  execve_works = true;
}

abbrev server_process : Process
server_process = record { fds = λ d. some 1; env = λ n. none; calls = [] }

spawn_child-OnTerminal_example :
    OnTerminal answers (spawn_child answers attached_session server_process)
spawn_child-OnTerminal_example =
    spawn_child-OnTerminal answers attached_session server_process 9 b'7' [] refl refl refl refl
      refl
