-- ===== src/Server/Start/Tests.antt =====
-- A server that is started from a terminal; the theorems about its processes at it.
use mini_tmux.Base.{ℕ, ◌≡◌, refl, Option, none, some, true, false, pos, arith, if◌then◌else◌, ltb}
use mini_tmux.Spawn.{Table}
use mini_tmux.Server.Start.{Process, StartAnswers, server_start}
use mini_tmux.Server.Start.Caller.{FreshSockets, Settled, server_start-Settled}

-- the terminal on the first three descriptors
abbrev terminal : Table
terminal d = if ltb d 3 then some 1 else none

abbrev shell_process : Process
shell_process = record { fds = terminal; blocked = λ s. false }

abbrev parent_answers : StartAnswers
parent_answers = record {
  socket = some 3;
  bind_works = true;
  listen_works = true;
  fork = pos 200;
  setsid_works = true;
  fork_again = pos 0;
  null_fds = (0, 1, 2);
  client_socket = some 3;
  connects = true;
  listener = 10;
  null = 11;
  connection = 12;
}

three_free : (o : Option ℕ) → o ≡ some 3 → (fd : ℕ) → o ≡ some fd → terminal fd ≡ none
three_free o e fd e' = ground (arith, e, e')

sockets-FreshSockets : FreshSockets parent_answers shell_process
sockets-FreshSockets = record {
  listening = three_free (some 3) refl;
  connecting = three_free (some 3) refl;
}

server_start-Settled_example : Settled 12 shell_process (server_start parent_answers shell_process)
server_start-Settled_example =
    server_start-Settled parent_answers shell_process sockets-FreshSockets (λ e. absurd (cc))

abbrev child_answers : StartAnswers
child_answers = record parent_answers { fork = pos 0 }
