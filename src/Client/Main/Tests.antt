-- ===== src/Client/Main/Tests.antt =====
-- A client and a server; the theorems about requests, new sessions and the end of the loop at them.
use mini_tmux.Base.{◌≡◌, refl, [], ◌∷◌, true, pos}
use mini_tmux.Client.{Client}
use mini_tmux.Client.Tests.{client, answers, terminal_ready}
use mini_tmux.Client.Loop.{Ready, client_loop, left}
use mini_tmux.Client.Leaving.{closing, client_loop_closed}

-- a client that was started in a window of one row and five columns
abbrev started : Client
started = record client { panes = []; next_pane_id = 0; recv_fds = pos 8 ∷ [] }

-- the server closed the connection, while the terminal has input
abbrev closed_connection : Ready
closed_connection = record terminal_ready { server_closed = true }

client_loop_closed_example :
    client_loop ((answers, closed_connection) ∷ (answers, terminal_ready) ∷ []) client
    ≡ left (closing client)
client_loop_closed_example =
    client_loop_closed answers closed_connection client (answers, terminal_ready) [] refl refl refl
      refl refl refl (λ fd. refl)
