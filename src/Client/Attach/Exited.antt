-- ===== src/Client/Attach/Exited.antt =====
-- `client_main` that attaches to a session of which a shell has exited, over the stream of its socket:
-- `send_fd` and `recv_fd` of util.c, `server_receive` of server.c.
use mini_tmux.Base.{ℕ, List, [], ◌∷◌, ◌++◌, le32}
use mini_tmux.Server.Wire.{header_image}

-- The number of grids as it is sent, and the header of the first grid.
abbrev pub count_and_header : ℕ → ℕ → List ℕ
count_and_header grids len =
    le32 grids ++ header_image (0 ∷ 0 ∷ 0 ∷ 0 ∷ []) (record { type = 308; len = len })
