-- ===== src/Lib.antt =====
-- mini-tmux, a small terminal multiplexer: a server that keeps shell sessions, and clients that show
-- their panes. This library models its own C code and proves what makes the parts correct.
--
-- The parts, by file of the repository:
--   render.c, render.h   the screen grid: `Grid` (cells, the history ring, scrolling, the line to
--                        display: grid_init_history, grid_scroll_up, grid_scroll_down,
--                        grid_free_history, grid_push_line_to_history, grid_get_display_line) and
--                        `Grid.Serial` (grid_serialize, grid_deserialize). `Grid.History`,
--                        `Grid.Log` and the children of `Grid.Serial` hold the proofs.
--   server.c, server.h,  the session server: `Server.Session` (struct session, session_init, the
--   mini_tmux-protocol.h lookups), `Server.Wire` (read_n, message headers), `Server.Receive` and
--                        its child `Dispatch` (server_receive, a handler for each message), `Server.Loop`
--                        (an iteration of server_loop, and runs of it) and `Server.Start`
--                        (server_start, in each of its three processes). `Server.Invariant`,
--                        `Server.Kill`, `Server.Attach`, `Server.Parked`, `Server.Listing` and the
--                        children of `Server.Start` hold the proofs.
--   spawn.c              `Spawn` (spawn_child, with the table of descriptors and the environment of
--                        the shell); the proofs are in `Spawn.Table` and `Spawn.Shell`.
--   log.c                `Log`, with `Log.Path` for the place of the log.
--   window.c, window.h   panes: `Window` (cp_to_utf8, screen_sb_pushline, pane_resize, pane_create) and
--                        `Window.Blocks` (the memory of panes and windows); `Window.Utf8`,
--                        `Window.History` and `Window.Resize` hold the proofs.
--   input.c              `Input` (unicode_to_utf8, sync_grid_from_vterm, pane_input), with the proofs
--                        in `Input.Sync` and `Input.Utf8`.
--   client.c, client.h,  the client: `Client` (its state, messages, the layout of panes, act_resize,
--   keyboard.c           act_pane_split, act_detach), `Client.Keys` (keyboard.c), `Client.Machine`
--                        (dispatch_event, its table, act_stdin_read) and `Client.Loop` (an iteration
--                        of client_loop). `Client.Tiling`, `Client.Layout`, `Client.Events`,
--                        `Client.Focus`, `Client.Depth` and `Client.Protocol` hold the proofs.
--   util.c               `Util` (checkshell, getshell, client_check_nested), proofs in `Util.Shell`;
--                        `Util.Descriptors` (send_fd, recv_fd), over a stream in its child `Stream`.
--   render.c, input.c    what is drawn: `Render` (render_pane, render_pane_borders), `Render.Status`
--                        (render_status_bar) and `Input.Replay` (sync_vterm_from_grid), as lists of
--                        writes; `Render.Whole` has render_screen. `Render.Screen` says what a
--                        terminal shows of such a list, `Render.Pane` proves what it shows of a pane.
--   client.c             when they are drawn: `Client.Draw` (client_main, act_resize, act_pane_split,
--                        client_loop); `Parts` and `First` prove what the first drawing shows,
--                        `Cursor` and `Iteration` what an iteration of the loop leaves.
--   client.c             client_main: `Client.Attach` (with a session id; the proofs in its children
--                        `Arrival`, what reads the server's writes become, `Image`, `Restore`,
--                        `Panes`, `Reattach`, `Taller`, `Exited`, `Detach` and `Kept`, how the grids
--                        come to the server, `Same` and `Again`, from a client that detaches to
--                        the next, and `Redrawn` with its children, up to what that draws) and `Client.Main` (the other requests; the
--                        proofs in `Answer` and `Session`). `Client.Connect` has
--                        client_connect, client_init and signal_handler. `Client.Leaving` proves how
--                        the loop ends.
--   list.h               `Links` (the operations on a heap of nodes), with the proofs in
--                        `Links.Chain`, `Links.Ring` and `Links.Deletion`.
--   i18n.c, main.c       `Messages` (the tables, i18n_init, `_`, what printf makes of a format),
--                        `Messages.Replies` (the texts of the server), `CommandLine` (the options
--                        and the help) and `CommandLine.Place` (the directory of the socket).
-- A client sends messages to the server over a socket; on detaching it saves its grids there as the
-- bytes of grid_serialize, and gets them back on attaching.
--
-- Conventions. A C array is a list, a NULL pointer is `none`, and an access outside an array or
-- buffer is `none` or `faults`. An `int` is an integer of `Base`, a session id with the wrap-around of 32 bits, and an
-- `unsigned int` is a number whose sums and products wrap at 2^32. The list of sessions is a list,
-- and a pointer to a session its place in it. System calls that others see are the effects of a
-- trace; what the kernel answers is an argument (`Kernel`, `Input`, the reads of a socket), and so
-- are the texts that snprintf makes and what libvterm makes of its input (`Vterm`,
-- `Input.Parsed`). Allocations succeed, and a write takes all its bytes. Loops run over lists,
-- slots and pending reads; only the nesting of dispatch_event is bounded, by 2, and `Client.Depth`
-- shows that a third level is never reached. The loop over the nodes of a list runs on fuel, and any number above
-- the length is enough (`Links.Deletion`).
--
-- Not modelled: libvterm (vendor/vterm, another project's library), the terminal's raw mode, and what
-- the kernel does itself: `select`, `waitpid`, locks and sockets appear as their answers, and a
-- table of descriptors only where a property needs it (`Spawn`, `Server.Start`).
pub mod Base
pub mod Grid
pub mod Server
pub mod Window
pub mod Input
pub mod Client
pub mod Util
pub mod Render
pub mod Links
pub mod Messages
pub mod CommandLine
pub mod Spawn
pub mod Log
