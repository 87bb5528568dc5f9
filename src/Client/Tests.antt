-- ===== src/Client/Tests.antt =====
-- A client with one pane of five columns and one row; the theorems about the client at it.
use mini_tmux.Base.{
  ℕ, get_elem?, ◌<◌, ◌≤◌, ◌≡◌, ◌≢◌, refl, [], ◌∷◌, some, none, arith, replicate, true, false, pos,
}
use mini_tmux.Grid.{zero_cell}
use mini_tmux.Window.{Pane}
use mini_tmux.Server.Session.{Winsize}
use mini_tmux.Client.{Client, Answers, st_running, act_pane_split, act_resize, wrote, act}
use mini_tmux.Client.Machine.{dispatch, not_reached, ev_stdin_read, key_bytes}
use mini_tmux.Client.Loop.{Ready, ready, loop_step, continues, drop_pane}
use mini_tmux.Client.Tiling.{CanTake}
use mini_tmux.Client.Layout.{Split, act_pane_split-Split, Refitted, act_resize-Refitted}
use mini_tmux.Client.Events.{key_bytes-plain, loop_step_eof}
use mini_tmux.Client.Focus.{drop_pane-survivor}
use mathlib.Core.Option
use mini_tmux.Client.Depth.{dispatch_depth}

abbrev pub pane : Pane
pane = record {
  grid = record {
    cells = replicate 5 zero_cell;
    width = 5;
    height = 1;
    history_cells = some (replicate 5 zero_cell);
    history_size = 1;
    history_count = 0;
    scroll_offset = 0;
  };
  cx = 0;
  cy = 0;
  id = 0;
  master_fd = pos 5;
  sx = 5;
  sy = 1;
  xoff = 0;
  yoff = 0;
}

pane-CanTake : (w : ℕ) → w ≤ 5 → CanTake w pane
pane-CanTake w h = record {
  is_pane = record {
    screen_fits = refl;
    screen_small = omega arith;
    width_same = refl;
    height_same = refl;
  };
  has_room = record {
    ring = replicate 5 zero_cell;
    allocated = refl;
    size_pos = omega arith;
    room = omega arith;
    room_small = omega arith;
  };
}

abbrev window_size : Winsize
window_size = record { ws_row = 2; ws_col = 5; ws_xpixel = 0; ws_ypixel = 0 }

abbrev pub answers : Answers
answers = record {
  vterm = record { scrolled_off = λ p w h. [] };
  winsize = some window_size;
  stdin = [];
  pty = none;
  padding = 0 ∷ 0 ∷ 0 ∷ 0 ∷ [];
  junk = 0;
}

abbrev pub client : Client
client = record {
  state = st_running;
  server_fd = pos 3;
  master_fd = pos 5;
  ws = record { ws_row = 1; ws_col = 5; ws_xpixel = 0; ws_ypixel = 0 };
  child_exited = false;
  panes = pane ∷ [];
  pane = 0;
  next_pane_id = 1;
  ctrl_b_pressed = false;
  sigwinch_pending = false;
  sigchld_pending = false;
  keybinds = [];
  recv_fds = pos 6 ∷ [];
  trace = [];
}

act_pane_split-Split_example :
    (c' : Client) × (act_pane_split answers client ≡ some c') × Split (pos 6) 1 client c'
act_pane_split-Split_example =
    act_pane_split-Split answers client pane (pos 6) [] refl refl refl (omega arith) (omega arith)
      (omega arith, omega arith) (pane-CanTake 2 (omega arith), tt)

-- the window becomes narrower and lower
abbrev smaller_window : Winsize
smaller_window = record { ws_row = 3; ws_col = 3; ws_xpixel = 0; ws_ypixel = 0 }

abbrev told_smaller : Answers
told_smaller = record answers { winsize = some smaller_window }

act_resize-Refitted_example :
    (c' : Client) × (act_resize told_smaller client ≡ some c') × Refitted smaller_window client c'
act_resize-Refitted_example =
    act_resize-Refitted told_smaller client smaller_window refl (omega arith) (omega arith)
      (omega arith) (omega arith) (omega arith, omega arith) (pane-CanTake 3 (omega arith), tt)

not_prefix : (b : ℕ) → 2 < b → b ≢ 2
not_prefix b h e = absurd (omega arith)

key_bytes-plain_example :
    key_bytes (λ ev c. none) (b'l' ∷ b's' ∷ []) client
    ≡ some (act client (wrote (pos 5) (b'l' ∷ []) ∷ wrote (pos 5) (b's' ∷ []) ∷ []))
key_bytes-plain_example =
    key_bytes-plain (λ ev c. none) (b'l' ∷ b's' ∷ []) client pane refl refl refl
      (not_prefix b'l' (omega arith), (not_prefix b's' (omega arith), tt))

-- only the terminal is ready
abbrev pub terminal_ready : Ready
terminal_ready = record {
  selected = ready;
  server_closed = false;
  pty = λ fd. none;
  stdin_ready = true;
}

loop_step_eof_example : loop_step answers terminal_ready client ≡ continues client
loop_step_eof_example =
    loop_step_eof answers terminal_ready client refl refl refl refl refl refl (λ fd. refl) refl refl

-- two panes, the first of them active, and its shell ends
abbrev two_panes : Client
two_panes = record client { panes = pane ∷ record pane { id = 1 } ∷ [] }

drop_pane-survivor_example :
    Option.map (λ c'. get_elem? c'.panes c'.pane) (drop_pane 0 pane two_panes)
    ≡ some (some (record pane { id = 1 }))
drop_pane-survivor_example = drop_pane-survivor 0 pane two_panes (omega arith) (omega arith)

dispatch_depth_example :
    dispatch (λ ev c. some c) 5 answers ev_stdin_read client
    ≡ dispatch not_reached 2 answers ev_stdin_read client
dispatch_depth_example = dispatch_depth (λ ev c. some c) not_reached 3 answers ev_stdin_read client
