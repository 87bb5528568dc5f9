-- ===== src/Client/Attach/Tests.antt =====
-- A session with one saved pane, and a client that attaches to it; the theorems about attaching at
-- them.
use mini_tmux.Base.{
  find_index, ℕ, refl, List, [], ◌∷◌, ◌++◌, none, some, arith, length, pos, set, replicate, le32,
  slice, false, true, ◌==ℤ◌, if◌then◌else◌,
}
use mini_tmux.Grid.Serial.{
  header_bytes, encode_cells, encode_cell, serialize, history_bytes, unroll, read_block,
}
use mini_tmux.Grid.Tests.{letter, ring, grid, grid-IsValid}
use mini_tmux.Render.Tests.{pane, grid-HasText, ring-HasText}
use mini_tmux.Render.Status.{BarTexts, display_width}
use mini_tmux.Client.Attach.Redrawn.{displayed, Fits}
use mini_tmux.Client.Attach.Redrawn.Screen.{Redrawn}
use mini_tmux.Client.Attach.Redrawn.Roundtrip.{detach_attach-Redrawn}
use mini_tmux.Client.Attach.Kept.{Savable, pane_with, no_panes}
use mini_tmux.Server.Session.{Session, max_panes, find_session_by_client_fd}
use mini_tmux.Server.Invariant.{IsSession}
use mini_tmux.Server.Receive.Dispatch.{
  send_masters, has_grid, grid_count, send_grid, send_grids, attach_effects,
}
use mini_tmux.Server.Tests.{attached_session, server, server-IsValid, kernel, texts}
use mini_tmux.Util.Descriptors.Stream.{Transport}
use mini_tmux.Client.Attach.Again.{Restored, detach_attach-Restored, parked}
use mini_tmux.Client.Attach.Kept.{saved_buffers}
use mini_tmux.Client.Attach.Detach.{stored_all}
use mini_tmux.Server.Wire.{Read, got, header_image}
use mini_tmux.Window.{Color, ScreenCell}
use mini_tmux.Input.{Parsed}
use mini_tmux.Client.{Client}
use mini_tmux.Client.Tests.{client, answers}
use mini_tmux.Client.Attach.{client_attach, attach_width}
use mini_tmux.Client.Attach.Arrival.{piece, done, Arrives, nothing, descriptor, whole, pieces}
use mini_tmux.Client.Attach.Image.{Source, Saved}
use mini_tmux.Client.Attach.Restore.{SavedAll, saved, all_saved, loaded_panes}
use mini_tmux.Client.Attach.Reattach.{Rebuilt, attach_height, client_attach-Rebuilt}

abbrev source : Source
source = record { grid = grid; ring = ring; header = record { pane_id = 0; cx = 0; cy = 1 } }

-- the bytes behind the first
abbrev image_rest : List ℕ
image_rest =
    0
    ∷ 0
    ∷ 0
    ∷ 0
    ∷ 0
    ∷ 0
    ∷ 0
    ∷ 1
    ∷ 0
    ∷ 0
    ∷ 0
    ∷ 1
    ∷ 0
    ∷ 0
    ∷ 0
    ∷ 2
    ∷ 0
    ∷ 0
    ∷ 0
    ∷ 2
    ∷ 0
    ∷ 0
    ∷ 0
    ∷ 3
    ∷ 0
    ∷ 0
    ∷ 0
    ∷ 1
    ∷ 0
    ∷ 0
    ∷ 0
    ∷ (encode_cells grid.cells ++ encode_cells (letter b'b' ∷ letter b'c' ∷ []))

source-Saved : Saved 0 source (0 ∷ image_rest)
unfolding serialize history_bytes unroll read_block header_bytes slice
source-Saved = record {
  valid = grid-IsValid;
  small = record { pane_id_small = omega arith; cx_small = omega arith; cy_small = omega arith };
  wide = omega arith;
  texts = grid-HasText;
  named = refl;
  junk = 0;
  image = refl;
}

abbrev session : Session
session = record attached_session {
  grid_data = set (replicate max_panes none) 0 (some (0 ∷ image_rest));
}

session-IsSession : IsSession session
session-IsSession = record { masters = refl; pids = refl; grids = refl; panes = omega arith }

session-SavedAll : SavedAll 0 session.pane_count session.grid_data (source ∷ [])
session-SavedAll = saved source-Saved all_saved

abbrev fresh_client : Client
fresh_client = record client { panes = []; next_pane_id = 0; recv_fds = pos 8 ∷ [] }

-- the reads, the data of the grid in two pieces
abbrev reads : List Read
reads =
    got (le32 1)
    ∷ got (le32 1)
    ∷ got (header_image (0 ∷ 0 ∷ 0 ∷ 0 ∷ []) (record { type = 308; len = length (0 ∷ image_rest) }))
    ∷ got (0 ∷ [])
    ∷ got image_rest
    ∷ []

answer-Arrives :
    Arrives (attach_effects (pos 5) (0 ∷ 0 ∷ 0 ∷ 0 ∷ []) session) fresh_client.recv_fds reads
unfolding attach_effects send_masters send_grids send_grid grid_count has_grid header_image
    encode_cells encode_cell
answer-Arrives = whole (omega arith) (
    descriptor (pos 8) refl (
      whole (omega arith) (
        whole (omega arith) (
          pieces {ps = got (0 ∷ []) ∷ got image_rest ∷ []} (omega arith) (piece (piece done))
            nothing))))

client_attach-Rebuilt_example :
    Rebuilt
      (loaded_panes (attach_width 5 1) (attach_height fresh_client) 0 0 (pos 8 ∷ []) (source ∷ []))
      (client_attach answers 0 reads fresh_client)
client_attach-Rebuilt_example =
    client_attach-Rebuilt answers 0 0 0 0 0 (pos 5) session fresh_client session-IsSession
      (omega arith) session-SavedAll refl refl answer-Arrives

abbrev black : Color
black = record {
  indexed = false;
  default_fg = true;
  default_bg = true;
  red = 0;
  green = 0;
  blue = 0;
}

abbrev blank : ScreenCell
blank = record {
  char0 = 0;
  width = 1;
  fg = black;
  bg = black;
  bold = false;
  underline = false;
  italic = false;
  reverse = false;
}

abbrev output : Parsed
output = record {
  scrolled_off = [];
  response = [];
  screen = λ y x. blank;
  cursor_col = 0;
  cursor_row = 0;
}

-- a client with that pane, and the server with its session
abbrev detaching_client : Client
detaching_client = record client { panes = record pane { id = 0 } ∷ [] }

detaching_client-Savable : Savable 0 detaching_client.panes (source ∷ [])
detaching_client-Savable =
    pane_with grid-IsValid
      (record { pane_id_small = omega arith; cx_small = omega arith; cy_small = omega arith })
      (omega arith) grid-HasText refl no_panes

-- the master 7 is open, the master -1 is not
abbrev transport : Transport
transport = record {
  file_of = λ fd. if fd ==ℤ pos 7 then some 3 else none;
  install = λ file. pos 9;
}

-- a window of one column and three rows
abbrev small_client : Client
small_client = record fresh_client {
  ws = record { ws_row = 3; ws_col = 1; ws_xpixel = 0; ws_ypixel = 0 };
}

abbrev bar_texts : BarTexts
bar_texts = record { window_name = b'w' ∷ []; history_mark = b'h' ∷ []; version = b'v' ∷ [] }

source-Fits : Fits (attach_width 1 1) (attach_height small_client) source
unfolding attach_width
source-Fits = record {
  valid = grid-IsValid;
  width_same = refl;
  height_same = refl;
  screen_texts = grid-HasText;
  ring_texts = ring-HasText;
}

-- What the second client is sent: the same as before.
parked-Arrives :
    Arrives
      (attach_effects
        (pos 6)
        (0 ∷ 0 ∷ 0 ∷ 0 ∷ [])
        (parked answers detaching_client attached_session))
      fresh_client.recv_fds
      reads
unfolding attach_effects send_masters send_grids send_grid grid_count has_grid header_image
    encode_cells encode_cell saved_buffers stored_all serialize history_bytes unroll read_block
    header_bytes slice
parked-Arrives = whole (omega arith) (
    descriptor (pos 8) refl (
      whole (omega arith) (
        whole (omega arith) (
          pieces {ps = got (0 ∷ []) ∷ got image_rest ∷ []} (omega arith) (piece (piece done))
            nothing))))

detach_attach-Restored_example :
    Restored answers kernel texts detaching_client fresh_client
      (pos 5)
      (pos 6)
      (0 ∷ 0 ∷ 0 ∷ 0 ∷ [])
      0
      attached_session
      server
      reads
unfolding find_session_by_client_fd find_index
detach_attach-Restored_example =
    detach_attach-Restored answers kernel texts detaching_client fresh_client (pos 5) (pos 6) 0 0 0
      0 0 0 attached_session server detaching_client-Savable (omega arith) refl server-IsValid refl
      refl refl (omega arith) refl refl parked-Arrives

detach_attach-Redrawn_example :
    Restored answers kernel texts detaching_client small_client
      (pos 5)
      (pos 6)
      (0 ∷ 0 ∷ 0 ∷ 0 ∷ [])
      0
      attached_session
      server
      reads
    × Redrawn bar_texts (displayed grid ∷ []) (client_attach answers 0 reads small_client)
unfolding find_session_by_client_fd find_index display_width
detach_attach-Redrawn_example =
    detach_attach-Redrawn answers kernel texts bar_texts detaching_client small_client (pos 5)
      (pos 6) 0 0 0 0 0 0 1 1 attached_session server detaching_client-Savable (source-Fits, tt)
      (omega arith) refl server-IsValid refl refl refl (omega arith) refl refl refl refl
      parked-Arrives
