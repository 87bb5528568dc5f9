-- ===== src/Client/Attach/Kept.antt =====
-- `act_detach` of client.c against `server_receive` with MSG_GRID_SAVE: what the next client that
-- attaches will find.
use mini_tmux.Base.{
  ℕ, suc, ◌≤◌, ◌<◌, ◌≡◌, refl, List, [], ◌∷◌, ◌++◌, none, some, arith, length, All, ap, ap₂, sym,
  u32, ℤ, pos, map, modify, get_elem?, true, subst, ◌∙◌, ◌==ℤ◌,
}
use mini_tmux.Grid.{Cell}
use mini_tmux.Grid.History.{IsValid}
use mini_tmux.Grid.Serial.{Header, serialize}
use mini_tmux.Grid.Serial.RoundTrip.{IsHeader}
use mini_tmux.Grid.Serial.Restore.{deserialize-serialize}
use mini_tmux.Render.Screen.{HasText}
use mini_tmux.Window.{Pane}
use mini_tmux.Server.Session.{
  Session, Server, max_panes, find_session_by_client_fd, find_session_by_id,
}
use mini_tmux.Server.Invariant.{IsSession}
use mini_tmux.Server.Parked.{get_elem?-modify}
use mini_tmux.Server.Wire.{grid_save, detach}
use mini_tmux.Server.Receive.{returns}
use mini_tmux.Client.{
  Client, Answers, Effect, act, wrote, restored_mode, message, grid_messages, act_detach,
}
use mini_tmux.Client.Attach.Image.{Source, Saved, length-Saved}
use mini_tmux.Client.Attach.Restore.{SavedAll}
use mini_tmux.Client.Attach.Detach.{
  Buffers, no_buffers, buffer, receive_saves, stored_all, receive_saves-Buffers,
  stored_all-SavedAll, with_buffers, find_index-modify, length-stored_all,
}

abbrev pub header_of_pane : Pane → Header
header_of_pane p = record { pane_id = p.id; cx = p.cx; cy = p.cy }

-- Panes with the ids from `i` on, whose grids are valid and have cells with texts.
pub data Savable : ℕ → List Pane → List Source → Type 0 where
  no_panes : {i : ℕ} → Savable i [] []
  pane_with :
      {i : ℕ} {p : Pane} {ps : List Pane} {ring : List Cell} {ss : List Source}
      → IsValid p.grid ring
      → IsHeader (header_of_pane p)
      → p.grid.width < u32
      → All HasText p.grid.cells
      → p.id ≡ i
      → Savable (suc i) ps ss
      → Savable i (p ∷ ps) (record { grid = p.grid; ring = ring; header = header_of_pane p } ∷ ss)

abbrev pub saves : Answers → ℤ → List (List ℕ) → List Effect
saves k fd bufs = map (λ buf. wrote fd (message k grid_save buf)) bufs

-- the bytes of the grids of the panes
unfoldable pub saved_buffers : Answers → List Pane → List (List ℕ)
saved_buffers k [] = []
saved_buffers k (p ∷ ps) =
    elim (serialize k.junk p.grid (header_of_pane p)) [ none ↦ [] | some buf ↦ buf ]
    ∷ saved_buffers k ps

record Serialized (k : Answers) (fd : ℤ) (i : ℕ) (ps : List Pane) (ss : List Source) : Type 0 where
  bufs : List (List ℕ)
  sent : grid_messages k fd ps ≡ some (saves k fd bufs)
  buffers : Buffers i bufs ss
  counted : length bufs ≡ length ps
  named : bufs ≡ saved_buffers k ps

buffer-Saved :
    {i : ℕ} {s : Source} {bufs : List (List ℕ)} {ss : List Source} (buf : List ℕ)
    → Saved i s buf
    → Buffers (suc i) bufs ss
    → Buffers i (buf ∷ bufs) (s ∷ ss)
buffer-Saved [] v vs = absurd (omega (arith, length-Saved v))
buffer-Saved (b ∷ bs) v vs = buffer v vs

grid_messages-cons :
    (k : Answers) (fd : ℤ) (p : Pane) (ps : List Pane) (buf : List ℕ) (rest : List Effect)
    → serialize k.junk p.grid (header_of_pane p) ≡ some buf
    → grid_messages k fd ps ≡ some rest
    → grid_messages k fd (p ∷ ps) ≡ some (wrote fd (message k grid_save buf) ∷ rest)
unfolding grid_messages
grid_messages-cons k fd p ps buf rest e e' = rw (e, e', grid_messages) refl

grid_messages-Serialized :
    (k : Answers) (fd : ℤ) {i : ℕ} {ps : List Pane} {ss : List Source}
    → Savable i ps ss
    → Serialized k fd i ps ss
unfolding grid_messages saved_buffers
grid_messages-Serialized k fd no_panes = record {
  bufs = [];
  sent = refl;
  buffers = no_buffers;
  counted = refl;
  named = refl;
}
grid_messages-Serialized k fd (pane_with {p} {ps} valid small wide texts named rest) =
    let q = grid_messages-Serialized k fd rest in
    let (buf, e, _) = deserialize-serialize valid (header_of_pane p) k.junk p.grid small wide in
    record {
      bufs = buf ∷ q.bufs;
      sent = grid_messages-cons k fd p ps buf (saves k fd q.bufs) e q.sent;
      buffers =
          buffer-Saved buf
            (record {
              valid = valid;
              small = small;
              wide = wide;
              texts = texts;
              named = named;
              junk = k.junk;
              image = e;
            })
            q.buffers;
      counted = ap suc q.counted;
      named =
          ap₂ (λ b bs. b ∷ bs)
            (sym (ap (λ o. elim o as (λ _. List ℕ) [ none ↦ [] | some x ↦ x ]) e)) q.named;
    }

-- What the client sent, and the session at `j` of the server that received it: it has the same
-- shells as `s`, and grids for all panes. Both searches find the same sessions as before.
pub record Kept (k : Answers) (c : Client) (fd : ℤ) (j : ℕ) (s : Session) (sv : Server)
    (ss : List Source) : Type 0 where
  pub bufs : List (List ℕ)
  pub sent :
      act_detach k c
      ≡ some (
          act
            (record c { child_exited = true })
            (saves k c.server_fd bufs
              ++ (wrote c.server_fd (message k detach []) ∷ restored_mode ∷ [])))
  pub server : Server
  pub received : receive_saves fd bufs sv ≡ returns (pos 1) server
  pub session : Session
  pub found : get_elem? server.sessions j ≡ some session
  pub stored : session ≡ with_buffers 0 (saved_buffers k c.panes) s
  pub grids : SavedAll 0 (length c.panes) session.grid_data ss
  pub shape : IsSession session
  pub same_client : find_session_by_client_fd server.sessions fd ≡ some j
  pub same_ids :
      (id : ℤ) → find_session_by_id server.sessions id ≡ find_session_by_id sv.sessions id
  pub same_shells : (session.master_fds ≡ s.master_fds) × (session.pane_count ≡ s.pane_count)

-- A client of at most 64 panes, with the ids from 0 on and valid grids, that detaches sends all its
-- grids, and a well-formed session of its connection keeps each in the slot of its pane, the shells
-- unchanged.
pub act_detach-Kept :
    (k : Answers) (c : Client) (fd : ℤ) (j : ℕ) (s : Session) (sv : Server) {ss : List Source}
    → Savable 0 c.panes ss
    → length c.panes ≤ max_panes
    → find_session_by_client_fd sv.sessions fd ≡ some j
    → get_elem? sv.sessions j ≡ some s
    → IsSession s
    → Kept k c fd j s sv ss
unfolding act_detach find_session_by_client_fd find_session_by_id
act_detach-Kept k c fd j s sv {ss} savable few found at valid =
    let q = grid_messages-Serialized k c.server_fd savable in
    let grids =
      stored_all-SavedAll s.grid_data q.buffers (omega (arith, few, q.counted, valid.grids)) in
    record {
      bufs = q.bufs;
      sent = rw (q.sent, act_detach) refl;
      server = record sv { sessions = modify sv.sessions j (with_buffers 0 q.bufs) };
      received = receive_saves-Buffers fd j sv q.buffers (omega (arith, few, q.counted)) found;
      session = with_buffers 0 q.bufs s;
      found = get_elem?-modify sv.sessions j (with_buffers 0 q.bufs) s at;
      grids = subst (λ n. SavedAll 0 n (stored_all 0 q.bufs s.grid_data) ss) q.counted grids;
      stored = ap (λ bs. with_buffers 0 bs s) q.named;
      shape = record {
        masters = valid.masters;
        pids = valid.pids;
        grids = length-stored_all 0 q.bufs s.grid_data ∙ valid.grids;
        panes = valid.panes;
      };
      same_client =
          find_index-modify (λ x. x.client_fd ==ℤ fd) sv.sessions j (with_buffers 0 q.bufs)
            (λ x. refl)
          ∙ found;
      same_ids = λ id.
          find_index-modify (λ x. x.id ==ℤ id) sv.sessions j (with_buffers 0 q.bufs) (λ x. refl);
      same_shells = (refl, refl);
    }
