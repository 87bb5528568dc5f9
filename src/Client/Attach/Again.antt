-- ===== src/Client/Attach/Again.antt =====
-- A client that detaches and a client that attaches after it: `act_detach` and `client_main` of
-- client.c, and between them `server_receive` and `server_loop` of server.c.
use mini_tmux.Base.{
  ℕ, ◌<◌, ◌^◌, ◌≡◌, refl, List, [], ◌∷◌, ◌++◌, some, arith, length, le32, ap, ◌∙◌, sym, subst,
  get_elem?, ℤ, pos, true, modify, ◌==ℤ◌,
}
use mini_tmux.Window.{Pane}
use mini_tmux.Server.Session.{
  Session, Server, update_session, find_session_by_client_fd, find_session_by_id,
}
use mini_tmux.Server.Wire.{Read, detach}
use mini_tmux.Server.Invariant
use mini_tmux.Server.Invariant.{IsSession, All-at}
use mini_tmux.Server.Receive.{Kernel, Texts, returns}
use mini_tmux.Server.Receive.Dispatch.{receive_detach, receive_message, attach_effects}
use mini_tmux.Server.Loop.{sweep_detached}
use mini_tmux.Server.Parked.{
  marked, without_client, receive_detach_lem, get_elem?-sweep_sessions,
  find_session_by_id-sweep_sessions, find_session_by_id-IdsFrom, get_elem?-modify, Given,
  receive_message-Given,
}
use mini_tmux.Client.{Client, Answers, act, wrote, restored_mode, message, act_detach}
use mini_tmux.Client.Main.Session.{next_message}
use mini_tmux.Client.Attach.{Attach, attached, client_attach}
use mini_tmux.Client.Attach.Arrival.{Arrives}
use mini_tmux.Client.Attach.Image.{Source}
use mini_tmux.Client.Attach.Restore.{SavedAll}
use mini_tmux.Client.Attach.Reattach.{Rebuilt, client_attach-Rebuilt}
use mini_tmux.Client.Attach.Kept.{Savable, act_detach-Kept, saves, saved_buffers, Kept}
use mini_tmux.Client.Attach.Detach.{receive_saves, find_index-modify, with_buffers}
use mini_tmux.Client.Attach.Same.{SamePanes, loaded_panes-SamePanes, descriptors_lem}

-- The block that attaches is done, and nothing is drawn yet: the client has the same panes, the first
-- active, and nothing is left to read.
pub record BackIn (ps : List Pane) (r : Attach) : Type 0 where
  pub client : Client
  pub runs : r ≡ attached client []
  pub active : client.pane ≡ 0
  pub same : SamePanes ps client.panes

Rebuilt-BackIn : {ps qs : List Pane} {r : Attach} → Rebuilt qs r → SamePanes ps qs → BackIn ps r
Rebuilt-BackIn {ps} q same = record {
  client = q.client;
  runs = q.runs ∙ ap (attached q.client) q.all_read;
  active = q.active;
  same = subst (SamePanes ps) (sym q.panes) same;
}

-- The session `s` after the client `c` detached from it.
abbrev pub parked : Answers → Client → Session → Session
parked k c s = without_client (marked (with_buffers 0 (saved_buffers k c.panes) s))

-- What becomes of the first client `c` and the second client `cl`: `bufs` are the grids that the
-- first sends before MSG_DETACH, `kept` is the server that received them, `given` the server that
-- answered the second, and `reads` what the second one reads.
pub record Restored (k : Answers) (kn : Kernel) (t : Texts) (c cl : Client) (fd fd' : ℤ)
    (padding : List ℕ) (id : ℕ) (s : Session) (sv : Server) (reads : List Read) : Type 0 where
  pub bufs : List (List ℕ)
  pub sends :
      act_detach k c
      ≡ some (
          act
            (record c { child_exited = true })
            (saves k c.server_fd bufs
              ++ (wrote c.server_fd (message k detach []) ∷ restored_mode ∷ [])))
  pub kept : Server
  pub received : next_message (receive_saves fd bufs sv) (receive_detach fd) ≡ returns (pos 1) kept
  pub given : Server
  pub answers :
      receive_message kn t fd' padding detach (le32 id) (sweep_detached kept)
      ≡ returns (pos 1) given
  pub sent : given.trace ≡ (sweep_detached kept).trace ++ attach_effects fd' padding (parked k c s)
  pub back : BackIn c.panes (client_attach k id reads cl)

-- the server's side: the session is marked, loses its client, and is found by its id
swept-Given :
    (kn : Kernel) (t : Texts) (fd fd' : ℤ) (padding : List ℕ) (id j : ℕ) (s : Session) (sv : Server)
    → id < 2 ^ 31
    → find_session_by_id sv.sessions (pos id) ≡ some j
    → get_elem? sv.sessions j ≡ some s
    → Given fd' padding j
        (without_client (marked s))
        (sweep_detached (update_session sv j marked)).trace
        (receive_message kn t fd' padding detach
          (le32 id)
          (sweep_detached (update_session sv j marked)))
unfolding sweep_detached find_session_by_id
swept-Given kn t fd fd' padding id j s sv small found at =
    let ss = modify sv.sessions j marked in
    receive_message-Given kn t fd' padding id j (sweep_detached (update_session sv j marked))
      (without_client (marked s)) small
      (find_session_by_id-sweep_sessions ss sv.client_fds (pos id)
        ∙ (find_index-modify (λ x. x.id ==ℤ pos id) sv.sessions j marked (λ x. refl) ∙ found))
      (get_elem?-sweep_sessions ss sv.client_fds j (marked s)
        (get_elem?-modify sv.sessions j marked s at) refl)
      refl

-- what is known of the session without a client
pub record Parked (k : Answers) (c : Client) (s : Session) (ss : List Source) : Type 0 where
  pub shape : IsSession (parked k c s)
  pub grids : SavedAll 0 (parked k c s).pane_count (parked k c s).grid_data ss

pub act_detach-Parked :
    {k : Answers} {c : Client} {fd : ℤ} {j : ℕ} {s : Session} {sv : Server} {ss : List Source}
    → Kept k c fd j s sv ss
    → length c.panes ≡ s.pane_count
    → Parked k c s ss
act_detach-Parked {k} {c} {s} {ss} kept counted =
    let shape = subst IsSession kept.stored kept.shape in
    record {
      shape = record {
        masters = shape.masters;
        pids = shape.pids;
        grids = shape.grids;
        panes = shape.panes;
      };
      grids =
          subst (λ n. SavedAll 0 n (parked k c s).grid_data ss) counted
            (subst (λ x. SavedAll 0 (length c.panes) x.grid_data ss) kept.stored kept.grids);
    }

-- A client detaches from its session, with at least one pane and at most 64, as many as the session
-- has, their ids ascending from 0, their grids valid and their cells with texts. The server, whose
-- state is valid, receives what it sends and closes its connection. Then a fresh client asks for the
-- session by its id, below 2^31, over any connection and in a window of any size. When it has read the
-- grids, and before it first draws, it has the same panes: each has the id and the cursor that it had,
-- and its grid displays in each of its rows the cells that it displayed, however the data of the
-- grids is split into reads.
pub detach_attach-Restored :
    (k : Answers) (kn : Kernel) (t : Texts) (c cl : Client) (fd fd' : ℤ) (p q r u id j : ℕ)
    (s : Session) (sv : Server) {ss : List Source} {reads : List Read} {b : ℕ}
    → Savable 0 c.panes ss
    → 0 < s.pane_count
    → length c.panes ≡ s.pane_count
    → Invariant.IsValid b sv
    → find_session_by_client_fd sv.sessions fd ≡ some j
    → get_elem? sv.sessions j ≡ some s
    → s.id ≡ pos id
    → id < 2 ^ 31
    → cl.panes ≡ []
    → cl.next_pane_id ≡ 0
    → Arrives (attach_effects fd' (p ∷ q ∷ r ∷ u ∷ []) (parked k c s)) cl.recv_fds reads
    → Restored k kn t c cl fd fd' (p ∷ q ∷ r ∷ u ∷ []) id s sv reads
unfolding next_message
detach_attach-Restored k kn t c cl fd fd' p q r u id j s sv savable some_panes counted valid found
      at named small empty first arrives =
    let shape = All-at j sv.sessions s at valid.all_sessions in
    let kept =
      act_detach-Kept k c fd j s sv savable (omega (arith, counted, shape.panes)) found at shape in
    let given =
      swept-Given kn t fd fd' (p ∷ q ∷ r ∷ u ∷ []) id j kept.session kept.server small
        (kept.same_ids (pos id)
          ∙ (ap (find_session_by_id sv.sessions) (sym named)
              ∙ find_session_by_id-IdsFrom _ 0 j sv.sessions s valid.ids at))
        kept.found in
    let state = act_detach-Parked kept counted in
    record {
      bufs = kept.bufs;
      sends = kept.sent;
      kept = update_session kept.server j marked;
      received =
          ap (λ m. next_message m (receive_detach fd)) kept.received
          ∙ receive_detach_lem fd j kept.server kept.same_client;
      given = given.server;
      answers = given.returned;
      sent =
          given.sent
          ∙ ap
              (λ x.
                (sweep_detached (update_session kept.server j marked)).trace
                ++ attach_effects fd' (p ∷ q ∷ r ∷ u ∷ []) (without_client (marked x)))
              kept.stored;
      back =
          Rebuilt-BackIn
            (client_attach-Rebuilt k id p q r u fd' (parked k c s) cl state.shape
              (omega (arith, some_panes)) state.grids empty first arrives)
            (loaded_panes-SamePanes _ _ 0 cl.recv_fds savable (
              descriptors_lem fd' (p ∷ q ∷ r ∷ u ∷ []) (parked k c s) state.shape arrives
              ∙ sym counted));
    }
