-- ===== src/Client/Attach/Redrawn/Roundtrip.antt =====
-- From the screen of a client that detaches to the screen of the next client that attaches: `act_detach`
-- and `client_main` of client.c, `server_receive` and `server_loop` of server.c, `render_pane` of
-- render.c.
use mini_tmux.Base.{
  ℕ, ◌<◌, ◌^◌, ◌≡◌, refl, List, [], ◌∷◌, some, arith, length, map, All, ap, subst, ℤ, pos,
  get_elem?,
}
use mini_tmux.Window.{Pane}
use mini_tmux.Render.Status.{BarTexts, display_width}
use mini_tmux.Server.Session.{Session, Server, find_session_by_client_fd}
use mini_tmux.Server.Wire.{Read}
use mini_tmux.Server.Invariant
use mini_tmux.Server.Invariant.{All-at}
use mini_tmux.Server.Receive.{Kernel, Texts}
use mini_tmux.Server.Receive.Dispatch.{attach_effects}
use mini_tmux.Client.{Client, Answers}
use mini_tmux.Client.Attach.{client_attach, attach_width}
use mini_tmux.Client.Attach.Arrival.{Arrives}
use mini_tmux.Client.Attach.Again.{Restored, detach_attach-Restored, parked, act_detach-Parked}
use mini_tmux.Client.Attach.Image.{Source}
use mini_tmux.Client.Attach.Kept.{Savable, no_panes, pane_with, act_detach-Kept}
use mini_tmux.Client.Attach.Reattach.{attach_height}
use mini_tmux.Client.Attach.Redrawn.{displayed, Fits}
use mini_tmux.Client.Attach.Redrawn.Screen.{Redrawn, client_attach-Redrawn}

-- the saved grids are those of the panes
displayed-Savable :
    {i : ℕ} {ps : List Pane} {ss : List Source}
    → Savable i ps ss
    → map (λ s. displayed s.grid) ss ≡ map (λ p. displayed p.grid) ps
displayed-Savable no_panes = refl
displayed-Savable (pane_with {p} valid small wide texts named rest) =
    ap (λ ls. displayed p.grid ∷ ls) (displayed-Savable rest)

-- A client detaches from its session, with at least one pane and at most 64, as many as the session
-- has, their ids ascending from 0, their grids valid and their cells with texts. The server, whose
-- state is valid, receives what it sends and closes its connection. Then a fresh client asks for the
-- session by its id, below 2^31, over any connection, in a window in which its panes have the sizes of
-- those grids; the texts of its status bar end with whole characters. It attaches, and what it
-- first draws shows on the cleared terminal, in every row of every pane, the cells that the detached
-- client displayed there, each with its own attributes.
pub detach_attach-Redrawn :
    (k : Answers) (kn : Kernel) (t : Texts) (bt : BarTexts) (c cl : Client) (fd fd' : ℤ)
    (p q r u id j wn hn : ℕ) (s : Session) (sv : Server) {ss : List Source} {reads : List Read}
    {b : ℕ}
    → Savable 0 c.panes ss
    → All (Fits (attach_width cl.ws.ws_col s.pane_count) (attach_height cl)) ss
    → 0 < s.pane_count
    → length c.panes ≡ s.pane_count
    → Invariant.IsValid b sv
    → find_session_by_client_fd sv.sessions fd ≡ some j
    → get_elem? sv.sessions j ≡ some s
    → s.id ≡ pos id
    → id < 2 ^ 31
    → cl.panes ≡ []
    → cl.next_pane_id ≡ 0
    → display_width 0 bt.window_name ≡ some wn
    → display_width 0 bt.history_mark ≡ some hn
    → Arrives (attach_effects fd' (p ∷ q ∷ r ∷ u ∷ []) (parked k c s)) cl.recv_fds reads
    → Restored k kn t c cl fd fd' (p ∷ q ∷ r ∷ u ∷ []) id s sv reads
      × Redrawn bt (map (λ x. displayed x.grid) c.panes) (client_attach k id reads cl)
detach_attach-Redrawn k kn t bt c cl fd fd' p q r u id j wn hn s sv {ss} {reads} savable fits
      some_panes counted valid found at named small empty first name history arrives =
    let shape = All-at j sv.sessions s at valid.all_sessions in
    let state =
      act_detach-Parked
        (act_detach-Kept k c fd j s sv savable (omega (arith, counted, shape.panes)) found at shape)
        counted in
    (
      detach_attach-Restored k kn t c cl fd fd' p q r u id j s sv savable some_panes counted valid
          found at named small empty first arrives,
      subst (λ ls. Redrawn bt ls (client_attach k id reads cl)) (displayed-Savable savable)
          (client_attach-Redrawn k bt id p q r u wn hn fd' (parked k c s) cl state.shape
            (omega (arith, some_panes)) state.grids fits empty first name history arrives),
    )
