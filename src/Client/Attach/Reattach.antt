-- ===== src/Client/Attach/Reattach.antt =====
-- `client_main` with a session id against `server_receive` with MSG_DETACH.
use mini_tmux.Base.{
  ℕ, zero, suc, ◌+◌, ◌-◌, ◌≤◌, ◌<◌, ◌^◌, ◌≡◌, refl, List, [], ◌∷◌, ◌++◌, Option, some, arith,
  length, ap, ◌∙◌, sym, ℤ, pos, negsuc, ◌==ℤ◌, minus_one, append-nil, le32, false, ne→==_false,
  ◌==◌, subst,
}
use mini_tmux.Server.Session
use mini_tmux.Server.Session.{Session}
use mini_tmux.Server.Invariant.{IsSession}
use mini_tmux.Server.Wire.{Read, got, detach}
use mini_tmux.Server.Receive.Dispatch.{send_masters, grid_count, send_grids, attach_effects}
use mini_tmux.Window.{Pane}
use mini_tmux.Client.{Client, Answers, recv_fd, act, wrote, message, u16}
use mini_tmux.Client.Attach.{
  attach_panes, receive_grids, read_some, rounds, client_attach, Attach, attached, attach_width,
  attach_grids,
}
use mini_tmux.Client.Attach.Arrival.{Arrives, descriptor, whole, pieces, rounds-le32}
use mini_tmux.Client.Attach.Image.{Source}
use mini_tmux.Client.Attach.Restore.{SavedAll, fresh_panes, loaded_panes, grid_count-SavedAll}
use mini_tmux.Client.Attach.Panes.{
  receive_grids-SavedAll, grids_descriptors, attach_panes-Connected,
}

-- the height of a pane: the status bar takes a row
abbrev pub attach_height : Client → ℕ
attach_height c = u16 (c.ws.ws_row + (2 ^ 16 - 1))

-- The block that attaches is done, and nothing is drawn yet: the panes are `ps`, the first of them
-- active, and nothing is left to read.
pub record Rebuilt (ps : List Pane) (r : Attach) : Type 0 where
  pub client : Client
  pub rest : List Read
  pub runs : r ≡ attached client rest
  pub panes : client.panes ≡ ps
  pub active : client.pane ≡ 0
  pub all_read : rest ≡ []

attach_grids-Rebuilt :
    (reads : List Read) (c : Client) (ps : List Pane)
    → receive_grids (rounds (read_some reads).0) (read_some reads).1 c.panes ≡ some (ps, [])
    → Rebuilt ps (attach_grids reads c)
unfolding attach_grids
attach_grids-Rebuilt reads c ps e = record {
  client = record c { panes = ps; pane = 0 };
  rest = [];
  runs = rw (e, attach_grids) refl;
  panes = refl;
  active = refl;
  all_read = refl;
}

-- the grids arrive at a client that has the panes
grids-Rebuilt :
    (w h x a b c d : ℕ) (sock : ℤ) (fds : List ℤ) (cl : Client) {n : ℕ}
    {gs : List (Option (List ℕ))} {ss : List Source} {others : List ℤ} {rs : List Read}
    → n ≤ 64
    → length fds ≡ n
    → cl.panes ≡ fresh_panes w h 0 x fds
    → SavedAll 0 n gs ss
    → Arrives
        (Session.wrote sock (le32 (grid_count n gs)) ∷ send_grids sock (a ∷ b ∷ c ∷ d ∷ []) n gs)
        others
        rs
    → Rebuilt (loaded_panes w h 0 x fds ss) (attach_grids rs cl)
unfolding read_some
grids-Rebuilt w h x a b c d sock fds cl {n} {gs} {ss} few counted made vs (whole {rs} short rest) =
    attach_grids-Rebuilt (got (le32 (grid_count n gs)) ∷ rs) cl (loaded_panes w h 0 x fds ss) (
      ap (λ ps. receive_grids (rounds (le32 (grid_count n gs))) rs ps) made
      ∙ (ap (λ k. receive_grids k rs (fresh_panes w h 0 x fds))
            (ap (λ k. rounds (le32 k)) (grid_count-SavedAll vs) ∙ rounds-le32 n (omega arith))
          ∙ receive_grids-SavedAll w h x a b c d sock [] fds counted vs tt rest))
grids-Rebuilt w h x a b c d sock fds cl few counted made vs (pieces long _ rest) =
    absurd (omega (arith, long))

-- the client before the panes: MSG_DETACH is sent, and the row of the status bar taken off
abbrev asking : Answers → ℕ → Client → Client
asking k id c = record (act c (wrote c.server_fd (message k detach (le32 id)) ∷ [])) {
  ws = record c.ws { ws_row = attach_height c };
}

client_attach-pos :
    (k : Answers) (id n : ℕ) (reads : List Read) (c : Client)
    → rounds (read_some reads).0 ≡ n
    → (n == 0) ≡ false
    → ((recv_fd c.recv_fds).0 ==ℤ minus_one) ≡ false
    → client_attach k id reads c
      ≡ attach_grids
          (read_some reads).1
          (attach_panes (attach_width c.ws.ws_col n) 0 0 n (asking k id c))
unfolding client_attach
client_attach-pos k id n reads c e e' e'' = rw (e, e', e'', client_attach) refl

first_descriptor :
    (sock : ℤ) (n : ℕ) (ms : List ℤ) (es : List Session.Effect) {fds : List ℤ} {rs : List Read}
    → 0 < n
    → n ≤ length ms
    → Arrives (send_masters sock n ms ++ es) fds rs
    → ((recv_fd fds).0 ==ℤ minus_one) ≡ false
unfolding send_masters
first_descriptor sock zero ms es some_panes enough arrives = absurd (omega (arith, some_panes))
first_descriptor sock (suc n) [] es some_panes enough arrives = absurd (omega (arith, enough))
first_descriptor sock (suc n) (m ∷ ms) es some_panes enough (descriptor (negsuc k) nonneg rest) =
    absurd (cc)
first_descriptor sock (suc n) (m ∷ ms) es some_panes enough (descriptor (pos k) nonneg rest) = refl

others_none :
    (sock : ℤ) (padding bs : List ℕ) {n : ℕ} {gs : List (Option (List ℕ))} {ss : List Source}
    {others : List ℤ} {rs : List Read}
    → SavedAll 0 n gs ss
    → Arrives (Session.wrote sock bs ∷ send_grids sock padding n gs) others rs
    → others ≡ []
others_none sock padding bs vs (whole _ rest) = grids_descriptors sock padding vs rest
others_none sock padding bs vs (pieces _ _ rest) = grids_descriptors sock padding vs rest

-- A fresh client that attaches to a well-formed session of at least one pane, for whose panes, with
-- the ids from 0 on, the server has grids that `grid_serialize` wrote, gets as many panes, one for
-- each descriptor in order, side by side below the status bar's row, each with the grid, the history
-- and the cursor that were saved. Before it first draws, the first pane is active and nothing of what
-- was sent is left to read, however the data of the grids is split into reads.
pub client_attach-Rebuilt :
    (k : Answers) (id a b c d : ℕ) (sock : ℤ) (s : Session) (cl : Client) {ss : List Source}
    {reads : List Read}
    → IsSession s
    → 0 < s.pane_count
    → SavedAll 0 s.pane_count s.grid_data ss
    → cl.panes ≡ []
    → cl.next_pane_id ≡ 0
    → Arrives (attach_effects sock (a ∷ b ∷ c ∷ d ∷ []) s) cl.recv_fds reads
    → Rebuilt
        (loaded_panes
          (attach_width cl.ws.ws_col s.pane_count)
          (attach_height cl)
          0
          0
          cl.recv_fds
          ss)
        (client_attach k id reads cl)
unfolding attach_effects read_some
client_attach-Rebuilt k id a b c d sock s cl valid some_panes vs empty first (pieces long _ rest) =
    absurd (omega (arith, long))
client_attach-Rebuilt k id a b c d sock s cl {ss} valid some_panes vs empty first
      (whole {rs} short rest) =
    let n = s.pane_count in
    let w = attach_width cl.ws.ws_col n in
    let h = attach_height cl in
    let few : n ≤ 64 = omega (arith, valid.panes) in
    let enough : n ≤ length s.master_fds = omega (arith, valid.panes, valid.masters) in
    let q =
      attach_panes-Connected w 0 0 sock (asking k id cl) n s.master_fds enough
        (omega (arith, first, few)) rest in
    let own =
      sym (append-nil q.own)
      ∙ sym (
          q.split
          ∙ ap (λ r. q.own ++ r)
              (others_none sock (a ∷ b ∷ c ∷ d ∷ []) (le32 (grid_count n s.grid_data)) vs
                q.behind)) in
    subst (Rebuilt (loaded_panes w h 0 0 cl.recv_fds ss))
      (sym (
        client_attach-pos k id n (got (le32 n) ∷ rs) cl (rounds-le32 n (omega (arith, few)))
          (ne→==_false n 0 (λ e. omega (arith, e, some_panes)))
          (first_descriptor sock n s.master_fds _ some_panes enough rest)))
      (grids-Rebuilt w h 0 a b c d sock cl.recv_fds (attach_panes w 0 0 n (asking k id cl)) few
        (ap length (sym own) ∙ q.counted)
        (q.made ∙ λ j. empty j ++ fresh_panes w h (first j) 0 (own j)) vs q.behind)
