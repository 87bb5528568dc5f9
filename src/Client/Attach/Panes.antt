-- ===== src/Client/Attach/Panes.antt =====
-- The panes of a client that attached: those of the client that detached.
use mini_tmux.Base.{
  ℕ, zero, suc, ◌+◌, ◌≤◌, ◌<◌, ◌≡◌, refl, List, [], ◌∷◌, ◌++◌, Option, some, arith, length, ap, ◌∙◌,
  sym, u32, add32, ℤ, pos, negsuc, append_assoc, append-nil,
}
use mini_tmux.Server.Session
use mini_tmux.Server.Session.{Session}
use mini_tmux.Server.Wire.{Read, header_image}
use mini_tmux.Server.Receive.Dispatch.{send_masters, send_grid, send_grids}
use mini_tmux.Window.{Pane, pane_create, pane_set_master_fd}
use mini_tmux.Client.{Client}
use mini_tmux.Client.Attach.{attach_pane, attach_panes, receive_grid, receive_grids}
use mini_tmux.Client.Attach.Arrival.{Arrives, nothing, descriptor, whole, pieces}
use mini_tmux.Client.Attach.Image.{Source, loaded, length-Saved}
use mini_tmux.Client.Attach.Restore.{
  SavedAll, all_saved, saved, fresh_panes, loaded_panes, Below, Below-append, receive_grid-Saved,
}

receive_grids_step :
    (n : ℕ) (rs rest : List Read) (ps ps' : List Pane)
    → receive_grid rs ps ≡ some (ps', rest)
    → receive_grids (suc n) rs ps ≡ receive_grids n rest ps'
unfolding receive_grids
receive_grids_step n rs rest ps ps' e = rw (e, receive_grids) refl

pub receive_grids-SavedAll :
    (w h x a b c d : ℕ) (sock : ℤ) (ready : List Pane) (fds : List ℤ) {i n : ℕ}
    {gs : List (Option (List ℕ))} {ss : List Source} {got_fds : List ℤ} {rs : List Read}
    → length fds ≡ n
    → SavedAll i n gs ss
    → Below i ready
    → Arrives (send_grids sock (a ∷ b ∷ c ∷ d ∷ []) n gs) got_fds rs
    → receive_grids n rs (ready ++ fresh_panes w h i x fds)
      ≡ some (ready ++ loaded_panes w h i x fds ss, [])
unfolding receive_grids send_grids send_grid fresh_panes loaded_panes pane_set_master_fd pane_create
    header_image
receive_grids-SavedAll w h x a b c d sock ready [] e all_saved below nothing = refl
receive_grids-SavedAll w h x a b c d sock ready (fd ∷ fds) e all_saved below nothing =
    absurd (omega (arith, e))
receive_grids-SavedAll w h x a b c d sock ready [] e (saved v vs) below arrives =
    absurd (omega (arith, e))
receive_grids-SavedAll w h x a b c d sock ready (fd ∷ fds) {i} {ss = s ∷ ss} e (saved {n} v vs)
      below (whole short (pieces {ps} {rs} long data_comes rest)) =
    let p = pane_set_master_fd (pane_create i w h x 0) fd in
    let x' = add32 x (add32 w 1) in
    let ready' = ready ++ (loaded s p ∷ []) in
    let panes = fresh_panes w h (suc i) x' fds in
    receive_grids_step n _ rs (ready ++ (p ∷ panes)) (ready ++ (loaded s p ∷ panes))
      (receive_grid-Saved a b c d rs ready panes p v data_comes below refl)
    ∙ (ap (receive_grids n rs) (sym (append_assoc ready (loaded s p ∷ []) panes))
        ∙ (receive_grids-SavedAll w h x' a b c d sock ready' fds (omega (arith, e)) vs
              (Below-append i ready (loaded s p) below refl) rest
            ∙ λ j.
                some (
                  append_assoc ready (loaded s p ∷ []) (loaded_panes w h (suc i) x' fds ss) j,
                  [],
                )))
receive_grids-SavedAll w h x a b c d sock ready (fd ∷ fds) e (saved v vs) below
      (whole short (whole short' rest)) =
    absurd (omega (arith, short', length-Saved v))
receive_grids-SavedAll w h x a b c d sock ready (fd ∷ fds) e (saved v vs) below
      (pieces long data_comes rest) =
    absurd (omega (arith, long))

-- No descriptor is sent with the grids.
pub grids_descriptors :
    (sock : ℤ) (padding : List ℕ) {i n : ℕ} {gs : List (Option (List ℕ))} {ss : List Source}
    {fds : List ℤ} {rs : List Read}
    → SavedAll i n gs ss
    → Arrives (send_grids sock padding n gs) fds rs
    → fds ≡ []
unfolding send_grids send_grid
grids_descriptors sock padding all_saved nothing = refl
grids_descriptors sock padding (saved v vs) (whole _ (whole _ rest)) =
    grids_descriptors sock padding vs rest
grids_descriptors sock padding (saved v vs) (whole _ (pieces _ _ rest)) =
    grids_descriptors sock padding vs rest
grids_descriptors sock padding (saved v vs) (pieces _ _ (whole _ rest)) =
    grids_descriptors sock padding vs rest
grids_descriptors sock padding (saved v vs) (pieces _ _ (pieces _ _ rest)) =
    grids_descriptors sock padding vs rest

-- The panes that `n` descriptors make, and what arrives behind them.
pub record Connected (w i x n : ℕ) (c : Client) (fds : List ℤ) (es : List Session.Effect)
    (rs : List Read) : Type 0 where
  pub own : List ℤ
  pub others : List ℤ
  pub split : fds ≡ own ++ others
  pub counted : length own ≡ n
  pub behind : Arrives es others rs
  pub made :
      (attach_panes w i x n (record c { recv_fds = fds })).panes
      ≡ c.panes ++ fresh_panes w c.ws.ws_row c.next_pane_id x own

pub attach_panes-Connected :
    (w i x : ℕ) (sock : ℤ) (c : Client) (n : ℕ) (ms : List ℤ) {es : List Session.Effect}
    {fds : List ℤ} {rs : List Read}
    → n ≤ length ms
    → c.next_pane_id + n < u32
    → Arrives (send_masters sock n ms ++ es) fds rs
    → Connected w i x n c fds es rs
unfolding attach_panes attach_pane send_masters fresh_panes
attach_panes-Connected w i x sock c zero ms {fds} enough ids arrives = record {
  own = [];
  others = fds;
  split = refl;
  counted = refl;
  behind = arrives;
  made = sym (append-nil c.panes);
}
attach_panes-Connected w i x sock c (suc n) [] enough ids arrives = absurd (omega (arith, enough))
attach_panes-Connected w i x sock c (suc n) (m ∷ ms) enough ids
      (descriptor (negsuc k) nonneg rest) =
    absurd (cc)
attach_panes-Connected w i x sock c (suc n) (m ∷ ms) enough ids
      (descriptor {fds} (pos k) nonneg rest) =
    let (c', x') = attach_pane w i x (record c { recv_fds = pos k ∷ fds }) in
    let q =
      attach_panes-Connected w (suc i) x' sock c' n ms (omega (arith, enough)) (omega (arith, ids))
        rest in
    let p = pane_set_master_fd (pane_create c.next_pane_id w c.ws.ws_row x 0) (pos k) in
    record {
      own = pos k ∷ q.own;
      others = q.others;
      split = ap (λ r. pos k ∷ r) q.split;
      counted = omega (arith, q.counted);
      behind = q.behind;
      made =
          q.made
          ∙ (append_assoc c.panes (p ∷ []) _
              ∙ ap (λ j. c.panes ++ (p ∷ fresh_panes w c.ws.ws_row j x' q.own)) next);
    }
  where
    next : add32 c.next_pane_id 1 ≡ suc c.next_pane_id
    next = omega (arith, ids)
