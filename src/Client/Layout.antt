-- ===== src/Client/Layout.antt =====
-- What a split of a pane and a change of the terminal's size leave of the layout (client.c).
use native.Mathlib.Nat.{div-le_self, div-mul-le_self, le-div_iff_mul-le}
use mini_tmux.Base.{
  ℕ, zero, suc, ◌+◌, ◌-◌, ◌*◌, ◌/◌, ◌^◌, ◌≤◌, ◌<◌, ◌≡◌, refl, List, [], ◌∷◌, ◌++◌, Option, none,
  some, false, arith, All, length, get_elem?, length-append, ne→==_false, sub32, add32, ◌∙◌, ap,
  sym, subst, ℤ, minus_one, ◌==ℤ◌, ◌==◌,
}
use mini_tmux.Window.{Pane, pane_create, pane_set_master_fd}
use mini_tmux.Server.Session.{Winsize}
use mini_tmux.Server.Wire.{command, resize}
use mini_tmux.Client.{
  Client, Answers, act, add_split, act_pane_split, act_resize, resize_to, lay_out, divided,
  size_effects, wrote, message, winsize_bytes, pane_size, pane_split_text, u16,
}
use mini_tmux.Client.Tiling.{
  Tiles, CanTake, lay_out-LaidOut, Tiles-snoc, pane_create-IsPane, IsPane-connected,
}

-- `n` panes of the width that is left by `b = n - 1` borders, each with the column behind it.
shared_width : (col b n : ℕ) → n ≡ suc b → b ≤ col → n * ((col - b) / n + 1) ≤ col + 1
shared_width col b n e h =
    let fits = div-mul-le_self (col - b) n in
    let expand : n * ((col - b) / n + 1) ≡ (col - b) / n * n + n = grind arith in
    omega (arith, fits, expand)

shared_width_pos : (col b n : ℕ) → n ≡ suc b → n + b ≤ col → 0 < (col - b) / n
shared_width_pos col b n e h = (le-div_iff_mul-le (omega arith)).1 (omega arith)

-- A terminal of columns and rows that fit their `unsigned short` and `int`.
abbrev pub FitsTerminal : ℕ → ℕ → Type 0
FitsTerminal col row = (col < 2 ^ 16) × (row * col < 2 ^ 31)

-- What the split of `c` leaves in `c'`.
pub record Split (fd : ℤ) (h : ℕ) (c c' : Client) : Type 0 where
  pub end : ℕ
  pub tiles : Tiles 0 h c'.panes end
  pub in_window : end ≤ c.ws.ws_col + 1
  pub count : length c'.panes ≡ suc (length c.panes)
  pub old : List Pane
  pub fresh : Pane
  pub added : c'.panes ≡ old ++ (fresh ∷ [])
  pub connected : fresh.master_fd ≡ fd

length-snoc :
    (ps qs : List Pane) (p : Pane)
    → length ps ≡ length qs
    → length (ps ++ (p ∷ [])) ≡ suc (length qs)
length-snoc ps qs p e = omega (arith, length-append ps (p ∷ []), e)

add_split-Split :
    (k : Answers) (c : Client) (active : Pane) (fd : ℤ) (h w : ℕ)
    → 0 < w
    → 0 < h
    → h * w < 2 ^ 31
    → suc (length c.panes) * (w + 1) ≤ c.ws.ws_col + 1
    → c.ws.ws_col < 2 ^ 16
    → All (CanTake w) c.panes
    → (c' : Client) × (add_split k fd active w h c ≡ some c') × Split fd h c c'
unfolding add_split pane_create pane_set_master_fd
add_split-Split k c active fd h w a b small fits narrow ok =
    let more : suc (length c.panes) * (w + 1) ≡ length c.panes * (w + 1) + w + 1 = grind arith in
    let end = length c.panes * (w + 1) in
    let (ps, e, l) = lay_out-LaidOut k.vterm w h 0 c.panes a b small (omega (arith, more)) ok in
    let new = pane_set_master_fd (pane_create c.next_pane_id w h (0 + end) active.yoff) fd in
    (
      act (record c { panes = ps ++ (new ∷ []); next_pane_id = add32 c.next_pane_id 1 })
          (size_effects w h (ps ++ (new ∷ []))),
      rw (e, add_split) refl,
      record {
        end = 0 + end + w + 1;
        tiles = Tiles-snoc 0 h ps (0 + end) new l.tiles refl refl a (
            IsPane-connected (pane_create c.next_pane_id w h (0 + end) active.yoff) fd
              (pane_create-IsPane c.next_pane_id w h (0 + end) active.yoff small));
        in_window = omega (arith, more);
        count = length-snoc ps c.panes new l.count_same;
        old = ps;
        fresh = new;
        added = refl;
        connected = refl;
      },
    )

split_width :
    (col n : ℕ) → n ≤ col → col < 2 ^ 16 → sub32 col (suc n - 1) / suc n ≡ (col - n) / suc n
split_width col n h k =
    let e : sub32 col (suc n - 1) ≡ col - n = omega arith in ap (λ a. a / suc n) e

-- the client after its two messages
abbrev asked : Answers → Client → List ℤ → ℕ → ℕ → Client
asked k c fds w h =
    act (record c { recv_fds = fds })
      (wrote c.server_fd (message k resize (winsize_bytes (pane_size w h)))
        ∷ wrote c.server_fd (message k command pane_split_text)
        ∷ [])

act_pane_split-answered :
    (k : Answers) (c : Client) (active : Pane) (fd : ℤ) (fds : List ℤ) (w : ℕ)
    → get_elem? c.panes c.pane ≡ some active
    → c.recv_fds ≡ fd ∷ fds
    → (fd ==ℤ minus_one) ≡ false
    → sub32 c.ws.ws_col (suc (length c.panes) - 1) / suc (length c.panes) ≡ w
    → act_pane_split k c ≡ add_split k fd active w active.sy (asked k c fds w active.sy)
unfolding act_pane_split
act_pane_split-answered k c active fd fds w at received good e =
    rw (at, received, good, e, act_pane_split) refl

area_le : (h w col : ℕ) → w ≤ col → h * w ≤ h * col
area_le h w col l = grind arith

-- A split of `n` panes, all with room for the new width in their histories, the active one at
-- least a row high, in a window of at least 2 n + 1 columns (less than 2^16, and less than 2^31
-- cells), for which the server sends a descriptor, leaves `n + 1` panes side by side within the
-- window, the last of them that of the descriptor.
pub act_pane_split-Split :
    (k : Answers) (c : Client) (active : Pane) (fd : ℤ) (fds : List ℤ)
    → get_elem? c.panes c.pane ≡ some active
    → c.recv_fds ≡ fd ∷ fds
    → (fd ==ℤ minus_one) ≡ false
    → 2 * length c.panes + 1 ≤ c.ws.ws_col
    → 0 < active.sy
    → FitsTerminal c.ws.ws_col active.sy
    → All (CanTake ((c.ws.ws_col - length c.panes) / suc (length c.panes))) c.panes
    → (c' : Client) × (act_pane_split k c ≡ some c') × Split fd active.sy c c'
act_pane_split-Split k c active fd fds at received good wide tall fits ok =
    let n = length c.panes in
    let w = (c.ws.ws_col - n) / suc n in
    let h = active.sy in
    let w_le = div-le_self (c.ws.ws_col - n) (suc n) in
    let area = area_le h w c.ws.ws_col (omega (arith, w_le)) in
    let (c', e, s) =
      add_split-Split k (asked k c fds w h) active fd h w
        (shared_width_pos c.ws.ws_col n (suc n) refl (omega arith)) tall
        (omega (arith, area, fits.1)) (shared_width c.ws.ws_col n (suc n) refl (omega arith)) fits.0
        ok in
    (
      c',
      act_pane_split-answered k c active fd fds w at received good
            (split_width c.ws.ws_col n (omega arith) fits.0)
          ∙ e,
      record {
        end = s.end;
        tiles = s.tiles;
        in_window = s.in_window;
        count = s.count;
        old = s.old;
        fresh = s.fresh;
        added = s.added;
        connected = s.connected;
      },
    )

-- What a change of the terminal's size to `ws` leaves of `c` in `c'`.
pub record Refitted (ws : Winsize) (c c' : Client) : Type 0 where
  pub end : ℕ
  pub tiles : Tiles 0 (ws.ws_row - 1) c'.panes end
  pub in_window : end ≤ ws.ws_col + 1
  pub count_same : length c'.panes ≡ length c.panes
  pub size : c'.ws ≡ ws

resize_width :
    (col n : ℕ)
    → 0 < n
    → n ≤ col
    → col < 2 ^ 16
    → divided (add32 (sub32 col n) 1) n ≡ some ((col - (n - 1)) / n)
resize_width col zero a b c = absurd (omega arith)
resize_width col (suc n) a b c =
    let e : add32 (sub32 col (suc n)) 1 ≡ col - (suc n - 1) = omega arith in
    let divides : (suc n == 0) ≡ false = ne→==_false (suc n) 0 (omega arith) in
    rw divides (ap (λ r. some (r / suc n)) e)

-- the client after the resize
abbrev resized : Answers → Client → Winsize → ℕ → ℕ → List Pane → Client
resized k c ws w h ps =
    act (record c { ws = ws; panes = ps })
      (size_effects w h ps
        ++ (wrote c.server_fd (
              message k resize
                (winsize_bytes (record ws { ws_row = u16 (ws.ws_row + (2 ^ 16 - 1)) })))
            ∷ []))

resize_to-fits :
    (k : Answers) (c : Client) (ws : Winsize) (w : ℕ) (ps : List Pane) (end : ℕ)
    → divided (add32 (sub32 ws.ws_col (length c.panes)) 1) (length c.panes) ≡ some w
    → lay_out k.vterm w (sub32 ws.ws_row 1) 0 c.panes ≡ some (ps, end)
    → resize_to k ws c ≡ some (resized k c ws w (sub32 ws.ws_row 1) ps)
unfolding resize_to
resize_to-fits k c ws w ps end e e' = rw (e, e', resize_to) refl

act_resize-told :
    (k : Answers) (c : Client) (ws : Winsize)
    → k.winsize ≡ some ws
    → act_resize k c ≡ resize_to k ws c
unfolding act_resize
act_resize-told k c ws told = subst (λ o. chosen o ≡ resize_to k ws c) (sym told) refl
  where
    chosen : Option Winsize → Option Client
    chosen o = elim o [ none ↦ some c | some s ↦ resize_to k s c ]

-- A change of the terminal's size to at least two rows and 2 n - 1 columns for the `n` panes (less
-- than 2^16 each, less than 2^31 cells), where the history of each pane has room for its new width, leaves
-- the panes side by side within the window, all rows but one high.
pub act_resize-Refitted :
    (k : Answers) (c : Client) (ws : Winsize)
    → k.winsize ≡ some ws
    → 0 < length c.panes
    → length c.panes + (length c.panes - 1) ≤ ws.ws_col
    → 2 ≤ ws.ws_row
    → ws.ws_row < 2 ^ 16
    → FitsTerminal ws.ws_col ws.ws_row
    → All (CanTake ((ws.ws_col - (length c.panes - 1)) / length c.panes)) c.panes
    → (c' : Client) × (act_resize k c ≡ some c') × Refitted ws c c'
act_resize-Refitted k c ws told some_pane wide tall short fits ok =
    let n = length c.panes in
    let w = (ws.ws_col - (n - 1)) / n in
    let h = ws.ws_row - 1 in
    let w_le = div-le_self (ws.ws_col - (n - 1)) n in
    let area = area_le h w ws.ws_col (omega (arith, w_le)) in
    let less : h * ws.ws_col ≤ ws.ws_row * ws.ws_col = grind arith in
    let in_window = shared_width ws.ws_col (n - 1) n (omega arith) (omega arith) in
    let rows : sub32 ws.ws_row 1 ≡ h = omega arith in
    let (ps, e, l) =
      lay_out-LaidOut k.vterm w h 0 c.panes
        (shared_width_pos ws.ws_col (n - 1) n (omega arith) wide) (omega arith)
        (omega (arith, area, less, fits.1)) (omega (arith, in_window, fits.0)) ok in
    (
      resized k c ws w (sub32 ws.ws_row 1) ps,
      act_resize-told k c ws told
          ∙ resize_to-fits k c ws w ps (0 + n * (w + 1))
              (resize_width ws.ws_col n some_pane (omega arith) fits.0)
              (subst (λ r. lay_out k.vterm w r 0 c.panes ≡ some (ps, 0 + n * (w + 1))) (sym rows)
                e),
      record {
        end = 0 + n * (w + 1);
        tiles = l.tiles;
        in_window = omega (arith, in_window);
        count_same = l.count_same;
        size = refl;
      },
    )
