-- ===== src/Client/Attach/Redrawn/Screen.antt =====
-- The screen of a client that has attached, as `client_main` of client.c first draws it.
use mini_tmux.Base.{
  ℕ, zero, suc, ◌+◌, ◌<◌, ◌≡◌, refl, List, [], ◌∷◌, ◌++◌, Option, none, some, arith, false, length,
  map, All, ap, ap₂, ◌∙◌, sym, subst, ℤ, add32, get_elem?,
}
use mini_tmux.Grid.{Cell}
use mini_tmux.Render.{Out}
use mini_tmux.Render.Screen.{cursor, plain, paint, cleared, to_home}
use mini_tmux.Render.Pane.{rows_view, row_view, pane_view, cursor_view}
use mini_tmux.Render.Status.{BarTexts, bar_mark, display_width}
use mini_tmux.Render
use mini_tmux.Window.{Pane, pane_create, pane_set_master_fd}
use mini_tmux.Server.Session.{Session}
use mini_tmux.Server.Wire.{Read}
use mini_tmux.Server.Invariant.{IsSession}
use mini_tmux.Server.Receive.Dispatch.{attach_effects}
use mini_tmux.Client.{Client, Answers}
use mini_tmux.Client.Draw.{first_draw}
use mini_tmux.Client.Draw.Parts.{bar_view, cursor_place, border_view}
use mini_tmux.Client.Draw.First.{AllRenderable, none_left, renderable, panes_view, first_draw-shows}
use mini_tmux.Client.Attach.{Attach, attached, client_attach, attach_width}
use mini_tmux.Client.Attach.Arrival.{Arrives}
use mini_tmux.Client.Attach.Same.{descriptors_lem}
use mini_tmux.Client.Attach.Image.{Source, loaded}
use mini_tmux.Client.Attach.Restore.{SavedAll, all_saved, saved, loaded_panes}
use mini_tmux.Client.Attach.Reattach.{Rebuilt, attach_height, client_attach-Rebuilt}
use mini_tmux.Client.Attach.Redrawn.{
  displayed, restored_lines, restored_lines-displayed, Fits, loaded-Renderable,
}

rows_view-same :
    (p : Pane) (l l' : ℕ → List Cell) (y n : ℕ)
    → ((i : ℕ) → i < y + n → l i ≡ l' i)
    → rows_view p l y n ≡ rows_view p l' y n
unfolding rows_view
rows_view-same p l l' y zero same = refl
rows_view-same p l l' y (suc n) same =
    ap₂ (λ a b. a ++ b) (ap (row_view p y) (same y (omega arith)))
      (rows_view-same p l l' (suc y) n (λ i h. same i (omega (arith, h))))

pane_view-same :
    (p : Pane) (l l' : ℕ → List Cell)
    → ((i : ℕ) → i < p.sy → l i ≡ l' i)
    → pane_view p l ≡ pane_view p l'
pane_view-same p l l' same =
    ap (λ v. cursor false ∷ (v ++ cursor_view p))
      (rows_view-same p l l' 0 p.sy (λ i h. same i (omega (arith, h))))

-- the pane of a descriptor
abbrev fresh_pane : ℕ → ℕ → ℕ → ℕ → ℤ → Pane
fresh_pane w h i x fd = pane_set_master_fd (pane_create i w h x 0) fd

loaded-pane_view :
    (w h i x : ℕ) (fd : ℤ) (s : Source)
    → Fits w h s
    → pane_view (loaded s (fresh_pane w h i x fd)) (restored_lines s.grid s.ring)
      ≡ pane_view (loaded s (fresh_pane w h i x fd)) (displayed s.grid)
unfolding pane_create pane_set_master_fd
loaded-pane_view w h i x fd s f =
    pane_view-same (loaded s (fresh_pane w h i x fd)) (restored_lines s.grid s.ring)
      (displayed s.grid)
      (λ y inside.
        restored_lines-displayed f.valid y (subst (λ n. y < n) (sym f.height_same) inside))

-- The panes can be drawn.
loaded_panes-AllRenderable :
    (w h i x : ℕ) (fds : List ℤ) (ss : List Source)
    → All (Fits w h) ss
    → length fds ≡ length ss
    → AllRenderable (loaded_panes w h i x fds ss) (map (λ s. restored_lines s.grid s.ring) ss)
unfolding loaded_panes pane_create pane_set_master_fd
loaded_panes-AllRenderable w h i x [] [] fits e = none_left
loaded_panes-AllRenderable w h i x [] (s ∷ ss) fits e = absurd (omega (arith, e))
loaded_panes-AllRenderable w h i x (fd ∷ fds) [] fits e = absurd (omega (arith, e))
loaded_panes-AllRenderable w h i x (fd ∷ fds) (s ∷ ss) fits e =
    renderable (loaded-Renderable (fresh_pane w h i x fd) fits.0 refl refl) (
      loaded_panes-AllRenderable w h (suc i) (add32 x (add32 w 1)) fds ss fits.1 (omega (arith, e)))

-- They show what the saved grids displayed.
panes_view-displayed :
    (w h i x : ℕ) (fds : List ℤ) (ss : List Source)
    → All (Fits w h) ss
    → length fds ≡ length ss
    → panes_view (loaded_panes w h i x fds ss) (map (λ s. restored_lines s.grid s.ring) ss)
      ≡ panes_view (loaded_panes w h i x fds ss) (map (λ s. displayed s.grid) ss)
unfolding loaded_panes panes_view
panes_view-displayed w h i x [] [] fits e = refl
panes_view-displayed w h i x [] (s ∷ ss) fits e = refl
panes_view-displayed w h i x (fd ∷ fds) [] fits e = refl
panes_view-displayed w h i x (fd ∷ []) (s ∷ []) fits e = loaded-pane_view w h i x fd s fits.0
panes_view-displayed w h i x (fd ∷ fd' ∷ fds) (s ∷ []) fits e = absurd (omega (arith, e))
panes_view-displayed w h i x (fd ∷ []) (s ∷ s' ∷ ss) fits e = absurd (omega (arith, e))
panes_view-displayed w h i x (fd ∷ fd' ∷ fds) (s ∷ s' ∷ ss) fits e =
    ap₂ (λ a b. (a ++ border_view (loaded s (fresh_pane w h i x fd))) ++ b)
      (loaded-pane_view w h i x fd s fits.0)
      (panes_view-displayed w h (suc i) (add32 x (add32 w 1)) (fd' ∷ fds) (s' ∷ ss) fits.1
        (omega (arith, e)))

length-SavedAll :
    {i n : ℕ} {gs : List (Option (List ℕ))} {ss : List Source} → SavedAll i n gs ss → n ≡ length ss
length-SavedAll all_saved = refl
length-SavedAll (saved v vs) = ap suc (length-SavedAll vs)

bar_mark-made :
    (t : BarTexts) (p : Pane) (h : ℕ)
    → display_width 0 t.history_mark ≡ some h
    → (m : List Out × ℕ) × (bar_mark t p ≡ some m)
unfolding bar_mark
bar_mark-made t p h e = by_offset p.grid.scroll_offset
  where
    by_offset :
        (offset : ℕ)
        → (m : List Out × ℕ) × (elim offset [
          | zero ↦ some ([], 0)
          | suc n ↦ elim (display_width 0 t.history_mark) [
            | none ↦ none
            | some w ↦ some (Render.text t.history_mark ∷ [], w)
          ]
        ]
            ≡ some m)
    by_offset zero = (_, refl)
    by_offset (suc n) = ((Render.text t.history_mark ∷ [], h), rw e refl)

-- Of at least one pane there is a first.
first_pane :
    (w h i x : ℕ) (fds : List ℤ) (ss : List Source)
    → 0 < length ss
    → length fds ≡ length ss
    → (p : Pane) × (get_elem? (loaded_panes w h i x fds ss) 0 ≡ some p)
unfolding loaded_panes
first_pane w h i x fds [] some_panes e = absurd (omega (arith, some_panes))
first_pane w h i x [] (s ∷ ss) some_panes e = absurd (omega (arith, e))
first_pane w h i x (fd ∷ fds) (s ∷ ss) some_panes e = (_, refl)

-- The client has attached, with nothing left to read, and has drawn itself: under the bar of its
-- first pane, its panes show the lines `ls`.
pub record Redrawn (t : BarTexts) (ls : List (ℕ → List Cell)) (r : Attach) : Type 0 where
  pub client : Client
  pub runs : r ≡ attached client []
  pub pane : Pane
  pub active : get_elem? client.panes client.pane ≡ some pane
  pub out : List Out
  pub made : first_draw t client ≡ some out
  pub mark : List Out
  pub used : ℕ
  pub shows :
      paint plain out
      ≡ cleared
        ∷ to_home
        ∷ (bar_view t client.ws.ws_row client.ws.ws_col used pane mark
            ++ (panes_view client.panes ls ++ (cursor_place pane ∷ [])))

Rebuilt-Redrawn :
    (t : BarTexts) (w h x wn hn : ℕ) (fds : List ℤ) (ss : List Source) {r : Attach}
    → Rebuilt (loaded_panes w h 0 x fds ss) r
    → All (Fits w h) ss
    → 0 < length ss
    → length fds ≡ length ss
    → display_width 0 t.window_name ≡ some wn
    → display_width 0 t.history_mark ≡ some hn
    → Redrawn t (map (λ s. displayed s.grid) ss) r
Rebuilt-Redrawn t w h x wn hn fds ss {r} q fits some_panes counted name history =
    let ls = map (λ (s : Source). restored_lines s.grid s.ring) ss in
    let (p, first) = first_pane w h 0 x fds ss some_panes counted in
    let (m, mark) = bar_mark-made t p hn history in
    let at_pane : get_elem? q.client.panes q.client.pane ≡ some p =
      ap₂ (λ ps i. get_elem? ps i) q.panes q.active ∙ first in
    let (out, made, shows) =
      first_draw-shows t q.client p wn m
        (subst (λ ps. AllRenderable ps ls) (sym q.panes)
          (loaded_panes-AllRenderable w h 0 x fds ss fits counted))
        at_pane name mark in
    let bar = bar_view t q.client.ws.ws_row q.client.ws.ws_col (add32 (add32 2 wn) m.1) p m.0 in
    record {
      client = q.client;
      runs = q.runs ∙ ap (attached q.client) q.all_read;
      pane = p;
      active = at_pane;
      out = out;
      made = made;
      mark = m.0;
      used = add32 (add32 2 wn) m.1;
      shows =
          shows
          ∙ ap (λ v. cleared ∷ to_home ∷ (bar ++ (v ++ (cursor_place p ∷ []))))
              (ap (λ ps. panes_view ps ls) q.panes
                ∙ (panes_view-displayed w h 0 x fds ss fits counted
                    ∙ ap (λ ps. panes_view ps (map (λ s. displayed s.grid) ss)) (sym q.panes)));
    }

-- A fresh client attaches to a well-formed session of at least one pane, for whose panes, with the
-- ids from 0 on, the server has grids that `grid_serialize` wrote. The window is such that its panes
-- have the sizes of these grids, the cells have texts, and the texts of the status bar end with whole
-- characters. Then it attaches with nothing left to read, and what it first draws shows on the
-- cleared terminal the bar, and in every row of every pane the cells that the saved grid displayed
-- there, each with its own attributes, with the borders between the panes and the cursor in the first.
pub client_attach-Redrawn :
    (k : Answers) (t : BarTexts) (id a b c d wn hn : ℕ) (sock : ℤ) (s : Session) (cl : Client)
    {ss : List Source} {reads : List Read}
    → IsSession s
    → 0 < s.pane_count
    → SavedAll 0 s.pane_count s.grid_data ss
    → All (Fits (attach_width cl.ws.ws_col s.pane_count) (attach_height cl)) ss
    → cl.panes ≡ []
    → cl.next_pane_id ≡ 0
    → display_width 0 t.window_name ≡ some wn
    → display_width 0 t.history_mark ≡ some hn
    → Arrives (attach_effects sock (a ∷ b ∷ c ∷ d ∷ []) s) cl.recv_fds reads
    → Redrawn t (map (λ x. displayed x.grid) ss) (client_attach k id reads cl)
client_attach-Redrawn k t id a b c d wn hn sock s cl {ss} valid some_panes vs fits empty first name
      history arrives =
    let count = length-SavedAll vs in
    Rebuilt-Redrawn t (attach_width cl.ws.ws_col s.pane_count) (attach_height cl) 0 wn hn
      cl.recv_fds ss
      (client_attach-Rebuilt k id a b c d sock s cl valid some_panes vs empty first arrives) fits
      (omega (arith, some_panes, count))
      (descriptors_lem sock (a ∷ b ∷ c ∷ d ∷ []) s valid arrives ∙ count) name history
