-- ===== src/Client/Draw/Cursor.antt =====
-- Where the cursor is after what `client_loop` of client.c draws.
use mini_tmux.Base.{
  ℕ, zero, suc, ◌-◌, List, [], ◌∷◌, ◌++◌, ◌≡◌, refl, Option, none, some, ◌>>=◌, Bool, true, false,
  ◌==◌, if◌then◌else◌, ap, ◌∙◌, sym, subst, get_elem?, length, add32, Option-cases, inl, inr,
  Bool-cases, leb, sub32,
}
use mathlib.Core.Option.{some-injective}
use mini_tmux.Window.{Pane}
use mini_tmux.Render.{
  Out, hide_cursor, show_cursor, home, move, text, alternate_screen, main_screen, place_cursor,
  clear_line, reset,
}
use mini_tmux.Render.Status.{BarTexts, render_status_bar, bar_line, bar_mark, fill, display_width}
use mini_tmux.Client.{Client}
use mini_tmux.Client.Draw.{draw_bar}

-- The cursor of the terminal: its place is known after it was moved, until something is written or
-- the screen is changed.
pub record CursorState : Type 0 where
  pub visible : Bool
  pub place : Option (ℕ × ℕ)

abbrev pub cursor_step : CursorState → Out → CursorState
cursor_step s hide_cursor = record s { visible = false }
cursor_step s show_cursor = record s { visible = true }
cursor_step s home = record s { place = some (1, 1) }
cursor_step s (move row col) = record s { place = some (row, col) }
cursor_step s (text t) = record s { place = none }
cursor_step s alternate_screen = record s { place = none }
cursor_step s main_screen = record s { place = none }
cursor_step s _ = s

abbrev pub cursor_after : CursorState → List Out → CursorState
cursor_after s [] = s
cursor_after s (o ∷ os) = cursor_after (cursor_step s o) os

pub cursor_after-append :
    (s : CursorState) (xs ys : List Out)
    → cursor_after s (xs ++ ys) ≡ cursor_after (cursor_after s xs) ys
cursor_after-append s [] ys = refl
cursor_after-append s (x ∷ xs) ys = cursor_after-append (cursor_step s x) xs ys

-- the cursor in its pane, hidden while the history is shown
abbrev pub in_pane : Pane → CursorState
in_pane p = record {
  visible = p.grid.scroll_offset == 0;
  place = some (add32 (add32 p.yoff p.cy) 1, add32 (add32 p.xoff p.cx) 1);
}

-- the filling of the bar keeps the cursor hidden
fill-visible :
    (version : List ℕ) (cols i n : ℕ) (s : CursorState)
    → (cursor_after s (fill version cols i n)).visible ≡ s.visible
unfolding fill
fill-visible version cols i zero s = refl
fill-visible version cols i (suc n) s =
    elim (Bool-cases (leb (sub32 (sub32 cols 1) (length version)) i)) [
      | inl ends ↦ rw (ends, fill) refl
      | inr goes ↦ rw (goes, fill) (fill-visible version cols (suc i) n (record s { place = none }))
    ]

tail_lem :
    (live : Bool) (p : Pane) (s : CursorState)
    → s.visible ≡ false
    → (cursor_after s (clear_line ∷ reset ∷ (if live then place_cursor p else []))).visible ≡ live
tail_lem true p s hidden = refl
tail_lem false p s hidden = hidden

-- the mark is a text or nothing
mark-visible :
    (t : BarTexts) (p : Pane) (m : List Out × ℕ) (s : CursorState)
    → bar_mark t p ≡ some m
    → (cursor_after s m.0).visible ≡ s.visible
unfolding bar_mark
mark-visible t p m s e = by_offset p.grid.scroll_offset e
  where
    by_offset :
        (offset : ℕ)
        → elim offset [
          | zero ↦ some ([], 0)
          | suc n ↦ elim (display_width 0 t.history_mark) [
            | none ↦ none
            | some h ↦ some (text t.history_mark ∷ [], h)
          ]
        ]
          ≡ some m
        → (cursor_after s m.0).visible ≡ s.visible
    by_offset zero e' =
        subst (λ (q : List Out × ℕ). (cursor_after s q.0).visible ≡ s.visible)
          (some-injective ([], 0) m e') refl
    by_offset (suc n) e' = elim (Option-cases (display_width 0 t.history_mark)) [
      | inl w ↦ absurd (cc)
      | inr (h, w) ↦
          subst (λ (q : List Out × ℕ). (cursor_after s q.0).visible ≡ s.visible)
            (some-injective (text t.history_mark ∷ [], h) m (sym (rw w refl) ∙ e')) refl
    ]

bar_line-visible :
    (t : BarTexts) (rows cols used : ℕ) (p : Pane) (m : List Out × ℕ) (s : CursorState)
    → bar_mark t p ≡ some m
    → (cursor_after s (bar_line t rows cols used p m.0)).visible ≡ (p.grid.scroll_offset == 0)
bar_line-visible t rows cols used p m s e =
    let tail = clear_line ∷ reset ∷ (if p.grid.scroll_offset == 0 then place_cursor p else []) in
    let filled = fill t.version cols used (cols - used) in
    let start : CursorState = record { visible = false; place = none } in
    ap (λ (x : CursorState). x.visible)
      (cursor_after-append start m.0 (filled ++ tail)
        ∙ cursor_after-append (cursor_after start m.0) filled tail)
    ∙ tail_lem (p.grid.scroll_offset == 0) p (cursor_after (cursor_after start m.0) filled) (
        fill-visible t.version cols used (cols - used) (cursor_after start m.0)
        ∙ mark-visible t p m start e)

-- a successful step of a chain
pub bind_some :
    {A B : Type 0} (o : Option A) (f : A → Option B) (b : B)
    → (o >>= f) ≡ some b
    → (a : A) × (o ≡ some a) × (f a ≡ some b)
bind_some none f b e = absurd (cc)
bind_some (some a) f b e = (a, refl, e)

pub draw_bar-visible :
    (t : BarTexts) (c : Client) (p : Pane) (bar : List Out) (s : CursorState)
    → draw_bar t c p ≡ some bar
    → (cursor_after s bar).visible ≡ (p.grid.scroll_offset == 0)
unfolding render_status_bar
draw_bar-visible t c p bar s e = elim (Option-cases (display_width 0 t.window_name)) [
  | inl n ↦ absurd (none_some (sym (rw (n, render_status_bar) refl) ∙ e))
  | inr (w, q) ↦ elim (Option-cases (bar_mark t p)) [
    | inl n ↦ absurd (none_some (sym (rw (q, n, render_status_bar) refl) ∙ e))
    | inr (m, q') ↦
        subst (λ b. (cursor_after s b).visible ≡ (p.grid.scroll_offset == 0))
          (some-injective (bar_line t c.ws.ws_row c.ws.ws_col (add32 (add32 2 w) m.1) p m.0) bar
            (sym (rw (q, q', render_status_bar) refl) ∙ e))
          (bar_line-visible t c.ws.ws_row c.ws.ws_col (add32 (add32 2 w) m.1) p m s q')
  ]
]
  where
    none_some : {x : List Out} → none ≡ some x → ⊥
    none_some h = absurd (cc)

-- where the cursor is at the end, in the client that is drawn
pub record CursorAtEnd (c : Client) (s : CursorState) (out : List Out) : Type 0 where
  pub pane : Pane
  pub active : get_elem? c.panes c.pane ≡ some pane
  pub at_place : cursor_after s out ≡ in_pane pane
