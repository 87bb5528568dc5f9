-- ===== src/Client/Draw/Iteration.antt =====
-- What an iteration of `client_loop` of client.c leaves on the screen: the cursor, and the status bar.
use mini_tmux.Base.{
  List, [], ◌∷◌, ◌++◌, ◌≡◌, refl, none, some, ◌>>=◌, Bool, true, false, ◌&&◌, not, if◌then◌else◌,
  ap, ◌∙◌, sym, subst, get_elem?, length, add32, Option-cases, inl, inr,
}
use mathlib.Core.Option.{some-injective}
use mini_tmux.Window.{Pane}
use mini_tmux.Render.{Out, main_screen, write_if}
use mini_tmux.Render.Status.{BarTexts}
use mini_tmux.Client.{Client, Answers}
use mini_tmux.Client.Machine.{dispatch_event, ev_eof_pty, ev_stdin_read}
use mini_tmux.Client.Loop.{Ready, read_panes, fit_panes, serve_fds}
use mini_tmux.Client.Draw.{
  draw_reads, draw_rest, redraw, finish_draw, loop_draw, draw_bar, move_cursor,
}
use mini_tmux.Client.Draw.Cursor.{
  CursorState, cursor_after, cursor_after-append, bind_some, draw_bar-visible, CursorAtEnd,
}

finish_draw-some :
    (t : BarTexts) (drawn : List Out) (c : Client) (r : Client × List Out)
    → finish_draw t drawn c ≡ some r
    → (p : Pane) × (bar : List Out) × (get_elem? c.panes c.pane ≡ some p)
      × (draw_bar t c p ≡ some bar)
      × (r ≡ (c, drawn ++ (bar ++ (move_cursor p ∷ []))))
unfolding finish_draw
finish_draw-some t drawn c r e = elim (Option-cases (get_elem? c.panes c.pane)) [
  | inl n ↦ absurd (none_some (sym (rw (n, finish_draw) refl) ∙ e))
  | inr (p, q) ↦ elim (Option-cases (draw_bar t c p)) [
    | inl n ↦ absurd (none_some (sym (rw (q, n, finish_draw) refl) ∙ e))
    | inr (bar, q') ↦ (
      p,
      bar,
      q,
      q',
      sym (
          some-injective (c, drawn ++ (bar ++ (move_cursor p ∷ []))) r
            (sym (rw (q, q', finish_draw) refl) ∙ e)),
    )
  ]
]
  where
    none_some : {x : Client × List Out} → none ≡ some x → ⊥
    none_some h = absurd (cc)

finish-CursorAtEnd :
    (t : BarTexts) (drawn bar : List Out) (c : Client) (p : Pane) (s : CursorState)
    → get_elem? c.panes c.pane ≡ some p
    → draw_bar t c p ≡ some bar
    → CursorAtEnd c s (drawn ++ (bar ++ (move_cursor p ∷ [])))
finish-CursorAtEnd t drawn bar c p s e e' = record {
  pane = p;
  active = e;
  at_place =
      cursor_after-append s drawn (bar ++ (move_cursor p ∷ []))
      ∙ (cursor_after-append (cursor_after s drawn) bar (move_cursor p ∷ [])
          ∙ ap
              (λ v. record {
                visible = v;
                place = some (add32 (add32 p.yoff p.cy) 1, add32 (add32 p.xoff p.cx) 1);
              })
              (draw_bar-visible t c p bar (cursor_after s drawn) e'));
}

-- The steps of an iteration that draws.
record Steps (t : BarTexts) (k : Answers) (r : Ready) (c : Client) (q : Client × List Out)
    : Type 0 where
  c1 : Client
  c2 : Client
  c3 : Client
  removed : Bool
  drawn : List Out
  redrawn : List Out
  told : (if r.server_closed then dispatch_event k ev_eof_pty c else some c) ≡ some c1
  reads : read_panes r (length c1.panes) 0 false c1 ≡ some (c2, removed)
  fits : (if removed && not c2.child_exited then fit_panes k c2 else some c2) ≡ some c3
  finish : finish_draw t ((write_if c1.child_exited main_screen ++ drawn) ++ redrawn) c3 ≡ some q

loop_draw-Steps :
    (t : BarTexts) (k : Answers) (r : Ready) (c : Client) (q : Client × List Out)
    → loop_draw t k r c ≡ some q
    → Steps t k r c q
unfolding loop_draw draw_rest
loop_draw-Steps t k r c q e =
    let start = λ (x : Client). write_if x.child_exited main_screen in
    let (c1, told, e1) =
      bind_some (if r.server_closed then dispatch_event k ev_eof_pty c else some c)
        (λ x. draw_reads r (length x.panes) 0 x >>= λ y.
          read_panes r (length x.panes) 0 false x >>= draw_rest t k (start x ++ y))
        q e in
    let (drawn, _, e2) =
      bind_some (draw_reads r (length c1.panes) 0 c1)
        (λ y. read_panes r (length c1.panes) 0 false c1 >>= draw_rest t k (start c1 ++ y)) q e1 in
    let (m, reads, e3) =
      bind_some (read_panes r (length c1.panes) 0 false c1) (draw_rest t k (start c1 ++ drawn)) q
        e2 in
    let (c3, fits, e4) =
      bind_some (if m.1 && not m.0.child_exited then fit_panes k m.0 else some m.0)
        (λ x. (if m.1 && not m.0.child_exited then redraw t x else some []) >>= λ y.
          finish_draw t ((start c1 ++ drawn) ++ y) x)
        q e3 in
    let (redrawn, _, e5) =
      bind_some (if m.1 && not m.0.child_exited then redraw t c3 else some [])
        (λ y. finish_draw t ((start c1 ++ drawn) ++ y) c3) q e4 in
    record {
      c1 = c1;
      c2 = m.0;
      c3 = c3;
      removed = m.1;
      drawn = drawn;
      redrawn = redrawn;
      told = told;
      reads = reads;
      fits = fits;
      finish = e5;
    }

serve_fds_lem :
    (k : Answers) (r : Ready) (c c1 c2 c3 : Client) (removed : Bool)
    → (if r.server_closed then dispatch_event k ev_eof_pty c else some c) ≡ some c1
    → read_panes r (length c1.panes) 0 false c1 ≡ some (c2, removed)
    → (if removed && not c2.child_exited then fit_panes k c2 else some c2) ≡ some c3
    → serve_fds k r c ≡ (if r.stdin_ready then dispatch_event k ev_stdin_read c3 else some c3)
unfolding serve_fds
serve_fds_lem k r c c1 c2 c3 removed told reads fits = rw (told, reads, fits, serve_fds) refl

-- In an iteration in which `select` succeeded and the terminal has no input, if it draws at all, the
-- client goes on as `serve_fds` says, and the cursor is at the place of the active pane's cursor,
-- whatever was drawn before. It is shown if the pane shows its screen, and hidden in the history.
pub loop_draw-CursorAtEnd :
    (t : BarTexts) (k : Answers) (r : Ready) (c c' : Client) (out : List Out) (s : CursorState)
    → loop_draw t k r c ≡ some (c', out)
    → r.stdin_ready ≡ false
    → (serve_fds k r c ≡ some c') × CursorAtEnd c' s out
loop_draw-CursorAtEnd t k r c c' out s e quiet =
    let q = loop_draw-Steps t k r c (c', out) e in
    let (p, bar, at, made, same) =
      finish_draw-some t ((write_if q.c1.child_exited main_screen ++ q.drawn) ++ q.redrawn) q.c3
        (c', out) q.finish in
    (
      serve_fds_lem k r c q.c1 q.c2 q.c3 q.removed q.told q.reads q.fits
          ∙ (ap (λ b. if b then dispatch_event k ev_stdin_read q.c3 else some q.c3) quiet
              ∙ ap some (sym (ap (λ (x : Client × List Out). x.0) same))),
      subst (λ (x : Client × List Out). CursorAtEnd x.0 s x.1) (sym same)
          (finish-CursorAtEnd t ((write_if q.c1.child_exited main_screen ++ q.drawn) ++ q.redrawn)
            bar q.c3 p s at made),
    )

-- In an iteration in which the server closed the connection, and the client so left its screen for
-- the main screen, if it draws at all, it then draws the status bar there.
pub loop_draw_after_close :
    (t : BarTexts) (k : Answers) (r : Ready) (c c1 c' : Client) (out : List Out)
    → r.server_closed ≡ true
    → dispatch_event k ev_eof_pty c ≡ some c1
    → c1.child_exited ≡ true
    → loop_draw t k r c ≡ some (c', out)
    → (p : Pane) × (bar : List Out) × (drawn : List Out) × (draw_bar t c' p ≡ some bar)
      × (out ≡ main_screen ∷ (drawn ++ (bar ++ (move_cursor p ∷ []))))
loop_draw_after_close t k r c c1 c' out closed told gone e =
    let q = loop_draw-Steps t k r c (c', out) e in
    let (p, bar, at, made, same) =
      finish_draw-some t ((write_if q.c1.child_exited main_screen ++ q.drawn) ++ q.redrawn) q.c3
        (c', out) q.finish in
    let first : q.c1 ≡ c1 = some-injective q.c1 c1 (
      sym q.told ∙ (ap (λ b. if b then dispatch_event k ev_eof_pty c else some c) closed ∙ told)) in
    (
      p,
      bar,
      q.drawn ++ q.redrawn,
      ap (λ (x : Client × List Out). draw_bar t x.0 p) same ∙ made,
      ap (λ (x : Client × List Out). x.1) same
          ∙ ap
              (λ b.
                ((write_if b main_screen ++ q.drawn) ++ q.redrawn) ++ (bar ++ (move_cursor p ∷ [])))
              (ap (λ (x : Client). x.child_exited) first ∙ gone),
    )
