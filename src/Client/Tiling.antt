-- ===== src/Client/Tiling.antt =====
-- The layout of the panes (client.c): side by side from the first column, one column of border
-- between two, all of one height.
use native.Mathlib.Nat.{mod-eq_of_lt}
use mini_tmux.Base.{
  ℕ, suc, ◌+◌, ◌*◌, ◌^◌, ◌<◌, ◌≡◌, refl, List, [], ◌∷◌, ◌++◌, some, arith, All, length, add32, ◌∙◌,
  ap, sym, subst, length-replicate, mul32, ℤ,
}
use mini_tmux.Grid.{zero_cell, init_history}
use mini_tmux.Window.{Vterm, Pane, pane_resize, pane_create, pane_set_master_fd}
use mini_tmux.Window.History.{HasRoom}
use mini_tmux.Window.Resize.{IsPane, pane_resize-Resized}
use mini_tmux.Client.{lay_out}

-- The panes stand from column `x` on, and `end` is the column behind the border of the last.
unfoldable pub Tiles : ℕ → ℕ → List Pane → ℕ → Type 0
Tiles x h [] end = x ≡ end
Tiles x h (p ∷ ps) end =
    (p.xoff ≡ x) × (p.sy ≡ h) × (0 < p.sx) × IsPane p × Tiles (x + p.sx + 1) h ps end

-- A pane that can be resized to `w` columns.
pub record CanTake (w : ℕ) (p : Pane) : Type 0 where
  pub is_pane : IsPane p
  pub has_room : HasRoom p.grid w

-- the panes of a layout, and the column behind them
pub record LaidOut (x w h : ℕ) (ps ps' : List Pane) : Type 0 where
  pub tiles : Tiles x h ps' (x + length ps * (w + 1))
  pub count_same : length ps' ≡ length ps

IsPane-xoff : (p : Pane) (x : ℕ) → IsPane p → IsPane (record p { xoff = x })
IsPane-xoff p x v = record {
  screen_fits = v.screen_fits;
  screen_small = v.screen_small;
  width_same = v.width_same;
  height_same = v.height_same;
}

lay_out_cons :
    (vt : Vterm) (w h x : ℕ) (p : Pane) (ps : List Pane) (p' : Pane) (ps' : List Pane) (end : ℕ)
    → pane_resize vt p w h ≡ some p'
    → lay_out vt w h (add32 x (add32 w 1)) ps ≡ some (ps', end)
    → lay_out vt w h x (p ∷ ps) ≡ some (record p' { xoff = x } ∷ ps', end)
unfolding lay_out
lay_out_cons vt w h x p ps p' ps' end e e' = rw (e, e', lay_out) refl

pub lay_out-LaidOut :
    (vt : Vterm) (w h x : ℕ) (ps : List Pane)
    → 0 < w
    → 0 < h
    → h * w < 2 ^ 31
    → x + length ps * (w + 1) < 2 ^ 31
    → All (CanTake w) ps
    → (ps' : List Pane) × (lay_out vt w h x ps ≡ some (ps', x + length ps * (w + 1)))
      × LaidOut x w h ps ps'
unfolding lay_out Tiles
lay_out-LaidOut vt w h x [] a b c d ok =
    let end : x ≡ x + 0 * (w + 1) = omega arith in
    ([], ap (λ e. some ([], e)) end, record { tiles = end; count_same = refl })
lay_out-LaidOut vt w h x (p ∷ ps) a b c d ok =
    let (p', e, r) = pane_resize-Resized vt p w h ok.0.is_pane a b c ok.0.has_room in
    let more : length (p ∷ ps) * (w + 1) ≡ (w + 1) + length ps * (w + 1) = omega arith in
    let next : add32 x (add32 w 1) ≡ x + w + 1 = omega (arith, more) in
    let end : x + w + 1 + length ps * (w + 1) ≡ x + length (p ∷ ps) * (w + 1) =
      omega (arith, more) in
    let (ps', e', l) = lay_out-LaidOut vt w h (x + w + 1) ps a b c (omega (arith, end)) ok.1 in
    (
      record p' { xoff = x } ∷ ps',
      lay_out_cons vt w h x p ps p' ps' (x + length (p ∷ ps) * (w + 1)) e (
          subst (λ y. lay_out vt w h y ps ≡ some (ps', x + length (p ∷ ps) * (w + 1))) (sym next)
            (subst (λ y. lay_out vt w h (x + w + 1) ps ≡ some (ps', y)) end e')),
      record {
        tiles = (
          refl,
          r.size.1,
          subst (λ y. 0 < y) (sym r.size.0) a,
          IsPane-xoff p' x r.is_pane,
          subst (λ y. Tiles (x + y + 1) h ps' (x + length (p ∷ ps) * (w + 1))) (sym r.size.0)
              (subst (λ y. Tiles (x + w + 1) h ps' y) end l.tiles),
        );
        count_same = ap suc l.count_same;
      },
    )

-- A pane behind the last.
pub Tiles-snoc :
    (x h : ℕ) (ps : List Pane) (end : ℕ) (p : Pane)
    → Tiles x h ps end
    → p.xoff ≡ end
    → p.sy ≡ h
    → 0 < p.sx
    → IsPane p
    → Tiles x h (ps ++ (p ∷ [])) (end + p.sx + 1)
unfolding Tiles
Tiles-snoc x h [] end p t a b c d = (a ∙ sym t, b, c, d, ap (λ y. y + p.sx + 1) t)
Tiles-snoc x h (q ∷ ps) end p t a b c d =
    (t.0, t.1, t.2, t.3, Tiles-snoc (x + q.sx + 1) h ps end p t.4 a b c d)

-- A new pane is one of its size.
pub pane_create-IsPane : (id w h x y : ℕ) → h * w < 2 ^ 31 → IsPane (pane_create id w h x y)
unfolding pane_create init_history
pane_create-IsPane id w h x y small =
    let c : w * h ≡ h * w = grind arith in
    record {
      screen_fits = length-replicate (mul32 w h) zero_cell ∙ mod-eq_of_lt (omega (arith, c)) ∙ c;
      screen_small = small;
      width_same = refl;
      height_same = refl;
    }

pub IsPane-connected : (p : Pane) (fd : ℤ) → IsPane p → IsPane (pane_set_master_fd p fd)
unfolding pane_set_master_fd
IsPane-connected p fd v = record {
  screen_fits = v.screen_fits;
  screen_small = v.screen_small;
  width_same = v.width_same;
  height_same = v.height_same;
}
