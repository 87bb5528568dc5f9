-- ===== src/Render/Screen.antt =====
-- What a terminal shows of the writes of render.c, and that the attributes written only where they
-- change give each cell its own.
use mini_tmux.Base.{
  ℕ, zero, suc, ◌≤◌, ◌≡◌, refl, List, [], ◌∷◌, ◌++◌, Option, none, some, Bool, true, false, ◌&&◌,
  not, ◌==◌, if◌then◌else◌, arith, length, take, All, append_assoc, ap, ap₂, ◌∙◌, sym, ==_iff,
}
use mini_tmux.Grid.{Cell}
use mini_tmux.Render.{
  Out, hide_cursor, show_cursor, home, clear, move, reset, bold, underline, italic, reverse, fg, bg,
  bar_colors, border_color, clear_line, text, Attrs, attrs_of, same_attrs, has_bit, write_if,
  set_attrs, shown_text, covered, draw_cells,
}

-- how the terminal paints; a colour of `none` is the default one
pub record Pen : Type 0 where
  pub bold : Bool
  pub underline : Bool
  pub italic : Bool
  pub reverse : Bool
  pub fg : Option ℕ
  pub bg : Option ℕ

abbrev pub plain : Pen
plain = record {
  bold = false;
  underline = false;
  italic = false;
  reverse = false;
  fg = none;
  bg = none;
}

-- the pen of a cell
abbrev pub pen_of : Attrs → Pen
pen_of a = record {
  bold = has_bit a.attr 1;
  underline = has_bit a.attr 2;
  italic = has_bit a.attr 4;
  reverse = has_bit a.attr 8;
  fg = if has_bit a.flags 1 then none else some a.fg;
  bg = if has_bit a.flags 2 then none else some a.bg;
}

-- What the terminal does that can be seen: the cursor shown or hidden, moved to the first place or to
-- one given, the screen or a line cleared, a text painted at the cursor.
pub data Paint : Type 0 where
  cursor : Bool → Paint
  to_home cleared line_cleared : Paint
  at : (row col : ℕ) → Paint
  painted : Pen → List ℕ → Paint

unfoldable pub pen_after : Pen → Out → Pen
pen_after pen reset = plain
pen_after pen bold = record pen { bold = true }
pen_after pen underline = record pen { underline = true }
pen_after pen italic = record pen { italic = true }
pen_after pen reverse = record pen { reverse = true }
pen_after pen (fg n) = record pen { fg = some n }
pen_after pen (bg n) = record pen { bg = some n }
pen_after pen bar_colors = record pen { fg = some 15; bg = some 4 }
pen_after pen border_color = record pen { fg = some 4 }
pen_after pen _ = pen

unfoldable pub pen_after_all : Pen → List Out → Pen
unfolding pen_after
pen_after_all pen [] = pen
pen_after_all pen (o ∷ os) = pen_after_all (pen_after pen o) os

unfoldable pub seen : Pen → Out → List Paint
seen pen hide_cursor = cursor false ∷ []
seen pen show_cursor = cursor true ∷ []
seen pen home = to_home ∷ []
seen pen clear = cleared ∷ []
seen pen clear_line = line_cleared ∷ []
seen pen (move r c) = at r c ∷ []
seen pen (text t) = painted pen t ∷ []
seen pen _ = []

-- what the writes show on a terminal that starts with `pen`
unfoldable pub paint : Pen → List Out → List Paint
unfolding pen_after seen
paint pen [] = []
paint pen (o ∷ os) = seen pen o ++ paint (pen_after pen o) os

pub paint-append :
    (pen : Pen) (xs ys : List Out)
    → paint pen (xs ++ ys) ≡ paint pen xs ++ paint (pen_after_all pen xs) ys
unfolding paint pen_after_all
paint-append pen [] ys = refl
paint-append pen (x ∷ xs) ys =
    rw (paint-append (pen_after pen x) xs ys)
      (sym (append_assoc (seen pen x) (paint (pen_after pen x) xs) _))

pub pen_after_all-append :
    (pen : Pen) (xs ys : List Out)
    → pen_after_all pen (xs ++ ys) ≡ pen_after_all (pen_after_all pen xs) ys
unfolding pen_after_all
pen_after_all-append pen [] ys = refl
pen_after_all-append pen (x ∷ xs) ys = pen_after_all-append (pen_after pen x) xs ys

-- the writes that set a pen from its parts
abbrev set_parts : (b u i r df db : Bool) → ℕ → ℕ → List Out
set_parts b u i r df db m n =
    reset
    ∷ (write_if b bold
        ++ (write_if u underline
            ++ (write_if i italic
                ++ (write_if r reverse ++ (write_if (not df) (fg m) ++ write_if (not db) (bg n))))))

abbrev pen_parts : (b u i r df db : Bool) → ℕ → ℕ → Pen
pen_parts b u i r df db m n = record {
  bold = b;
  underline = u;
  italic = i;
  reverse = r;
  fg = if df then none else some m;
  bg = if db then none else some n;
}

pen_after_all-set_parts :
    (b u i r df db : Bool) (m n : ℕ) (pen : Pen)
    → pen_after_all pen (set_parts b u i r df db m n) ≡ pen_parts b u i r df db m n
unfolding pen_after_all
pen_after_all-set_parts b u i r df db m n pen = ground arith

paint-set_parts :
    (b u i r df db : Bool) (m n : ℕ) (pen : Pen) → paint pen (set_parts b u i r df db m n) ≡ []
unfolding paint
paint-set_parts b u i r df db m n pen = ground arith

pen_after_all-set_attrs : (a : Attrs) (pen : Pen) → pen_after_all pen (set_attrs a) ≡ pen_of a
unfolding set_attrs
pen_after_all-set_attrs a pen = pen_after_all-set_parts _ _ _ _ _ _ a.fg a.bg pen

paint-set_attrs : (a : Attrs) (pen : Pen) → paint pen (set_attrs a) ≡ []
unfolding set_attrs
paint-set_attrs a pen = paint-set_parts _ _ _ _ _ _ a.fg a.bg pen

-- the columns of a line that are not covered by the cell in front, each with the pen of its cell
unfoldable pub glyphs : ℕ → List Cell → List Paint
glyphs skip [] = []
glyphs (suc skip) (c ∷ cs) = glyphs skip cs
glyphs zero (c ∷ cs) =
    painted (pen_of (attrs_of c)) (elim (shown_text c) [ none ↦ [] | some t ↦ t ])
    ∷ glyphs (covered c) cs

-- A cell whose text ends inside `ch`.
pub record HasText (c : Cell) : Type 0 where
  pub shown : List ℕ
  pub ends : shown_text c ≡ some shown

and_true : (p q : Bool) → (p && q) ≡ true → (p ≡ true) × (q ≡ true)
and_true true true e = (refl, refl)
and_true true false e = absurd (cc)
and_true false q e = absurd (cc)

pen_of-same : (c : Cell) (a : Attrs) → same_attrs c a ≡ true → pen_of (attrs_of c) ≡ pen_of a
pen_of-same c a e =
    let (e1, r1) = and_true (c.fg == a.fg) _ e in
    let (e2, r2) = and_true (c.bg == a.bg) _ r1 in
    let (e3, e4) = and_true (c.attr == a.attr) _ r2 in
    pen_eq ((==_iff _ _).0 e1) ((==_iff _ _).0 e2) ((==_iff _ _).0 e3) ((==_iff _ _).0 e4)
  where
    pen_eq :
        c.fg ≡ a.fg
        → c.bg ≡ a.bg
        → c.attr ≡ a.attr
        → c.flags ≡ a.flags
        → pen_of (attrs_of c) ≡ pen_of a
    pen_eq w x y z = λ i. pen_of (record { fg = w i; bg = x i; attr = y i; flags = z i })

-- The writes `r.0` show `view` on a terminal whose pen is that of the attributes set last, and leave
-- it that of the attributes `r.1`.
pub record Shown (a : Attrs) (view : List Paint) (r : List Out × Attrs) : Type 0 where
  pub shows : paint (pen_of a) r.0 ≡ view
  pub pen : pen_after_all (pen_of a) r.0 ≡ pen_of r.1

-- One cell drawn in front of what follows it.
draw_one :
    (a a' : Attrs) (c : Cell) (pre : List Out) (t : List ℕ) (cs : List Cell) (r : List Out × Attrs)
    → paint (pen_of a) pre ≡ []
    → pen_after_all (pen_of a) pre ≡ pen_of a'
    → pen_of a' ≡ pen_of (attrs_of c)
    → shown_text c ≡ some t
    → Shown a' (glyphs (covered c) cs) r
    → Shown a (glyphs 0 (c ∷ cs)) (pre ++ (text t ∷ r.0), r.1)
unfolding paint pen_after_all glyphs
draw_one a a' c pre t cs r quiet penned same_pen shown d = record {
  shows =
      paint-append (pen_of a) pre (text t ∷ r.0)
      ∙ (ap₂ (λ u v. u ++ v) quiet (ap (λ p. paint p (text t ∷ r.0)) penned)
          ∙ ap₂ (λ u v. u ∷ v)
              (ap₂ painted same_pen
                (sym (ap (λ o. elim o as (λ _. List ℕ) [ none ↦ [] | some x ↦ x ]) shown)))
              d.shows);
  pen =
      pen_after_all-append (pen_of a) pre (text t ∷ r.0)
      ∙ (ap (λ p. pen_after_all p (text t ∷ r.0)) penned ∙ d.pen);
}

draw_cells_cons :
    (a : Attrs) (n : ℕ) (c : Cell) (cs : List Cell) (t : List ℕ) (r : List Out × Attrs)
    → shown_text c ≡ some t
    → draw_cells (if same_attrs c a then a else attrs_of c) (covered c) n cs ≡ some r
    → draw_cells a 0 (suc n) (c ∷ cs)
      ≡ some ((if same_attrs c a then [] else set_attrs (attrs_of c)) ++ (text t ∷ r.0), r.1)
unfolding draw_cells
draw_cells_cons a n c cs t r shown e = rw (shown, e, draw_cells) refl

-- the writes in front of a cell, by whether its attributes are those set last
prefix_lem :
    (a : Attrs) (c : Cell) (same : Bool)
    → (same ≡ true → pen_of (attrs_of c) ≡ pen_of a)
    → (paint (pen_of a) (if same then [] else set_attrs (attrs_of c)) ≡ [])
      × (pen_after_all (pen_of a) (if same then [] else set_attrs (attrs_of c))
          ≡ pen_of (if same then a else attrs_of c))
      × (pen_of (if same then a else attrs_of c) ≡ pen_of (attrs_of c))
unfolding paint pen_after_all
prefix_lem a c true h = (refl, refl, sym (h refl))
prefix_lem a c false h =
    (paint-set_attrs (attrs_of c) (pen_of a), pen_after_all-set_attrs (attrs_of c) (pen_of a), refl)

-- The writes for a line of cells with texts show each cell that is not covered, with its own pen.
pub draw_cells-Shown :
    (a : Attrs) (skip n : ℕ) (cs : List Cell)
    → n ≤ length cs
    → All HasText cs
    → (r : List Out × Attrs) × (draw_cells a skip n cs ≡ some r)
      × Shown a (glyphs skip (take n cs)) r
unfolding draw_cells glyphs paint pen_after_all
draw_cells-Shown a skip zero cs h ok = (([], a), refl, record { shows = refl; pen = refl })
draw_cells-Shown a zero (suc n) [] h ok = absurd (omega arith)
draw_cells-Shown a (suc skip) (suc n) [] h ok = absurd (omega arith)
draw_cells-Shown a (suc skip) (suc n) (c ∷ cs) h ok =
    let (r, e, d) = draw_cells-Shown a skip n cs (omega arith) ok.1 in
    (r, e, record { shows = d.shows; pen = d.pen })
draw_cells-Shown a zero (suc n) (c ∷ cs) h ok =
    let a' = if same_attrs c a then a else attrs_of c in
    let pre = if same_attrs c a then [] else set_attrs (attrs_of c) in
    let t = ok.0.shown in
    let (r, e, d) = draw_cells-Shown a' (covered c) n cs (omega arith) ok.1 in
    let (quiet, penned, same_pen) = prefix_lem a c (same_attrs c a) (pen_of-same c a) in
    (
      (pre ++ (text t ∷ r.0), r.1),
      draw_cells_cons a n c cs t r ok.0.ends e,
      draw_one a a' c pre t (take n cs) r quiet penned same_pen ok.0.ends d,
    )
