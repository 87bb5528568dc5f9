-- ===== src/Render/Status.antt =====
-- `render_status_bar` of render.c: the width of its texts, and the line that it fills.
use mini_tmux.Base.{
  ℕ, zero, suc, ◌+◌, ◌-◌, ◌/◌, ◌≤◌, ◌<◌, ◌≡◌, refl, List, [], ◌∷◌, ◌++◌, Option, none, some, false,
  ltb, leb, ◌==◌, if◌then◌else◌, arith, length, add32, sub32, u32, Bool-cases, inl, inr, leb→le,
}
use mini_tmux.Window
use mini_tmux.Render.{
  Out, hide_cursor, move, bar_colors, text, clear_line, reset, place_cursor, space,
}

-- how many bytes the character takes that a byte starts, and how many columns it counts for
abbrev pub char_bytes : ℕ → ℕ
char_bytes b =
    if ltb b 0x80
    then 1
    else if b / 32 == 6
    then 2
    else if b / 16 == 14
    then 3
    else if b / 8 == 30
    then 4
    else 1

abbrev pub char_columns : ℕ → ℕ
char_columns b =
    if ltb b 0x80
    then 1
    else if b / 32 == 6
    then 1
    else if b / 16 == 14
    then 2
    else if b / 8 == 30
    then 2
    else 1

-- The columns of a text, of whose bytes the first `skip` are passed over; a character that is cut
-- off by the end of the text leads past its NUL.
unfoldable pub display_width : ℕ → List ℕ → Option ℕ
display_width zero [] = some 0
display_width (suc skip) [] = none
display_width (suc skip) (b ∷ bs) = display_width skip bs
display_width zero (b ∷ bs) = elim (display_width (char_bytes b - 1) bs) [
  | none ↦ none
  | some n ↦ some (char_columns b + n)
]

-- The loop that fills the line, with `n` columns to go, of which column `i` is the next:
-- `i >= cols - 1 - vstr_len`, as `unsigned int`, ends it with the version.
unfoldable pub fill : List ℕ → ℕ → ℕ → ℕ → List Out
fill version cols i zero = []
fill version cols i (suc n) =
    let rest = text space ∷ fill version cols (suc i) n in
    if leb (sub32 (sub32 cols 1) (length version)) i then text version ∷ text space ∷ [] else rest

-- The texts of the bar: the name of the window, the mark of the history and the version; `snprintf`
-- cuts none of them to the buffer.
pub record BarTexts : Type 0 where
  pub window_name : List ℕ
  pub history_mark : List ℕ
  pub version : List ℕ

-- the mark of the history, when the pane shows it, with its width
unfoldable pub bar_mark : BarTexts → Window.Pane → Option (List Out × ℕ)
bar_mark t p = elim p.grid.scroll_offset [
  | zero ↦ some ([], 0)
  | suc n ↦ elim (display_width 0 t.history_mark) [
    | none ↦ none
    | some h ↦ some (text t.history_mark ∷ [], h)
  ]
]

-- the line, with the mark, of which `used` columns are taken
abbrev pub bar_line : BarTexts → ℕ → ℕ → ℕ → Window.Pane → List Out → List Out
bar_line t rows cols used p mark =
    hide_cursor
    ∷ move (add32 rows 1) 1
    ∷ bar_colors
    ∷ text (b' ' ∷ (t.window_name ++ space))
    ∷ (mark
        ++ (fill t.version cols used (cols - used)
            ++ (clear_line ∷ reset ∷ (if p.grid.scroll_offset == 0 then place_cursor p else []))))

-- what `render_status_bar` writes for the active pane, in a window of `rows` and `cols`
unfoldable pub render_status_bar : BarTexts → ℕ → ℕ → Window.Pane → Option (List Out)
render_status_bar t rows cols p = elim (display_width 0 t.window_name) [
  | none ↦ none
  | some w ↦ elim (bar_mark t p) [
    | none ↦ none
    | some (mark, h) ↦ some (bar_line t rows cols (add32 (add32 2 w) h) p mark)
  ]
]

-- the columns that texts of plain characters take
unfoldable pub columns : List Out → ℕ
columns [] = 0
columns (text t ∷ os) = length t + columns os
columns (_ ∷ os) = columns os

leb_false→lt : (a b : ℕ) → leb a b ≡ false → b < a
leb_false→lt a b h = ground arith

-- When there is space for the version, a column in front of it and one behind, the filled part
-- ends at the last column exactly.
pub columns-fill :
    (version : List ℕ) (cols i n : ℕ)
    → cols < u32
    → i + n ≡ cols
    → i + (length version + 1) ≤ cols
    → columns (fill version cols i n) ≡ n
unfolding fill columns
columns-fill version cols i zero small e h = refl
columns-fill version cols i (suc n) small e h =
    let last : sub32 (sub32 cols 1) (length version) ≡ cols - 1 - length version = omega arith in
    elim (Bool-cases (leb (sub32 (sub32 cols 1) (length version)) i)) [
      | inl ends ↦ let at_end = leb→le _ i ends in rw (ends, fill) (omega (arith, last, at_end))
      | inr goes ↦
          let before = leb_false→lt _ i goes in
          rw (goes, fill)
            (omega (
              arith,
              columns-fill version cols (suc i) n small (omega arith) (omega (arith, last, before)),
            ))
    ]
