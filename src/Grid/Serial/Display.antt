-- ===== src/Grid/Serial/Display.antt =====
-- A restored grid shows what the saved one showed.
use native.Mathlib.Nat.{mod-eq_of_lt, mod-eq-sub-mod, add-mul}
use native.Mathlib.Decide.{dec_lt}
use mini_tmux.Base.{
  ℕ, ◌+◌, ◌-◌, ◌*◌, ◌%◌, ◌≤◌, ◌<◌, ◌≡◌, refl, List, [], ◌++◌, some, arith, ltb, leb, length, drop,
  slice, ap, ◌∙◌, mul32, Bool-cases, inl, inr, sym, replicate, slice-slice, slice-append_left,
  slice-append_right, slice-overlay_within, get_or, get_or-drop, length-drop, length-slice,
  length-overlay, length-replicate, lt→ltb, le→ltb_false,
}
use mini_tmux.Grid.{Cell, Grid, zero_cell, available, actual_slot, get_display_line}
use mini_tmux.Grid.History.{IsValid, available-le, actual_slot_lem}
use mini_tmux.Grid.Log.{Logged, row, rows_apart, line_cells, output_line, display_shows_output}
use mini_tmux.Grid.Serial.RoundTrip.{
  history_lines, length-history_lines, mul32_le, row_le, oldest-lt, rows_split,
}
use mini_tmux.Grid.Serial.Restore.{restored, restored_ring}

-- Row `m` of the ring turned round at row `o` is row `(o + m) % s` of it.
rotated_row :
    (o s m w : ℕ) (ring : List Cell)
    → o < s
    → m < s
    → length ring ≡ s * w
    → row w m (slice (o * w) ((s - o) * w) ring ++ slice 0 (o * w) ring) ≡ row w ((o + m) % s) ring
rotated_row o s m w ring ho hm len = elim (dec_lt m (s - o)) [
  | yes p ↦
      slice-append_left (m * w) w _ _ (omega (arith, left_length, rows_apart m (s - o) w p))
      ∙ (slice-slice (m * w) w (o * w) ((s - o) * w) ring (rows_apart m (s - o) w p)
          ∙ ap (λ t. slice t w ring)
              (sym (add-mul o m w) ∙ ap (λ t. t * w) (sym (mod-eq_of_lt (omega arith)))))
  | no p ↦
      let k : ℕ = m - (s - o) in
      ap (λ t. slice t w (slice (o * w) ((s - o) * w) ring ++ slice 0 (o * w) ring))
        (ap (λ t. t * w) (split_m (omega arith))
          ∙ (add-mul (s - o) k w ∙ ap (λ t. t + k * w) (sym left_length)))
      ∙ (slice-append_right (k * w) w _ _
          ∙ (slice-slice (k * w) w 0 (o * w) ring (rows_apart k o w (omega arith))
              ∙ ap (λ t. slice t w ring)
                  (zero_add (k * w) ∙ ap (λ t. t * w) (sym (wrapped (omega arith))))))
]
  where
    split : (s - o) * w + o * w ≡ s * w
    split = rows_split o s w (omega arith)

    left_length : length (slice (o * w) ((s - o) * w) ring) ≡ (s - o) * w
    left_length = length-slice (o * w) ((s - o) * w) ring (omega (arith, split))

    split_m : s - o ≤ m → m ≡ (s - o) + (m - (s - o))
    split_m h = omega arith

    zero_add : (n : ℕ) → 0 + n ≡ n
    zero_add n = omega arith

    wrapped : s - o ≤ m → (o + m) % s ≡ m - (s - o)
    wrapped h =
        mod-eq-sub-mod {n = o + m} {m = s} (omega arith)
        ∙ (mod-eq_of_lt {n = o + m - s} {m = s} (omega arith) ∙ back)
      where
        back : o + m - s ≡ m - (s - o)
        back = omega arith

module _ {g : Grid} {ring : List Cell} (v : IsValid g ring) where
  size_whole : mul32 g.history_size g.width ≡ g.history_size * g.width
  size_whole = mul32_le g.history_size g.history_size g.width (omega arith) v.ring_small

  length-restored_ring : length (restored_ring g ring) ≡ g.history_size * g.width
  length-restored_ring =
      length-overlay _ 0 (history_lines g ring)
      ∙ (length-replicate (mul32 g.history_size g.width) zero_cell ∙ size_whole)

  -- The restored grid is valid, over the ring that it was given.
  pub restored-IsValid : IsValid (restored g ring) (restored_ring g ring)
  restored-IsValid = record {
    allocated = refl;
    screen_fits = v.screen_fits;
    ring_fits = length-restored_ring;
    screen_small = v.screen_small;
    ring_small = v.ring_small;
    size_small = v.size_small;
    height_small = v.height_small;
    size_pos = v.size_pos;
    count_small = omega (arith, available-le v, v.count_small);
    scrolled = ground (arith, v.scrolled);
  }

  -- line `m` of the saved lines is in the slot where the display looks for it
  history_line_row :
      (m : ℕ)
      → m < available g
      → row g.width m (history_lines g ring) ≡ row g.width (actual_slot g m) ring
  history_line_row m h = elim (Bool-cases (leb g.history_count g.history_size)) [
    | inl fits ↦ rw fits (
        slice-slice (m * g.width) g.width 0 (g.history_count * g.width) ring
          (rows_apart m g.history_count g.width (omega (arith, available-le v)))
        ∙ ap (λ t. slice t g.width ring) (omega arith))
    | inr full ↦ rw full (
        rotated_row (g.history_count % g.history_size) g.history_size m g.width ring (oldest-lt v)
          (omega (arith, available-le v)) v.ring_fits
        ∙ ap (λ t. row g.width (t % g.history_size) ring)
            (sym (mod-eq_of_lt (omega (arith, oldest-lt v, available-le v, v.size_small)))))
  ]

  -- The restored ring holds the end of the log.
  pub restored-Logged :
      {log : List (List Cell)}
      → Logged g ring log
      → Logged (restored g ring) (restored_ring g ring) (drop (g.history_count - available g) log)
  restored-Logged {log} l = record {
    counted =
        omega (arith, length-drop (g.history_count - available g) log, l.counted, available-le v);
    kept = λ m h k. kept m h;
  }
    where
      fits :
          length (history_lines g ring)
          ≤ length (replicate (mul32 g.history_size g.width) zero_cell)
      fits = omega (
        arith,
        length-history_lines v,
        length-replicate (mul32 g.history_size g.width) zero_cell,
        size_whole,
        row_le (available g) g.history_size g.width (available-le v).0,
      )

      inside : (m : ℕ) → m < available g → m * g.width + g.width ≤ length (history_lines g ring)
      inside m h = omega (arith, length-history_lines v, rows_apart m (available g) g.width h)

      recent : (m : ℕ) → g.history_count ≤ g.history_count - available g + m + g.history_size
      recent m = ground arith

      kept :
          (m : ℕ)
          → m < available g
          → row g.width (m % g.history_size) (restored_ring g ring)
            ≡ get_or (drop (g.history_count - available g) log) m []
      kept m h =
          ap (λ t. row g.width t (restored_ring g ring))
            (mod-eq_of_lt (omega (arith, available-le v)))
          ∙ (slice-overlay_within _ (history_lines g ring) (m * g.width) g.width
                (omega (arith, fits)) (omega (arith, inside m h))
              ∙ (history_line_row m h
                  ∙ (ap (λ t. row g.width t ring) (actual_slot_lem v m h)
                      ∙ (l.kept (g.history_count - available g + m) (omega (arith, available-le v))
                            (omega (arith, recent m))
                          ∙ sym (get_or-drop (g.history_count - available g) m log [])))))

  pub display-restored :
      {log : List (List Cell)} (y : ℕ)
      → Logged g ring log
      → y < g.height
      → line_cells (restored g ring) (get_display_line (restored g ring) y)
        ≡ line_cells g (get_display_line g y)
  display-restored {log} y l h =
      display_shows_output restored-IsValid y (restored-Logged l) h
      ∙ (ap some same_line ∙ sym (display_shows_output v y l h))
    where
      same_line :
          output_line
            (restored g ring)
            (drop (g.history_count - available g) log)
            (available g - g.scroll_offset + y)
          ≡ output_line g log (g.history_count - g.scroll_offset + y)
      same_line = elim (Bool-cases (ltb y g.scroll_offset)) [
        | inl old ↦
            rw
              (
                lt→ltb (available g - g.scroll_offset + y) (available g)
                    (ground (arith, v.scrolled)),
                lt→ltb (g.history_count - g.scroll_offset + y) g.history_count
                    (ground (arith, v.scrolled)),
              )
              (get_or-drop (g.history_count - available g) _ log []
                ∙ ap (λ t. get_or log t []) (ground (arith, v.scrolled)))
        | inr new ↦
            rw
              (
                le→ltb_false (available g - g.scroll_offset + y) (available g)
                    (ground (arith, v.scrolled)),
                le→ltb_false (g.history_count - g.scroll_offset + y) g.history_count
                    (ground (arith, v.scrolled)),
              )
              (ap (λ t. row g.width t g.cells) (ground (arith, v.scrolled)))
      ]
