-- ===== src/Client/Focus.antt =====
-- The active pane of client.c after the shell of a pane ended (`client_loop`).
use mathlib.Core.Option
use mini_tmux.Base.{
  ℕ, zero, suc, ◌-◌, ◌<◌, ◌≡◌, ◌≢◌, refl, List, [], ◌∷◌, Option, none, some, false, true, arith,
  ltb, ◌==◌, if◌then◌else◌, length, ne→==_false, get_elem?, remove_at, Bool-cases, inl, inr, ◌∙◌,
}
use mini_tmux.Window.{Pane}
use mini_tmux.Client.{Client, act, closed}
use mini_tmux.Client.Loop.{choose_focus, place_without, drop_pane}

get_elem?-remove_at {ℓ} :
    {A : Type ℓ} (xs : List A) (i j : ℕ)
    → get_elem? (remove_at xs i) j ≡ (if ltb j i then get_elem? xs j else get_elem? xs (suc j))
unfolding remove_at
get_elem?-remove_at [] i j = ground arith
get_elem?-remove_at (x ∷ xs) zero j = ground arith
get_elem?-remove_at (x ∷ xs) (suc i) zero = ground arith
get_elem?-remove_at (x ∷ xs) (suc i) (suc j) = ground (arith, get_elem?-remove_at xs i j)

-- The pane that is active afterwards, by its place in the list before: the active one, or, if that
-- is the one at `i`, the pane behind it, or the one before it if it is the last.
abbrev pub survivor : ℕ → ℕ → ℕ → ℕ
survivor n i focus = if focus == i then (if ltb (suc i) n then suc i else i - 1) else focus

choose_focus-survivor :
    (n i focus : ℕ)
    → i < n
    → focus < n
    → n ≢ 1
    → (choose_focus n i focus ≡ survivor n i focus) × (survivor n i focus ≢ i)
unfolding choose_focus
choose_focus-survivor n i focus low active several = (ground arith, ground arith)

place_without-kept :
    (xs : List Pane) (i f : ℕ)
    → f ≢ i
    → Option.map (λ g. get_elem? (remove_at xs i) g) (place_without i f) ≡ some (get_elem? xs f)
unfolding place_without
place_without-kept xs i f other = rw (ne→==_false f i other) (elim (Bool-cases (ltb i f)) [
  | inl behind ↦
      let same : suc (f - 1) ≡ f = ground arith in
      let place : ltb (f - 1) i ≡ false = ground arith in
      rw (behind, get_elem?-remove_at xs i (f - 1), place, same) refl
  | inr before ↦
      let place : ltb f i ≡ true = ground arith in
      rw (before, get_elem?-remove_at xs i f, place) refl
])

drop_pane-place :
    (i : ℕ) (p : Pane) (c : Client)
    → Option.map (λ c'. get_elem? c'.panes c'.pane) (drop_pane i p c)
      ≡ Option.map
          (λ g. get_elem? (remove_at c.panes i) g)
          (place_without i (choose_focus (length c.panes) i c.pane))
unfolding drop_pane
drop_pane-place i p c = by_place (place_without i (choose_focus (length c.panes) i c.pane))
  where
    by_place :
        (o : Option ℕ)
        → Option.map
            (λ c'. get_elem? c'.panes c'.pane)
            (elim o [
              | none ↦ none
              | some focus ↦ some (
                  act
                    (record c { panes = remove_at c.panes i; pane = focus })
                    (closed p.master_fd ∷ []))
            ])
          ≡ Option.map (λ g. get_elem? (remove_at c.panes i) g) o
    by_place none = refl
    by_place (some focus) = refl

only_pane :
    (n i focus : ℕ) → i < n → focus < n → n ≡ 1 → place_without i (choose_focus n i focus) ≡ none
unfolding place_without choose_focus
only_pane n i focus low active one = ground arith

-- The shell of the pane at `i` ended, and some pane is active. If the client has another pane, the
-- pane at `i` goes without an access to freed memory, and then that pane is active which was active
-- before, or, if that was the pane at `i`, the pane behind it, or the one before it if it was the
-- last. If it is the only pane, the client reads the pane after it was freed.
pub drop_pane-survivor :
    (i : ℕ) (p : Pane) (c : Client)
    → i < length c.panes
    → c.pane < length c.panes
    → Option.map (λ c'. get_elem? c'.panes c'.pane) (drop_pane i p c) ≡ (
        if length c.panes == 1
        then none
        else some (get_elem? c.panes (survivor (length c.panes) i c.pane)))
drop_pane-survivor i p c low active = elim (Bool-cases (length c.panes == 1)) [
  | inl one ↦
      drop_pane-place i p c
      ∙ rw (one, only_pane (length c.panes) i c.pane low active (ground (arith, one))) refl
  | inr several ↦
      let (chosen, other) =
        choose_focus-survivor (length c.panes) i c.pane low active (ground (arith, several)) in
      drop_pane-place i p c ∙ rw (several, chosen) (place_without-kept c.panes i _ other)
]
