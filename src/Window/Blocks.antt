-- ===== src/Window/Blocks.antt =====
-- window.c: the memory that panes and windows take. Whether an allocation succeeds is an argument. A
-- block is named by what it holds and by the number of the pane or window that owns it; the list of
-- windows and panes is not part of it. `free` of a block that is not allocated is `none`.
use mini_tmux.Base.{
  ℕ, ◌≡◌, refl, List, [], ◌∷◌, Option, none, some, ◌>>=◌, Bool, true, false, ◌&&◌, ◌==◌, ==_iff,
  if◌then◌else◌,
}

pub data Kind : Type 0 where
  pane_block grid_block cells_block history_block terminal_block : Kind
  window_block name_block : Kind

-- the place of a kind in the list above
abbrev kind_number : Kind → ℕ
kind_number pane_block = 0
kind_number grid_block = 1
kind_number cells_block = 2
kind_number history_block = 3
kind_number terminal_block = 4
kind_number window_block = 5
kind_number name_block = 6

pub record Block : Type 0 where
  pub kind : Kind
  pub owner : ℕ

-- `free` of a block
unfoldable pub free_block : Kind → ℕ → List Block → Option (List Block)
free_block k n [] = none
free_block k n (b ∷ heap) =
    let rest = free_block k n heap in
    if kind_number b.kind == kind_number k && b.owner == n
    then some heap
    else elim rest [ none ↦ none | some heap' ↦ some (b ∷ heap') ]

-- `free` of a pointer, which may be NULL
abbrev pub free_pointer : Bool → Kind → ℕ → List Block → Option (List Block)
free_pointer false k n heap = some heap
free_pointer true k n heap = free_block k n heap

abbrev pub allocated : Bool → Kind → ℕ → List Block → List Block
allocated false k n heap = heap
allocated true k n heap = record { kind = k; owner = n } ∷ heap

-- which of the allocations of `pane_create` succeed
pub record PaneMemory : Type 0 where
  pub pane : Bool
  pub grid : Bool
  pub cells : Bool
  pub history : Bool
  pub terminal : Bool

-- `pane_create`: the pointers of the pane, `none` for NULL, and the heap
unfoldable pub create_pane_blocks : PaneMemory → ℕ → List Block → Option PaneMemory × List Block
create_pane_blocks k n heap =
    if k.pane
    then (if k.grid
        then (
          some k,
          allocated k.terminal terminal_block n (
              allocated k.history history_block n (
                allocated k.cells cells_block n
                  (allocated true grid_block n (allocated true pane_block n heap)))),
        )
        else (none, heap))
    else (none, heap)

-- `pane_destroy` of a pane with these pointers
unfoldable pub destroy_pane_blocks : PaneMemory → ℕ → List Block → Option (List Block)
destroy_pane_blocks p n heap = do
  a ← free_pointer p.terminal terminal_block n heap
  b ← free_pointer (p.grid && p.history) history_block n a
  c ← free_pointer (p.grid && p.cells) cells_block n b
  d ← free_pointer p.grid grid_block n c
  free_block pane_block n d

-- `window_create`, with a name or without: whether the name was copied, `none` for NULL
unfoldable pub create_window_blocks :
    (has_name window_works name_works : Bool) → ℕ → List Block → Option Bool × List Block
create_window_blocks has_name window_works name_works n heap =
    if window_works
    then (
      some (has_name && name_works),
      allocated (has_name && name_works) name_block n (allocated true window_block n heap),
    )
    else (none, heap)

unfoldable pub destroy_window_blocks : Bool → ℕ → List Block → Option (List Block)
destroy_window_blocks named n heap = do
  a ← free_pointer named name_block n heap
  free_block window_block n a

free_block_first :
    (k : Kind) (n : ℕ) (heap : List Block)
    → free_block k n (record { kind = k; owner = n } ∷ heap) ≡ some heap
unfolding free_block
free_block_first k n heap =
    rw ((==_iff (kind_number k) (kind_number k)).1 refl, (==_iff n n).1 refl) refl

free_pointer_first :
    (b : Bool) (k : Kind) (n : ℕ) (heap : List Block)
    → free_pointer b k n (allocated b k n heap) ≡ some heap
free_pointer_first false k n heap = refl
free_pointer_first true k n heap = free_block_first k n heap

-- what the heap is after the pane was made and destroyed, if it was made
abbrev destroyed : ℕ → Option PaneMemory × List Block → Option (List Block)
destroyed n (none, heap) = some heap
destroyed n (some p, heap) = destroy_pane_blocks p n heap

-- Whichever allocations fail, a pane that is made and destroyed leaves the heap as it was, and a pane
-- that cannot be made leaves nothing behind.
pub create_pane_blocks-destroyed :
    (k : PaneMemory) (n : ℕ) (heap : List Block)
    → destroyed n (create_pane_blocks k n heap) ≡ some heap
unfolding create_pane_blocks destroy_pane_blocks
create_pane_blocks-destroyed k n heap = by_answers k.pane k.grid k.cells k.history k.terminal
  where
    by_answers :
        (pane grid cells history terminal : Bool)
        → destroyed n (
            create_pane_blocks
              (record {
                pane = pane;
                grid = grid;
                cells = cells;
                history = history;
                terminal = terminal;
              })
              n
              heap)
          ≡ some heap
    by_answers false grid cells history terminal = refl
    by_answers true false cells history terminal = refl
    by_answers true true cells history terminal =
        let a =
          record { kind = grid_block; owner = n }
          ∷ record { kind = pane_block; owner = n }
          ∷ heap in
        let b = allocated cells cells_block n a in
        let c = allocated history history_block n b in
        rw
          (
            free_pointer_first terminal terminal_block n c,
            free_pointer_first history history_block n b,
            free_pointer_first cells cells_block n a,
            free_block_first grid_block n (record { kind = pane_block; owner = n } ∷ heap),
            free_block_first pane_block n heap,
          )
          refl

-- what the heap is after the window was made and destroyed, if it was made
abbrev window_destroyed : ℕ → Option Bool × List Block → Option (List Block)
window_destroyed n (none, heap) = some heap
window_destroyed n (some named, heap) = destroy_window_blocks named n heap

-- The same of a window.
pub create_window_blocks-destroyed :
    (has_name window_works name_works : Bool) (n : ℕ) (heap : List Block)
    → window_destroyed n (create_window_blocks has_name window_works name_works n heap) ≡ some heap
unfolding create_window_blocks destroy_window_blocks
create_window_blocks-destroyed has_name false name_works n heap = refl
create_window_blocks-destroyed has_name true name_works n heap =
    rw
      (
        free_pointer_first (has_name && name_works) name_block n
            (record { kind = window_block; owner = n } ∷ heap),
        free_block_first window_block n heap,
      )
      refl
