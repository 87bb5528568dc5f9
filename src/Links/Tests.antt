-- ===== src/Links/Tests.antt =====
-- A list of the nodes 2 and 3 at node 1; the theorems about lists at it.
use mini_tmux.Base.{ℕ, ◌<◌, ◌≡◌, ◌≢◌, refl, [], ◌∷◌, some, arith}
use mini_tmux.Links.{Heap, entries, list_for_each, stored}
use mini_tmux.Links.Chain.{Chain, Distinct}
use mini_tmux.Links.Ring.{IsList, Deleted}
use mini_tmux.Links.Deletion.{list_del-Deleted}

abbrev unset : ℕ → ℕ
unset a = 0

abbrev heap : Heap
heap = record {
  next = stored (stored (stored unset 1 2) 2 3) 3 1;
  prev = stored (stored (stored unset 2 1) 3 2) 1 3;
}

less_apart : (m n : ℕ) → m < n → m ≢ n
less_apart m n h e = absurd (omega arith)

above_apart : (m n : ℕ) → n < m → m ≢ n
above_apart m n h e = absurd (omega arith)

heap-IsList : IsList heap 1 (2 ∷ 3 ∷ [])
unfolding Chain Distinct
heap-IsList = record {
  chain = (refl, refl, (refl, refl, (refl, refl)));
  apart = (
    (less_apart 1 2 (omega arith), (less_apart 1 3 (omega arith), tt)),
    ((less_apart 2 3 (omega arith), tt), (tt, tt)),
  );
  not_null = (
    above_apart 1 0 (omega arith),
    (above_apart 2 0 (omega arith), (above_apart 3 0 (omega arith), tt)),
  );
}

loop_visits : entries 9 1 heap ≡ some (2 ∷ 3 ∷ [])
unfolding entries list_for_each
loop_visits = refl

list_del-Deleted_example : Deleted 2 1 (3 ∷ []) heap
list_del-Deleted_example = list_del-Deleted 2 1 [] (3 ∷ []) heap heap-IsList
