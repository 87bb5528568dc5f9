-- ===== src/Links.antt =====
-- The circular doubly linked lists of list.h, on a heap of nodes. An address is a number, NULL is 0,
-- and an access through NULL is `none`. `container_of` is the identity: an entry is the address of
-- its link.
pub mod Chain
pub mod Ring
pub mod Deletion
mod Tests
use mini_tmux.Base.{
  ℕ, zero, suc, ◌+◌, List, [], ◌∷◌, Option, none, some, ◌>>=◌, Bool, ◌==◌, if◌then◌else◌, length,
}

-- `struct list_head` at each address
pub record Heap : Type 0 where
  pub next : ℕ → ℕ
  pub prev : ℕ → ℕ

-- the field `f` after `v` was stored at `a`
abbrev pub stored : (ℕ → ℕ) → ℕ → ℕ → ℕ → ℕ
stored f a v b = if b == a then v else f b

abbrev pub read_next : ℕ → Heap → Option ℕ
read_next a h = if a == 0 then none else some (h.next a)

abbrev pub read_prev : ℕ → Heap → Option ℕ
read_prev a h = if a == 0 then none else some (h.prev a)

abbrev pub write_next : ℕ → ℕ → Heap → Option Heap
write_next a v h = if a == 0 then none else some (record h { next = stored h.next a v })

abbrev pub write_prev : ℕ → ℕ → Heap → Option Heap
write_prev a v h = if a == 0 then none else some (record h { prev = stored h.prev a v })

unfoldable pub list_init : ℕ → Heap → Option Heap
list_init list h = do h1 ← write_next list list h; write_prev list list h1

-- `__list_add`
unfoldable pub add_between : ℕ → ℕ → ℕ → Heap → Option Heap
add_between entry prev next h = do
  h1 ← write_prev next entry h
  h2 ← write_next entry next h1
  h3 ← write_prev entry prev h2
  write_next prev entry h3

unfoldable pub list_add : ℕ → ℕ → Heap → Option Heap
list_add entry head h = do next ← read_next head h; add_between entry head next h

unfoldable pub list_add_tail : ℕ → ℕ → Heap → Option Heap
list_add_tail entry head h = do prev ← read_prev head h; add_between entry prev head h

-- `__list_del`
unfoldable pub del_between : ℕ → ℕ → Heap → Option Heap
del_between prev next h = do h1 ← write_prev next prev h; write_next prev next h1

unfoldable pub list_del : ℕ → Heap → Option Heap
list_del entry h = do
  prev ← read_prev entry h
  next ← read_next entry h
  h1 ← del_between prev next h
  h2 ← write_next entry 0 h1
  write_prev entry 0 h2

unfoldable pub list_empty : ℕ → Heap → Option Bool
list_empty head h = do next ← read_next head h; some (next == head)

-- `list_for_each`: the nodes from `pos` up to `head`; `fuel` bounds their number, and running out of
-- it is `none`
unfoldable pub list_for_each : ℕ → ℕ → ℕ → Heap → Option (List ℕ)
list_for_each zero pos head h = none
list_for_each (suc fuel) pos head h =
    let rest = list_for_each fuel (h.next pos) head h in
    if pos == head
    then some []
    else if pos == 0
    then none
    else elim rest [ none ↦ none | some ps ↦ some (pos ∷ ps) ]

-- the entries of a list, as the loops visit them
unfoldable pub entries : ℕ → ℕ → Heap → Option (List ℕ)
entries fuel head h = if head == 0 then none else list_for_each fuel (h.next head) head h

-- NULL for an empty list
unfoldable pub list_first_entry : ℕ → Heap → Option ℕ
list_first_entry head h = do empty ← list_empty head h; if empty then some 0 else read_next head h

unfoldable pub list_last_entry : ℕ → Heap → Option ℕ
list_last_entry head h = do empty ← list_empty head h; if empty then some 0 else read_prev head h

unfoldable pub list_count : ℕ → ℕ → Heap → Option ℕ
list_count fuel head h = do ps ← entries fuel head h; some (length ps)
