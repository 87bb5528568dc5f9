-- ===== src/Links/Ring.antt =====
-- The operations of list.h on a heap that holds a list.
use mini_tmux.Base.{
  ℕ, ◌≡◌, ◌≢◌, refl, List, [], ◌∷◌, ◌++◌, some, All, ==_iff, ne→==_false, ◌∙◌, sym,
}
use mini_tmux.Links.{Heap, stored, add_between, del_between, list_init, list_add_tail, list_del}
use mini_tmux.Links.Chain.{
  Chain, Distinct, last, All-last, prev-last, Chain-append, Chain-same, Chain-ends, append-Distinct,
  All-map, All-both, All-append-join,
}

-- The heap holds the list `xs` at `head`.
pub record IsList (h : Heap) (head : ℕ) (xs : List ℕ) : Type 0 where
  pub chain : Chain h head xs head
  pub apart : Distinct (head ∷ xs)
  pub not_null : All (λ x. x ≢ 0) (head ∷ xs)

pub stored-same : (f : ℕ → ℕ) (a v : ℕ) → stored f a v a ≡ v
stored-same f a v = rw ((==_iff a a).1 refl) refl

stored-other : (f : ℕ → ℕ) (a v b : ℕ) → b ≢ a → stored f a v b ≡ f b
stored-other f a v b e = rw (ne→==_false b a e) refl

-- the field after two stores
stored_twice : (f : ℕ → ℕ) (a v b w c : ℕ) → c ≢ a → c ≢ b → stored (stored f a v) b w c ≡ f c
stored_twice f a v b w c e e' = stored-other (stored f a v) b w c e' ∙ stored-other f a v c e

stored_first : (f : ℕ → ℕ) (a v b w : ℕ) → a ≢ b → stored (stored f a v) b w a ≡ v
stored_first f a v b w e = stored-other (stored f a v) b w a e ∙ stored-same f a v

-- the heap after an entry was put between two nodes
abbrev added : ℕ → ℕ → ℕ → Heap → Heap
added entry prev next h = record {
  next = stored (stored h.next entry next) prev entry;
  prev = stored (stored h.prev next entry) entry prev;
}

add_between-added :
    (entry prev next : ℕ) (h : Heap)
    → entry ≢ 0
    → prev ≢ 0
    → next ≢ 0
    → add_between entry prev next h ≡ some (added entry prev next h)
unfolding add_between
add_between-added entry prev next h a b c =
    rw (ne→==_false entry 0 a, ne→==_false prev 0 b, ne→==_false next 0 c) refl

list_add_tail-added :
    (entry head : ℕ) (xs : List ℕ) (h : Heap)
    → entry ≢ 0
    → IsList h head xs
    → list_add_tail entry head h ≡ some (added entry (last head xs) head h)
unfolding list_add_tail
list_add_tail-added entry head xs h ne v =
    rw (ne→==_false head 0 v.not_null.0, prev-last h head xs head v.chain)
      (add_between-added entry (last head xs) head h ne (All-last (λ x. x ≢ 0) head xs v.not_null)
        v.not_null.0)

pub flip : (a : ℕ) (xs : List ℕ) → All (λ x. a ≢ x) xs → All (λ x. x ≢ a) xs
flip a xs h = All-map (λ x. a ≢ x) (λ x. x ≢ a) xs (λ x e q. e (sym q)) h

-- A list that was set up is empty.
pub list_init-IsList :
    (head : ℕ) (h : Heap)
    → head ≢ 0
    → (h' : Heap) × (list_init head h ≡ some h') × IsList h' head []
unfolding list_init Chain Distinct
list_init-IsList head h not_null = (
  record { next = stored h.next head head; prev = stored h.prev head head },
  rw (ne→==_false head 0 not_null) refl,
  record {
    chain = (stored-same h.next head head, stored-same h.prev head head);
    apart = (tt, tt);
    not_null = (not_null, tt);
  },
)

-- For a list at `head` and an entry that is not NULL, not the head and not in the list,
-- `list_add_tail` accesses no NULL, and the entry stands behind the others.
pub list_add_tail-IsList :
    (entry head : ℕ) (xs : List ℕ) (h : Heap)
    → IsList h head xs
    → entry ≢ 0
    → All (λ x. x ≢ entry) (head ∷ xs)
    → (h' : Heap) × (list_add_tail entry head h ≡ some h') × IsList h' head (xs ++ (entry ∷ []))
unfolding Chain Distinct
list_add_tail-IsList entry head xs h v not_null fresh =
    let p = last head xs in
    let h' = added entry p head h in
    let p_fresh : p ≢ entry = All-last (λ x. x ≢ entry) head xs fresh in
    let ends =
      Chain-ends h h' head xs head entry v.apart (stored-same (stored h.next entry head) p entry)
        (stored-same (stored h.prev head entry) entry p)
        (All-map (λ x. x ≢ entry) (λ x. x ≢ p → h'.next x ≡ h.next x) (head ∷ xs)
          (λ x e e'. stored_twice h.next entry head p entry x e e') fresh)
        (All-map (λ x. (x ≢ head) × (x ≢ entry)) (λ x. h'.prev x ≡ h.prev x) xs
          (λ x e. stored_twice h.prev head entry entry p x e.0 e.1)
          (All-both (λ x. x ≢ head) (λ x. x ≢ entry) xs (flip head xs v.apart.0) fresh.1))
        v.chain in
    let link : Chain h' entry [] head = (
      stored_first h.next entry head p entry (λ q. p_fresh (sym q)),
      stored_first h.prev head entry entry p fresh.0,
    ) in
    (
      h',
      list_add_tail-added entry head xs h not_null v,
      record {
        chain = Chain-append h' head xs entry [] head ends link;
        apart =
            append-Distinct (head ∷ xs) (entry ∷ []) v.apart (tt, tt)
              (All-map (λ x. x ≢ entry) (λ x. All (λ y. x ≢ y) (entry ∷ [])) (head ∷ xs)
                (λ x e. (e, tt)) fresh);
        not_null = All-append-join (λ x. x ≢ 0) (head ∷ xs) (entry ∷ []) v.not_null (not_null, tt);
      },
    )

-- the heap after an entry between two nodes was taken out
abbrev pub removed : ℕ → ℕ → ℕ → Heap → Heap
removed entry prev next h = record {
  next = stored (stored h.next prev next) entry 0;
  prev = stored (stored h.prev next prev) entry 0;
}

pub list_del-removed :
    (entry prev next : ℕ) (h : Heap)
    → entry ≢ 0
    → prev ≢ 0
    → next ≢ 0
    → h.prev entry ≡ prev
    → h.next entry ≡ next
    → list_del entry h ≡ some (removed entry prev next h)
unfolding list_del del_between
list_del-removed entry prev next h a b c e e' =
    rw (ne→==_false entry 0 a, e, e', ne→==_false prev 0 b, ne→==_false next 0 c) refl

-- what a deletion leaves
pub record Deleted (entry head : ℕ) (xs : List ℕ) (h : Heap) : Type 0 where
  pub heap : Heap
  pub runs : list_del entry h ≡ some heap
  pub holds : IsList heap head xs
  pub unlinked : (heap.next entry ≡ 0) × (heap.prev entry ≡ 0)

module _ (entry head : ℕ) (ys : List ℕ) (h : Heap) where
  -- the links in front of the entry lead to the node `n` behind it
  pub front-ends :
      (n : ℕ)
      → Chain h head ys entry
      → Distinct (head ∷ ys)
      → All (λ x. x ≢ entry) (head ∷ ys)
      → All (λ x. x ≢ n) ys
      → n ≢ entry
      → Chain (removed entry (last head ys) n h) head ys n
  front-ends n c apart fresh others n_fresh =
      let p = last head ys in
      let h' = removed entry p n h in
      Chain-ends h h' head ys entry n apart
        (stored_first h.next p n entry 0 (All-last (λ x. x ≢ entry) head ys fresh))
        (stored_first h.prev n p entry 0 n_fresh)
        (All-map (λ x. x ≢ entry) (λ x. x ≢ p → h'.next x ≡ h.next x) (head ∷ ys)
          (λ x e e'. stored_twice h.next p n entry 0 x e' e) fresh)
        (All-map (λ x. (x ≢ n) × (x ≢ entry)) (λ x. h'.prev x ≡ h.prev x) ys
          (λ x e. stored_twice h.prev n p entry 0 x e.0 e.1)
          (All-both (λ x. x ≢ n) (λ x. x ≢ entry) ys others fresh.1))
        c

  -- the links behind it stay
  pub back-same :
      (z : ℕ) (zs : List ℕ)
      → Chain h z zs head
      → Distinct (z ∷ zs)
      → All (λ x. x ≢ entry) (z ∷ zs)
      → All (λ x. x ≢ last head ys) (z ∷ zs)
      → head ≢ z
      → head ≢ entry
      → Chain (removed entry (last head ys) z h) z zs head
  unfolding Distinct
  back-same z zs c apart fresh others head_z head_fresh =
      let p = last head ys in
      let h' = removed entry p z h in
      Chain-same h h' z zs head
        (All-map (λ x. (x ≢ p) × (x ≢ entry)) (λ x. h'.next x ≡ h.next x) (z ∷ zs)
          (λ x e. stored_twice h.next p z entry 0 x e.0 e.1)
          (All-both (λ x. x ≢ p) (λ x. x ≢ entry) (z ∷ zs) others fresh))
        (All-map (λ x. (x ≢ z) × (x ≢ entry)) (λ x. h'.prev x ≡ h.prev x) zs
          (λ x e. stored_twice h.prev z p entry 0 x e.0 e.1)
          (All-both (λ x. x ≢ z) (λ x. x ≢ entry) zs (flip z zs apart.0) fresh.1))
        (stored_twice h.prev z p entry 0 head head_z head_fresh) c
