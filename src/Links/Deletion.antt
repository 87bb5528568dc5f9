-- ===== src/Links/Deletion.antt =====
-- `list_del` of list.h on a heap that holds a list, and what the loops over it visit.
use mini_tmux.Base.{
  ℕ, zero, suc, ◌<◌, ◌≡◌, ◌≢◌, refl, List, [], ◌∷◌, ◌++◌, some, All, length, arith, ==_iff,
  ne→==_false, ◌∙◌, sym, ap, subst, append-nil,
}
use mini_tmux.Links.{Heap, stored, list_empty, list_last_entry, list_for_each, entries}
use mini_tmux.Links.Chain.{
  Chain, Distinct, last, All-last, prev-last, Chain-append, Chain-split, Distinct-append,
  append-Distinct, All-map, All-append-split, All-append-join,
}
use mini_tmux.Links.Ring.{
  IsList, Deleted, removed, list_del-removed, front-ends, back-same, flip, stored-same,
}

-- For an entry of a list, `list_del` accesses no NULL, takes the entry out, keeps the others in order,
-- and leaves NULL in both links of the entry.
pub list_del-Deleted :
    (entry head : ℕ) (ys zs : List ℕ) (h : Heap)
    → IsList h head (ys ++ (entry ∷ zs))
    → Deleted entry head (ys ++ zs) h
unfolding Chain Distinct
list_del-Deleted entry head ys [] h v =
    let (c, c') = Chain-split h head ys entry [] head v.chain in
    let (d, d', cross) = Distinct-append (head ∷ ys) (entry ∷ []) v.apart in
    let (n, n') = All-append-split (λ x. x ≢ 0) (head ∷ ys) (entry ∷ []) v.not_null in
    let fresh =
      All-map (λ x. All (λ y. x ≢ y) (entry ∷ [])) (λ x. x ≢ entry) (head ∷ ys) (λ x e. e.0)
        cross in
    let p = last head ys in
    record {
      heap = removed entry p head h;
      runs =
          list_del-removed entry p head h n'.0 (All-last (λ x. x ≢ 0) head ys n) n.0
            (prev-last h head ys entry c) c'.0;
      holds = subst (IsList (removed entry p head h) head) (sym (append-nil ys)) (record {
        chain = front-ends entry head ys h head c d fresh (flip head ys d.0) fresh.0;
        apart = d;
        not_null = n;
      });
      unlinked =
          (stored-same (stored h.next p head) entry 0, stored-same (stored h.prev head p) entry 0);
    }
list_del-Deleted entry head ys (z ∷ zs) h v =
    let (c, c') = Chain-split h head ys entry (z ∷ zs) head v.chain in
    let (d, d', cross) = Distinct-append (head ∷ ys) (entry ∷ z ∷ zs) v.apart in
    let (n, n') = All-append-split (λ x. x ≢ 0) (head ∷ ys) (entry ∷ z ∷ zs) v.not_null in
    let fresh =
      All-map (λ x. All (λ y. x ≢ y) (entry ∷ z ∷ zs)) (λ x. x ≢ entry) (head ∷ ys) (λ x e. e.0)
        cross in
    let behind =
      All-map (λ x. All (λ y. x ≢ y) (entry ∷ z ∷ zs)) (λ x. All (λ y. x ≢ y) (z ∷ zs)) (head ∷ ys)
        (λ x e. e.1) cross in
    let p = last head ys in
    record {
      heap = removed entry p z h;
      runs =
          list_del-removed entry p z h n'.0 (All-last (λ x. x ≢ 0) head ys n) n'.1.0
            (prev-last h head ys entry c) c'.0;
      holds = record {
        chain =
            Chain-append (removed entry p z h) head ys z zs head
              (front-ends entry head ys h z c d fresh
                (All-map (λ x. All (λ y. x ≢ y) (z ∷ zs)) (λ x. x ≢ z) ys (λ x e. e.0) behind.1)
                (λ q. d'.0.0 (sym q)))
              (back-same entry head ys h z zs c'.2 d'.1 (flip entry (z ∷ zs) d'.0)
                (flip p (z ∷ zs) (All-last (λ x. All (λ y. x ≢ y) (z ∷ zs)) head ys behind))
                behind.0.0 fresh.0);
        apart = append-Distinct (head ∷ ys) (z ∷ zs) d d'.1 behind;
        not_null = All-append-join (λ x. x ≢ 0) (head ∷ ys) (z ∷ zs) n n'.1;
      };
      unlinked = (stored-same (stored h.next p z) entry 0, stored-same (stored h.prev z p) entry 0);
    }

list_for_each-Chain :
    (fuel : ℕ) (h : Heap) (head a : ℕ) (xs : List ℕ)
    → Chain h a xs head
    → All (λ x. x ≢ head) xs
    → All (λ x. x ≢ 0) xs
    → length xs < fuel
    → list_for_each fuel (h.next a) head h ≡ some xs
unfolding list_for_each Chain
list_for_each-Chain zero h head a xs c others not_null enough = absurd (omega arith)
list_for_each-Chain (suc fuel) h head a [] c others not_null enough =
    rw ((==_iff (h.next a) head).1 c.0) refl
list_for_each-Chain (suc fuel) h head a (x ∷ xs) c others not_null enough =
    ap (λ pos. list_for_each (suc fuel) pos head h) c.0
    ∙ rw
        (
          ne→==_false x head others.0,
          ne→==_false x 0 not_null.0,
          list_for_each-Chain fuel h head x xs c.2 others.1 not_null.1 (omega (arith, enough)),
          list_for_each,
        )
        refl

-- The loops over a list visit its entries in order, and end at its head.
pub entries-IsList :
    (fuel : ℕ) (h : Heap) (head : ℕ) (xs : List ℕ)
    → IsList h head xs
    → length xs < fuel
    → entries fuel head h ≡ some xs
unfolding entries Distinct
entries-IsList fuel h head xs v enough =
    rw (ne→==_false head 0 v.not_null.0, entries)
      (list_for_each-Chain fuel h head head xs v.chain (flip head xs v.apart.0) v.not_null.1 enough)

list_last_entry-prev :
    (head first final : ℕ) (h : Heap)
    → head ≢ 0
    → h.next head ≡ first
    → first ≢ head
    → h.prev head ≡ final
    → list_last_entry head h ≡ some final
unfolding list_last_entry list_empty
list_last_entry-prev head first final h not_null e apart e' =
    rw (ne→==_false head 0 not_null, e, ne→==_false first head apart, e') refl

-- The last entry of a list that is not empty.
pub list_last_entry-IsList :
    (head z : ℕ) (ys : List ℕ) (h : Heap)
    → IsList h head (ys ++ (z ∷ []))
    → list_last_entry head h ≡ some z
unfolding Chain Distinct
list_last_entry-IsList head z [] h v =
    list_last_entry-prev head z z h v.not_null.0 v.chain.0 (λ q. v.apart.0.0 (sym q)) v.chain.2.1
list_last_entry-IsList head z (y ∷ ys) h v =
    let (_, c) = Chain-split h head (y ∷ ys) z [] head v.chain in
    list_last_entry-prev head y z h v.not_null.0 v.chain.0 (λ q. v.apart.0.0 (sym q)) c.1
