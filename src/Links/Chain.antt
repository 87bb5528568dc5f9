-- ===== src/Links/Chain.antt =====
-- Links from one node to another, and what a store elsewhere leaves of them.
use mini_tmux.Base.{ℕ, ◌≡◌, ◌≢◌, List, [], ◌∷◌, ◌++◌, All, ◌∙◌}
use mini_tmux.Links.{Heap}

-- `next` leads from `a` through `xs` to `b`, and `prev` back.
unfoldable pub Chain : Heap → ℕ → List ℕ → ℕ → Type 0
Chain h a [] b = (h.next a ≡ b) × (h.prev b ≡ a)
Chain h a (x ∷ xs) b = (h.next a ≡ x) × (h.prev x ≡ a) × Chain h x xs b

unfoldable pub Distinct : List ℕ → Type 0
Distinct [] = Unit
Distinct (x ∷ xs) = All (λ y. x ≢ y) xs × Distinct xs

unfoldable pub last : ℕ → List ℕ → ℕ
last a [] = a
last a (x ∷ xs) = last x xs

pub All-last : (P : ℕ → Type 0) (a : ℕ) (xs : List ℕ) → All P (a ∷ xs) → P (last a xs)
unfolding last
All-last P a [] h = h.0
All-last P a (x ∷ xs) h = All-last P x xs h.1

pub prev-last : (h : Heap) (a : ℕ) (xs : List ℕ) (b : ℕ) → Chain h a xs b → h.prev b ≡ last a xs
unfolding Chain last
prev-last h a [] b c = c.1
prev-last h a (x ∷ xs) b c = prev-last h x xs b c.2

pub Chain-append :
    (h : Heap) (a : ℕ) (xs : List ℕ) (m : ℕ) (ys : List ℕ) (b : ℕ)
    → Chain h a xs m
    → Chain h m ys b
    → Chain h a (xs ++ (m ∷ ys)) b
unfolding Chain
Chain-append h a [] m ys b c d = (c.0, c.1, d)
Chain-append h a (x ∷ xs) m ys b c d = (c.0, c.1, Chain-append h x xs m ys b c.2 d)

pub Chain-split :
    (h : Heap) (a : ℕ) (xs : List ℕ) (m : ℕ) (ys : List ℕ) (b : ℕ)
    → Chain h a (xs ++ (m ∷ ys)) b
    → Chain h a xs m × Chain h m ys b
unfolding Chain
Chain-split h a [] m ys b c = ((c.0, c.1), c.2)
Chain-split h a (x ∷ xs) m ys b c =
    let (front, back) = Chain-split h x xs m ys b c.2 in ((c.0, c.1, front), back)

pub All-append-split : (P : ℕ → Type 0) (xs ys : List ℕ) → All P (xs ++ ys) → All P xs × All P ys
All-append-split P [] ys h = (tt, h)
All-append-split P (x ∷ xs) ys h =
    let (front, back) = All-append-split P xs ys h.1 in ((h.0, front), back)

pub All-append-join : (P : ℕ → Type 0) (xs ys : List ℕ) → All P xs → All P ys → All P (xs ++ ys)
All-append-join P [] ys h k = k
All-append-join P (x ∷ xs) ys h k = (h.0, All-append-join P xs ys h.1 k)

pub All-map : (P Q : ℕ → Type 0) (xs : List ℕ) → ((x : ℕ) → P x → Q x) → All P xs → All Q xs
All-map P Q [] f h = tt
All-map P Q (x ∷ xs) f h = (f x h.0, All-map P Q xs f h.1)

pub All-both : (P Q : ℕ → Type 0) (xs : List ℕ) → All P xs → All Q xs → All (λ x. P x × Q x) xs
All-both P Q [] h k = tt
All-both P Q (x ∷ xs) h k = ((h.0, k.0), All-both P Q xs h.1 k.1)

module _ (h h' : Heap) where
  abbrev pub SameNext : ℕ → Type 0
  SameNext x = h'.next x ≡ h.next x

  abbrev pub SamePrev : ℕ → Type 0
  SamePrev x = h'.prev x ≡ h.prev x

  -- The fields that the links go through are the same.
  pub Chain-same :
      (a : ℕ) (xs : List ℕ) (b : ℕ)
      → All SameNext (a ∷ xs)
      → All SamePrev xs
      → SamePrev b
      → Chain h a xs b
      → Chain h' a xs b
  unfolding Chain
  Chain-same a [] b next prev at_end c = (next.0 ∙ c.0, at_end ∙ c.1)
  Chain-same a (x ∷ xs) b next prev at_end c =
      (next.0 ∙ c.0, prev.0 ∙ c.1, Chain-same x xs b next.1 prev.1 at_end c.2)

  -- The last node is led to another end.
  pub Chain-ends :
      (a : ℕ) (xs : List ℕ) (b n : ℕ)
      → Distinct (a ∷ xs)
      → h'.next (last a xs) ≡ n
      → h'.prev n ≡ last a xs
      → All (λ x. x ≢ last a xs → SameNext x) (a ∷ xs)
      → All SamePrev xs
      → Chain h a xs b
      → Chain h' a xs n
  unfolding Chain last Distinct
  Chain-ends a [] b n apart leads back same prev c = (leads, back)
  Chain-ends a (x ∷ xs) b n apart leads back same prev c = (
    same.0 (All-last (λ y. a ≢ y) x xs apart.0) ∙ c.0,
    prev.0 ∙ c.1,
    Chain-ends x xs b n apart.1 leads back same.1 prev.1 c.2,
  )

-- what `Distinct` says of the parts of a list
pub Distinct-append :
    (xs ys : List ℕ)
    → Distinct (xs ++ ys)
    → Distinct xs × Distinct ys × All (λ x. All (λ y. x ≢ y) ys) xs
unfolding Distinct
Distinct-append [] ys d = (tt, d, tt)
Distinct-append (x ∷ xs) ys d =
    let (dx, dy, apart) = Distinct-append xs ys d.1 in
    let (front, back) = All-append-split (λ y. x ≢ y) xs ys d.0 in ((front, dx), dy, (back, apart))

pub append-Distinct :
    (xs ys : List ℕ)
    → Distinct xs
    → Distinct ys
    → All (λ x. All (λ y. x ≢ y) ys) xs
    → Distinct (xs ++ ys)
unfolding Distinct
append-Distinct [] ys d e apart = e
append-Distinct (x ∷ xs) ys d e apart =
    (All-append-join (λ y. x ≢ y) xs ys d.0 apart.0, append-Distinct xs ys d.1 e apart.1)
