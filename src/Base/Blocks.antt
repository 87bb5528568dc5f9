-- ===== src/Base/Blocks.antt =====
-- `memcpy` between C arrays: a block of `n` elements, a fault (`none`) outside either array.
use Prim.Native.Nat.{ℕ, zero, suc, ◌+◌, ◌≤◌, ◌<◌}
use mathlib.Core.Path.{◌≡◌, refl, ap, sym, ◌∙◌}
use mathlib.Core.Bool.{◌&&◌}
use mathlib.Core.List.{List, [], ◌∷◌, ◌++◌}
use mathlib.Core.Option.{Option, none, some}
use native.Mathlib.Omega.{arith}
use mini_tmux.Base.Tests.{leb, if◌then◌else◌}
use mini_tmux.Base.Lists.{length, take, drop, length-take, length-drop, drop-add}

module _ {ℓ} {A : Type ℓ} where
  -- `n` elements from index `i`
  unfoldable pub slice : ℕ → ℕ → List A → List A
  slice i n xs = take n (drop i xs)

  -- `dst` with its first elements replaced by `block`
  unfoldable pub overwrite : List A → List A → List A
  overwrite dst [] = dst
  overwrite [] (b ∷ bs) = []
  overwrite (x ∷ dst) (b ∷ bs) = b ∷ overwrite dst bs

  -- `dst` with the elements from `di` on replaced by `block`
  unfoldable pub overlay : List A → ℕ → List A → List A
  unfolding overwrite
  overlay dst zero block = overwrite dst block
  overlay [] (suc di) block = []
  overlay (x ∷ dst) (suc di) block = x ∷ overlay dst di block

  unfoldable pub memcpy : List A → ℕ → List A → ℕ → ℕ → Option (List A)
  memcpy dst di src si n =
      if leb (si + n) (length src) && leb (di + n) (length dst)
      then some (overlay dst di (slice si n src))
      else none

  pub memcpy-some :
      (dst : List A) (di : ℕ) (src : List A) (si n : ℕ)
      → si + n ≤ length src
      → di + n ≤ length dst
      → memcpy dst di src si n ≡ some (overlay dst di (slice si n src))
  unfolding memcpy
  memcpy-some dst di src si n h k = ground arith

  pub memcpy-none :
      (dst : List A) (di : ℕ) (src : List A) (si n : ℕ)
      → length dst < di + n
      → memcpy dst di src si n ≡ none
  unfolding memcpy
  memcpy-none dst di src si n h = ground arith

  pub length-slice : (i n : ℕ) (xs : List A) → i + n ≤ length xs → length (slice i n xs) ≡ n
  unfolding slice
  length-slice i n xs h = omega (arith, length-take n (drop i xs), length-drop i xs)

  length-overwrite : (dst block : List A) → length (overwrite dst block) ≡ length dst
  unfolding overwrite
  length-overwrite dst [] = refl
  length-overwrite [] (b ∷ bs) = refl
  length-overwrite (x ∷ dst) (b ∷ bs) = ap suc (length-overwrite dst bs)

  pub length-overlay :
      (dst : List A) (di : ℕ) (block : List A) → length (overlay dst di block) ≡ length dst
  unfolding overlay
  length-overlay dst zero block = length-overwrite dst block
  length-overlay [] (suc di) block = refl
  length-overlay (x ∷ dst) (suc di) block = ap suc (length-overlay dst di block)

  take-overwrite :
      (dst block : List A)
      → length block ≤ length dst
      → take (length block) (overwrite dst block) ≡ block
  unfolding overwrite
  take-overwrite dst [] h = refl
  take-overwrite [] (b ∷ bs) h = absurd (omega arith)
  take-overwrite (x ∷ dst) (b ∷ bs) h = ap (λ r. b ∷ r) (take-overwrite dst bs (omega arith))

  drop-overwrite :
      (si : ℕ) (dst block : List A)
      → length block ≤ si
      → drop si (overwrite dst block) ≡ drop si dst
  unfolding overwrite
  drop-overwrite si dst [] h = refl
  drop-overwrite si [] (b ∷ bs) h = refl
  drop-overwrite zero (x ∷ dst) (b ∷ bs) h = absurd (omega arith)
  drop-overwrite (suc si) (x ∷ dst) (b ∷ bs) h = drop-overwrite si dst bs (omega arith)

  -- A read of the block that was written gives the block.
  pub slice-overlay_self :
      (dst : List A) (di : ℕ) (block : List A)
      → di + length block ≤ length dst
      → slice di (length block) (overlay dst di block) ≡ block
  unfolding slice overlay
  slice-overlay_self dst zero block h = take-overwrite dst block (omega arith)
  slice-overlay_self [] (suc di) block h = absurd (omega arith)
  slice-overlay_self (x ∷ dst) (suc di) block h = slice-overlay_self dst di block (omega arith)

  -- A read that ends before the block, or starts behind it, does not see it.
  pub slice-overlay_before :
      (dst : List A) (si n di : ℕ) (block : List A)
      → si + n ≤ di
      → slice si n (overlay dst di block) ≡ slice si n dst
  unfolding slice overlay
  slice-overlay_before dst zero zero di block h = refl
  slice-overlay_before dst zero (suc n) zero block h = absurd (omega arith)
  slice-overlay_before [] zero (suc n) (suc di) block h = refl
  slice-overlay_before (x ∷ dst) zero (suc n) (suc di) block h =
      ap (λ r. x ∷ r) (slice-overlay_before dst zero n di block (omega arith))
  slice-overlay_before dst (suc si) n zero block h = absurd (omega arith)
  slice-overlay_before [] (suc si) n (suc di) block h = refl
  slice-overlay_before (x ∷ dst) (suc si) n (suc di) block h =
      slice-overlay_before dst si n di block (omega arith)

  pub slice-overlay_after :
      (dst : List A) (si n di : ℕ) (block : List A)
      → di + length block ≤ si
      → slice si n (overlay dst di block) ≡ slice si n dst
  unfolding slice overlay
  slice-overlay_after dst si n zero block h =
      ap (λ r. take n r) (drop-overwrite si dst block (omega arith))
  slice-overlay_after dst zero n (suc di) block h = absurd (omega arith)
  slice-overlay_after [] (suc si) n (suc di) block h = refl
  slice-overlay_after (x ∷ dst) (suc si) n (suc di) block h =
      slice-overlay_after dst si n di block (omega arith)

  take-take : (n k : ℕ) (xs : List A) → n ≤ k → take n (take k xs) ≡ take n xs
  take-take zero k xs h = refl
  take-take (suc n) zero xs h = absurd (omega arith)
  take-take (suc n) (suc k) [] h = refl
  take-take (suc n) (suc k) (x ∷ xs) h = ap (λ r. x ∷ r) (take-take n k xs (omega arith))

  take-drop-take :
      (j n k : ℕ) (xs : List A) → j + n ≤ k → take n (drop j (take k xs)) ≡ take n (drop j xs)
  take-drop-take zero n k xs h = take-take n k xs (omega arith)
  take-drop-take (suc j) n zero xs h = absurd (omega arith)
  take-drop-take (suc j) n (suc k) [] h = refl
  take-drop-take (suc j) n (suc k) (x ∷ xs) h = take-drop-take j n k xs (omega arith)

  -- A block of a block.
  pub slice-slice :
      (j n i k : ℕ) (xs : List A) → j + n ≤ k → slice j n (slice i k xs) ≡ slice (i + j) n xs
  unfolding slice
  slice-slice j n i k xs h =
      take-drop-take j n k (drop i xs) h ∙ ap (λ r. take n r) (sym (drop-add i j xs))

  pub slice-append_left :
      (j n : ℕ) (xs ys : List A) → j + n ≤ length xs → slice j n (xs ++ ys) ≡ slice j n xs
  unfolding slice
  slice-append_left zero zero xs ys h = refl
  slice-append_left zero (suc n) [] ys h = absurd (omega arith)
  slice-append_left zero (suc n) (x ∷ xs) ys h =
      ap (λ r. x ∷ r) (slice-append_left zero n xs ys (omega arith))
  slice-append_left (suc j) n [] ys h = absurd (omega arith)
  slice-append_left (suc j) n (x ∷ xs) ys h = slice-append_left j n xs ys (omega arith)

  pub slice-append_right :
      (j n : ℕ) (xs ys : List A) → slice (length xs + j) n (xs ++ ys) ≡ slice j n ys
  unfolding slice
  slice-append_right j n [] ys = ap (λ k. take n (drop k ys)) (omega arith)
  slice-append_right j n (x ∷ xs) ys =
      ap (λ k. take n (drop k (x ∷ (xs ++ ys)))) (suc_add (length xs) j)
      ∙ slice-append_right j n xs ys
    where
      suc_add : (i j : ℕ) → suc i + j ≡ suc (i + j)
      suc_add i j = omega arith

  -- A read inside a block that was written at the start.
  pub slice-overlay_within :
      (dst block : List A) (j n : ℕ)
      → length block ≤ length dst
      → j + n ≤ length block
      → slice j n (overlay dst 0 block) ≡ slice j n block
  unfolding slice overlay
  slice-overlay_within dst block j n h k =
      sym (take-drop-take j n (length block) (overwrite dst block) k)
      ∙ ap (λ r. take n (drop j r)) (take-overwrite dst block h)
