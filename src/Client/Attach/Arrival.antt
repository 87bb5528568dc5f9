-- ===== src/Client/Attach/Arrival.antt =====
-- What the client's calls yield of what the server sends to it.
use mini_tmux.Base.{
  ℕ, ◌+◌, ◌<◌, ◌≤◌, ◌^◌, ◌≡◌, refl, List, [], ◌∷◌, ◌++◌, arith, length, length-append, lt→ltb,
  le→ltb_false, append_assoc, ◌∙◌, sym, append-nil, ℤ, is_nonneg, true, u32, le32, u32_at,
}
use mini_tmux.Server.Session.{Effect, wrote, sent_fd}
use mini_tmux.Server.Wire.{Read, got}
use mini_tmux.Client.Attach.{read_some, read_body, rounds}

-- The reads deliver the bytes in non-empty pieces.
pub data Pieces : List Read → List ℕ → Type 0 where
  done : Pieces [] []
  piece :
      {b : ℕ} {bs out : List ℕ} {rs : List Read}
      → Pieces rs out
      → Pieces (got (b ∷ bs) ∷ rs) ((b ∷ bs) ++ out)

-- The descriptors and the reads of the client, of what the server sends over a stream socket: a
-- descriptor arrives under a number of the client's; what fits a header comes at once, and what is
-- longer in pieces.
pub data Arrives : List Effect → List ℤ → List Read → Type 0 where
  nothing : Arrives [] [] []
  descriptor :
      {sock m : ℤ} {es : List Effect} {fds : List ℤ} {rs : List Read} (fd : ℤ)
      → is_nonneg fd ≡ true
      → Arrives es fds rs
      → Arrives (sent_fd sock m ∷ es) (fd ∷ fds) rs
  whole :
      {sock : ℤ} {bs : List ℕ} {es : List Effect} {fds : List ℤ} {rs : List Read}
      → length bs ≤ 16
      → Arrives es fds rs
      → Arrives (wrote sock bs ∷ es) fds (got bs ∷ rs)
  pieces :
      {sock : ℤ} {bs : List ℕ} {es : List Effect} {fds : List ℤ} {ps rs : List Read}
      → 16 < length bs
      → Pieces ps bs
      → Arrives es fds rs
      → Arrives (wrote sock bs ∷ es) fds (ps ++ rs)

read_body-Pieces :
    {ps : List Read} {out : List ℕ} (recvd : List ℕ) (n : ℕ) (rest : List Read)
    → Pieces ps out
    → n ≡ length recvd + length out
    → read_body n recvd (ps ++ rest) ≡ (recvd ++ out, rest)
unfolding read_body read_some
read_body-Pieces recvd n [] done e = λ i. (sym (append-nil recvd) i, [])
read_body-Pieces recvd n (r ∷ rest) done e =
    rw (le→ltb_false (length recvd) n (omega arith)) (λ i. (sym (append-nil recvd) i, r ∷ rest))
read_body-Pieces recvd n rest (piece {b} {bs} {out} d) e =
    rw (lt→ltb (length recvd) n (omega arith)) (
      read_body-Pieces (recvd ++ (b ∷ bs)) n rest d
        (omega (arith, length-append recvd (b ∷ bs), length-append bs out))
      ∙ λ i. (append_assoc recvd (b ∷ bs) out i, rest))

-- However the data comes, the loop takes all of it, and leaves the reads behind it.
pub read_body_takes_all :
    {ps : List Read} {out : List ℕ} (rest : List Read)
    → Pieces ps out
    → read_body (length out) [] (ps ++ rest) ≡ (out, rest)
read_body_takes_all {out} rest d = read_body-Pieces [] (length out) rest d (omega arith)

u32_at-le32 : (n : ℕ) → n < u32 → u32_at (le32 n) 0 ≡ n
u32_at-le32 n h = omega arith

pub rounds-le32 : (n : ℕ) → n < 2 ^ 31 → rounds (le32 n) ≡ n
unfolding rounds
rounds-le32 n h = rw (u32_at-le32 n (omega arith), lt→ltb n (2 ^ 31) h) refl
