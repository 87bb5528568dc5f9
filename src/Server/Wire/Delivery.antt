-- ===== src/Server/Wire/Delivery.antt =====
-- `read_n` against a stream that arrives in pieces.
use mini_tmux.Base.{
  ℕ, ◌+◌, ◌≡◌, List, [], ◌∷◌, ◌++◌, arith, length, length-append, lt→ltb, le→ltb_false,
  append_assoc, ap, ◌∙◌, sym, append-nil,
}
use mini_tmux.Server.Wire.{Read, got, interrupted, complete, read_loop, read_n}

-- The reads deliver the bytes in non-empty pieces, with interruptions before pieces.
pub data Delivers : List Read → List ℕ → Type 0 where
  done : Delivers [] []
  piece :
      {b : ℕ} {bs out : List ℕ} {rs : List Read}
      → Delivers rs out
      → Delivers (got (b ∷ bs) ∷ rs) ((b ∷ bs) ++ out)
  eintr :
      {b : ℕ} {out : List ℕ} {rs : List Read}
      → Delivers rs (b ∷ out)
      → Delivers (interrupted ∷ rs) (b ∷ out)

read_loop-Delivers :
    {rs : List Read} {out : List ℕ} (recvd : List ℕ) (n : ℕ) (rest : List Read)
    → Delivers rs out
    → n ≡ length recvd + length out
    → read_loop n recvd (rs ++ rest) ≡ complete (recvd ++ out) rest
unfolding read_loop
read_loop-Delivers recvd n [] done e =
    rw (le→ltb_false (length recvd) n (omega arith))
      (ap (λ r. complete r []) (sym (append-nil recvd)))
read_loop-Delivers recvd n (r ∷ rest) done e =
    rw (le→ltb_false (length recvd) n (omega arith))
      (ap (λ b. complete b (r ∷ rest)) (sym (append-nil recvd)))
read_loop-Delivers recvd n rest (piece {b} {bs} {out} d) e =
    rw (lt→ltb (length recvd) n (omega arith)) (
      read_loop-Delivers (recvd ++ (b ∷ bs)) n rest d
        (omega (arith, length-append recvd (b ∷ bs), length-append bs out))
      ∙ ap (λ r. complete r rest) (append_assoc recvd (b ∷ bs) out))
read_loop-Delivers recvd n rest (eintr {b} {out} d) e =
    rw (lt→ltb (length recvd) n (omega arith)) (read_loop-Delivers recvd n rest d e)

-- However the bytes are split into reads, and whatever signals interrupt them, `read_n` for as many
-- bytes as arrive returns all of them in order, and leaves the reads behind them.
pub read_n-Delivers :
    {rs : List Read} {out : List ℕ} (rest : List Read)
    → Delivers rs out
    → read_n (length out) (rs ++ rest) ≡ complete out rest
unfolding read_n
read_n-Delivers {out} rest d = read_loop-Delivers [] (length out) rest d (omega arith)
