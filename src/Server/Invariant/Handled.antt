-- ===== src/Server/Invariant/Handled.antt =====
-- `server_receive` as a whole: the state it leaves, and the messages on which it accesses memory
-- outside a buffer.
use mini_tmux.Base.{ℕ, ◌≡◌, ◌⊎◌, inl, inr, refl, List, [], arith, ℤ, minus_one, Bool-cases, ltb}
use mini_tmux.Server.Session.{Server}
use mini_tmux.Server.Wire.{
  Read, ReadN, complete, ended, error, waiting, read_n, msgtype_of, header_at, sizeof_header,
}
use mini_tmux.Server.Receive.{returns, blocks, Kernel, Texts}
use mini_tmux.Server.Receive.Dispatch.{receive_message, read_payload, server_receive}
use mini_tmux.Server.Invariant.Faults.{FaultsOn, FaultsOn-map, Malformed, receive_message-FaultsOn}

-- The payload of `len` bytes that stands in the reads, none if the length is 0.
abbrev pub Carries : ℕ → List Read → List ℕ → Type 0
Carries len reads buf =
    ((len ≡ 0) × (buf ≡ [])) ⊎ ((after : List Read) × (read_n len reads ≡ complete buf after))

-- The reads hold a whole message, and it is malformed.
pub record BadMessage (t : Texts) (sv : Server) (reads : List Read) : Type 0 where
  pub header : List ℕ
  pub behind : List Read
  pub buf : List ℕ
  pub read : read_n sizeof_header reads ≡ complete header behind
  pub carried : Carries (header_at header).len behind buf
  pub bad : Malformed t sv (msgtype_of (header_at header).type) buf

pub server_receive-FaultsOn :
    (k : Kernel) (t : Texts) (fd : ℤ) (padding : List ℕ) (reads : List Read) (sv : Server)
    → FaultsOn (BadMessage t sv reads) (server_receive k t fd padding reads sv)
unfolding server_receive read_payload
server_receive-FaultsOn k t fd padding reads sv = on_header (read_n sizeof_header reads) refl
  where
    message :
        (bytes : List ℕ) (rest : List Read) (buf : List ℕ)
        → read_n sizeof_header reads ≡ complete bytes rest
        → Carries (header_at bytes).len rest buf
        → FaultsOn
            (BadMessage t sv reads)
            (receive_message k t fd padding (msgtype_of (header_at bytes).type) buf sv)
    message bytes rest buf e carried =
        FaultsOn-map (Malformed t sv (msgtype_of (header_at bytes).type) buf)
          (BadMessage t sv reads) _
          (λ bad. record {
            header = bytes;
            behind = rest;
            buf = buf;
            read = e;
            carried = carried;
            bad = bad;
          })
          (receive_message-FaultsOn k t fd padding (msgtype_of (header_at bytes).type) buf sv)

    on_payload :
        (bytes : List ℕ) (rest : List Read) (p : ReadN)
        → read_n sizeof_header reads ≡ complete bytes rest
        → read_n (header_at bytes).len rest ≡ p
        → FaultsOn (BadMessage t sv reads) (elim p [
          | complete buf after ↦
              receive_message k t fd padding (msgtype_of (header_at bytes).type) buf sv
          | ended after ↦ returns minus_one sv
          | error after ↦ returns minus_one sv
          | waiting ↦ blocks
        ])
    on_payload bytes rest (complete buf after) e e' = message bytes rest buf e (inr (after, e'))
    on_payload bytes rest (ended after) e e' = tt
    on_payload bytes rest (error after) e e' = tt
    on_payload bytes rest waiting e e' = tt

    on_header :
        (r : ReadN)
        → read_n sizeof_header reads ≡ r
        → FaultsOn (BadMessage t sv reads) (elim r [
          | complete bytes rest ↦
              read_payload
                (header_at bytes).len
                rest
                (λ buf. receive_message k t fd padding (msgtype_of (header_at bytes).type) buf sv)
                sv
          | ended rest ↦ returns minus_one sv
          | error rest ↦ returns minus_one sv
          | waiting ↦ blocks
        ])
    on_header (complete bytes rest) e = elim (Bool-cases (ltb 0 (header_at bytes).len)) [
      | inl some_bytes ↦
          rw some_bytes (on_payload bytes rest (read_n (header_at bytes).len rest) e refl)
      | inr empty ↦ rw empty (message bytes rest [] e (inl (ground (arith, empty), refl)))
    ]
    on_header (ended rest) e = tt
    on_header (error rest) e = tt
    on_header waiting e = tt
