-- ===== src/Server/Wire.antt =====
-- `read_n` of server.c and `struct msg_header` of mini_tmux-protocol.h.
pub mod Delivery
use mini_tmux.Base.{
  ℕ, List, [], ◌∷◌, ◌++◌, Option, none, some, Bool, ltb, if◌then◌else◌, length, u32_at, u64_at,
  le32, le64, ◌==◌,
}

-- What one `read` of a socket yields: bytes (as many as asked for at most, and not none), the end of
-- the stream, EINTR, or another error.
pub data Read : Type 0 where
  got : List ℕ → Read
  eof : Read
  interrupted : Read
  failed : Read

-- What `read_n` yields: the `n` bytes, 0, -1; or it still waits when the reads are used up.
pub data ReadN : Type 0 where
  complete : List ℕ → List Read → ReadN
  ended : List Read → ReadN
  error : List Read → ReadN
  waiting : ReadN

-- the loop, with the bytes received so far
unfoldable pub read_loop : ℕ → List ℕ → List Read → ReadN
read_loop n recvd [] = if ltb (length recvd) n then waiting else complete recvd []
read_loop n recvd (r ∷ rs) =
    let on_got = λ (bs : List ℕ). read_loop n (recvd ++ bs) rs in
    let on_eintr = read_loop n recvd rs in
    if ltb (length recvd) n
    then elim r [ got bs ↦ on_got bs | eof ↦ ended rs | interrupted ↦ on_eintr | failed ↦ error rs ]
    else complete recvd (r ∷ rs)

unfoldable pub read_n : ℕ → List Read → ReadN
unfolding read_loop
read_n n reads = read_loop n [] reads

-- the types of messages that the server tells apart
pub data MsgType : Type 0 where
  command detach list_sessions detachkill exited resize grid_save other : MsgType

unfoldable pub msgtype_of : ℕ → MsgType
msgtype_of n =
    if n == 200
    then command
    else if n == 201
    then detach
    else if n == 202
    then list_sessions
    else if n == 203
    then detachkill
    else if n == 205
    then exited
    else if n == 209
    then resize
    else if n == 308
    then grid_save
    else other

pub record MsgHeader : Type 0 where
  pub type : ℕ
  pub len : ℕ

-- sixteen bytes: the type, four of padding, the length
abbrev pub sizeof_header : ℕ
sizeof_header = 16

unfoldable pub header_at : List ℕ → MsgHeader
header_at bs = record { type = u32_at bs 0; len = u64_at bs 8 }

-- the bytes of a header; those of the padding are an argument
unfoldable pub header_image : List ℕ → MsgHeader → List ℕ
header_image padding h = le32 h.type ++ (padding ++ le64 h.len)
