-- ===== src/Util/Descriptors/Stream.antt =====
-- Descriptors that `send_fd` and `recv_fd` of util.c pass over a stream, between the bytes of other
-- messages. Of `sendmsg` and `recvmsg` the documented behaviour is used: a descriptor that is not
-- open makes the call fail and nothing is sent, and a message of one byte takes one byte off the
-- stream, with the descriptor that was sent with it.
use mini_tmux.Base.{
  ℕ, zero, suc, ◌+◌, ◌≤◌, ◌≡◌, refl, List, [], ◌∷◌, ◌++◌, Option, none, some, arith, length, ap,
  ◌∙◌, sym, map, Option-cases, inl, inr, drop, replicate, ℤ, minus_one,
}
use mini_tmux.Util.Descriptors.{Message, Control, fd_message, recv_fd, scm_rights, sol_socket}

-- a byte, alone or with an open file
pub data Item : Type 0 where
  byte : ℕ → Item
  passed : ℕ → ℕ → Item

-- The open files of the sender's descriptors, and the descriptor that the receiver gets for one.
pub record Transport : Type 0 where
  pub file_of : ℤ → Option ℕ
  pub install : ℕ → ℤ

-- what bytes with a control message put on the stream, `none` where the descriptor is not open
abbrev pub sent_items : Transport → List ℕ → Option Control → Option (List Item)
sent_items t [] control = some []
sent_items t (b ∷ bs) none = some (map byte (b ∷ bs))
sent_items t (b ∷ bs) (some c) = elim (t.file_of c.value) [
  | none ↦ none
  | some file ↦ some (passed b file ∷ map byte bs)
]

abbrev pub sendmsg : Transport → Message → Option (List Item)
sendmsg t m = sent_items t m.bytes m.control

-- `recvmsg` of one byte, and the rest of the stream
abbrev pub recvmsg : Transport → Item → Message
recvmsg t (byte b) = record { bytes = b ∷ []; control = none }
recvmsg t (passed b file) = record {
  bytes = b ∷ [];
  control = some (record { level = sol_socket; type = scm_rights; value = t.install file });
}

-- the stream after `send_fd` for each of the descriptors
unfoldable pub send_all : Transport → List ℤ → List Item
send_all t [] = []
send_all t (fd ∷ fds) = elim (sendmsg t (fd_message fd)) [
  | none ↦ send_all t fds
  | some items ↦ items ++ send_all t fds
]

-- `n` calls of `recv_fd`, and the rest of the stream; `none` where a call waits
unfoldable pub receive_all : Transport → ℕ → List Item → Option (List ℤ × List Item)
receive_all t zero items = some ([], items)
receive_all t (suc n) [] = none
receive_all t (suc n) (item ∷ items) = elim (receive_all t n items) [
  | none ↦ none
  | some (fds, rest) ↦ some (recv_fd (some (recvmsg t item)) ∷ fds, rest)
]

-- the descriptors that arrive, of those that are open
abbrev pub arriving : Transport → List ℤ → List ℤ
arriving t [] = []
arriving t (fd ∷ fds) = elim (t.file_of fd) [
  | none ↦ arriving t fds
  | some file ↦ t.install file ∷ arriving t fds
]

-- how many are not open
abbrev pub lost : Transport → List ℤ → ℕ
lost t [] = 0
lost t (fd ∷ fds) = elim (t.file_of fd) [ none ↦ suc (lost t fds) | some file ↦ lost t fds ]

length-arriving : (t : Transport) (fds : List ℤ) → length (arriving t fds) + lost t fds ≡ length fds
length-arriving t [] = refl
length-arriving t (fd ∷ fds) = by_file (t.file_of fd) (length-arriving t fds)
  where
    by_file :
        (o : Option ℕ)
        → length (arriving t fds) + lost t fds ≡ length fds
        → length (elim o [ none ↦ arriving t fds | some file ↦ t.install file ∷ arriving t fds ])
            + elim o [ none ↦ suc (lost t fds) | some file ↦ lost t fds ]
          ≡ suc (length fds)
    by_file none h = omega (arith, h)
    by_file (some file) h = omega (arith, h)

-- bytes that carry no descriptor
receive_all-byte :
    (t : Transport) (m : ℕ) (bs : List ℕ)
    → m ≤ length bs
    → receive_all t m (map byte bs) ≡ some (replicate m minus_one, map byte (drop m bs))
unfolding receive_all recv_fd
receive_all-byte t zero bs h = refl
receive_all-byte t (suc m) [] h = absurd (omega (arith, h))
receive_all-byte t (suc m) (b ∷ bs) h = rw (receive_all-byte t m bs (omega (arith, h))) refl

receive_all-passed :
    (t : Transport) (n file : ℕ) (items : List Item) (fds : List ℤ) (rest : List Item)
    → receive_all t n items ≡ some (fds, rest)
    → receive_all t (suc n) (passed 0 file ∷ items) ≡ some (t.install file ∷ fds, rest)
unfolding receive_all recv_fd
receive_all-passed t n file items fds rest e = rw (e, receive_all) refl

-- The open descriptors come first, in order.
receive_all-send_all_append :
    (t : Transport) (fds : List ℤ) (m : ℕ) (items : List Item) (more : List ℤ) (rest : List Item)
    → receive_all t m items ≡ some (more, rest)
    → receive_all t (length (arriving t fds) + m) (send_all t fds ++ items)
      ≡ some (arriving t fds ++ more, rest)
unfolding receive_all send_all recv_fd fd_message
receive_all-send_all_append t [] m items more rest e =
    ap (λ n. receive_all t n items) (omega arith) ∙ e
receive_all-send_all_append t (fd ∷ fds) m items more rest e = elim (Option-cases (t.file_of fd)) [
  | inl dead ↦ rw (dead, arriving, send_all) (receive_all-send_all_append t fds m items more rest e)
  | inr (file, open_file) ↦
      rw (open_file, arriving, send_all)
        (ap (λ n. receive_all t n (passed 0 file ∷ (send_all t fds ++ items)))
            (suc_plus (length (arriving t fds)) m)
          ∙ receive_all-passed t (length (arriving t fds) + m) file (send_all t fds ++ items)
              (arriving t fds ++ more) rest (receive_all-send_all_append t fds m items more rest e))
]
  where
    suc_plus : (a b : ℕ) → suc a + b ≡ suc (a + b)
    suc_plus a b = omega arith

-- A client that receives a descriptor for each that the server was told to send, of which `lost` are
-- closed, before the bytes `bs`: it gets the open ones, in order, and then fails once for each lost
-- one. Each failure takes one of the bytes that follow, if there are as many.
pub receive_all-send_all :
    (t : Transport) (fds : List ℤ) (bs : List ℕ)
    → lost t fds ≤ length bs
    → receive_all t (length fds) (send_all t fds ++ map byte bs)
      ≡ some (arriving t fds ++ replicate (lost t fds) minus_one, map byte (drop (lost t fds) bs))
receive_all-send_all t fds bs h =
    ap (λ n. receive_all t n (send_all t fds ++ map byte bs)) (sym (length-arriving t fds))
    ∙ receive_all-send_all_append t fds (lost t fds) (map byte bs) _ _
        (receive_all-byte t (lost t fds) bs h)
