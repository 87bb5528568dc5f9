-- ===== src/Util/Descriptors.antt =====
-- util.c: `send_fd` and `recv_fd`. What `sendmsg` returns, and the message that `recvmsg` fills in,
-- are arguments.
pub mod Stream
use mini_tmux.Base.{
  ℕ, List, [], ◌∷◌, Option, none, some, Bool, ◌==◌, if◌then◌else◌, ℤ, pos, minus_one, is_nonneg,
}

-- SOL_SOCKET and SCM_RIGHTS
abbrev pub sol_socket : ℕ
sol_socket = 1

abbrev pub scm_rights : ℕ
scm_rights = 1

-- the control message: its level, its type, and the `int` of its data
pub record Control : Type 0 where
  pub level : ℕ
  pub type : ℕ
  pub value : ℤ

-- `struct msghdr`, with the bytes of its one buffer
pub record Message : Type 0 where
  pub bytes : List ℕ
  pub control : Option Control

-- the message of `send_fd`
unfoldable pub fd_message : ℤ → Message
fd_message fd = record {
  bytes = 0 ∷ [];
  control = some (record { level = sol_socket; type = scm_rights; value = fd });
}

unfoldable pub send_fd : (Message → ℤ) → ℤ → ℤ
send_fd sendmsg fd = if is_nonneg (sendmsg (fd_message fd)) then pos 0 else minus_one

-- `none` where `recvmsg` fails
unfoldable pub recv_fd : Option Message → ℤ
recv_fd none = minus_one
recv_fd (some m) = elim m.control [
  | none ↦ minus_one
  | some c ↦ if c.type == scm_rights then c.value else minus_one
]
