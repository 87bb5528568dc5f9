-- ===== src/Server/Receive/Dispatch.antt =====
-- `server_receive` of server.c, second part: MSG_DETACH, with which a client detaches or attaches,
-- MSG_GRID_SAVE, and the function itself.
use mini_tmux.Base.{
  ℕ, zero, suc, ◌+◌, List, [], ◌∷◌, ◌++◌, Option, none, some, Bool, true, false, ltb, if◌then◌else◌,
  length, get_elem?, set, ℤ, pos, minus_one, to_int, le32, u32_at,
}
use mini_tmux.Server.Session.{
  Session, max_panes, find_session_by_client_fd, find_session_by_id, Effect, wrote, sent_fd, Server,
  emit, update_session,
}
use mini_tmux.Server.Wire.{
  Read, complete, ended, error, waiting, read_n, MsgType, command, detach, list_sessions,
  detachkill, exited, resize, grid_save, other, msgtype_of, sizeof_header, header_at, header_image,
}
use mini_tmux.Server.Receive.{
  Reply, returns, faults, blocks, Kernel, Texts, receive_list, receive_kill, current_session,
  receive_command, receive_resize,
}

-- the first `n` descriptors, sent in order
unfoldable pub send_masters : ℤ → ℕ → List ℤ → List Effect
send_masters fd zero fds = []
send_masters fd (suc n) [] = []
send_masters fd (suc n) (m ∷ fds) = sent_fd fd m ∷ send_masters fd n fds

-- `grid_data[i] && grid_data_len[i] > 0`
unfoldable pub has_grid : Option (List ℕ) → Bool
has_grid none = false
has_grid (some []) = false
has_grid (some (b ∷ bs)) = true

-- how many of the first `n` panes have a grid
unfoldable pub grid_count : ℕ → List (Option (List ℕ)) → ℕ
grid_count zero gs = 0
grid_count (suc n) [] = 0
grid_count (suc n) (g ∷ gs) = (if has_grid g then 1 else 0) + grid_count n gs

-- a header of type MSG_GRID_SAVE and the bytes, for a pane with a grid
unfoldable pub send_grid : ℤ → List ℕ → Option (List ℕ) → List Effect
send_grid fd padding none = []
send_grid fd padding (some []) = []
send_grid fd padding (some (b ∷ bs)) =
    wrote fd (header_image padding (record { type = 308; len = length (b ∷ bs) }))
    ∷ wrote fd (b ∷ bs)
    ∷ []

-- the grids of the first `n` panes, sent in order
unfoldable pub send_grids : ℤ → List ℕ → ℕ → List (Option (List ℕ)) → List Effect
send_grids fd padding zero gs = []
send_grids fd padding (suc n) [] = []
send_grids fd padding (suc n) (g ∷ gs) = send_grid fd padding g ++ send_grids fd padding n gs

-- what is left of the grids when those of the first `n` panes were sent and freed
unfoldable pub drop_grids : ℕ → List (Option (List ℕ)) → List (Option (List ℕ))
drop_grids zero gs = gs
drop_grids (suc n) [] = []
drop_grids (suc n) (g ∷ gs) = (if has_grid g then none else g) ∷ drop_grids n gs

unfoldable pub attach_effects : ℤ → List ℕ → Session → List Effect
attach_effects fd padding target =
    wrote fd (le32 target.pane_count)
    ∷ (send_masters fd target.pane_count target.master_fds
        ++ (wrote fd (le32 (grid_count target.pane_count target.grid_data))
            ∷ send_grids fd padding target.pane_count target.grid_data))

unfoldable pub attached : ℤ → Session → Session
attached fd s = record s {
  grid_data = drop_grids s.pane_count s.grid_data;
  client_fd = fd;
  detached = false;
}

-- MSG_DETACH with a payload: attach to the session that it names
unfoldable pub receive_attach : ℤ → List ℕ → List ℕ → Server → Reply
receive_attach fd padding buf sv =
    if ltb (length buf) 4
    then faults
    else let refused = returns (pos 1) (emit sv (wrote fd (le32 0) ∷ [])) in
      elim (find_session_by_id sv.sessions (to_int (u32_at buf 0))) [
        | none ↦ refused
        | some i ↦ elim (get_elem? sv.sessions i) [
          | none ↦ refused
          | some target ↦
              if target.detached
              then returns (pos 1)
                  (update_session (emit sv (attach_effects fd padding target)) i (attached fd))
              else refused
        ]
      ]

-- MSG_DETACH with no payload: the session of `fd` is marked, and the main loop closes `fd`
unfoldable pub receive_detach : ℤ → Server → Reply
receive_detach fd sv = elim (find_session_by_client_fd sv.sessions fd) [
  | none ↦ returns (pos 1) sv
  | some i ↦ returns (pos 1) (update_session sv i (λ s. record s { detached = true }))
]

-- MSG_GRID_SAVE: the payload, its pane id in front, is kept for the pane
unfoldable pub receive_grid_save : ℤ → List ℕ → Server → Reply
receive_grid_save fd buf sv = elim (find_session_by_client_fd sv.sessions fd) [
  | none ↦ returns (pos 1) sv
  | some i ↦
      if ltb (length buf) 4
      then faults
      else if ltb (u32_at buf 0) max_panes
      then returns (pos 1) (
          update_session sv i
            (λ s. record s { grid_data = set s.grid_data (u32_at buf 0) (some buf) }))
      else returns (pos 1) sv
]

-- the messages that belong to a session, at place `i`
unfoldable pub receive_for_session : Kernel → ℤ → List ℕ → MsgType → List ℕ → ℕ → Server → Reply
receive_for_session k fd padding command buf i sv = elim (get_elem? sv.sessions i) [
  | none ↦ faults
  | some cur ↦ receive_command k fd buf i cur sv
]
receive_for_session k fd padding resize buf i sv = receive_resize buf i sv
receive_for_session k fd padding exited buf i sv = returns minus_one sv
receive_for_session k fd padding detach [] i sv = receive_detach fd sv
receive_for_session k fd padding detach (b ∷ buf) i sv = receive_attach fd padding (b ∷ buf) sv
receive_for_session k fd padding grid_save buf i sv = receive_grid_save fd buf sv
receive_for_session k fd padding list_sessions buf i sv = returns (pos 1) sv
receive_for_session k fd padding detachkill buf i sv = returns (pos 1) sv
receive_for_session k fd padding other buf i sv = returns (pos 1) sv

-- a message of type `ty` with payload `buf`; `padding` is in the headers that are sent
unfoldable pub receive_message : Kernel → Texts → ℤ → List ℕ → MsgType → List ℕ → Server → Reply
receive_message k t fd padding list_sessions buf sv = receive_list t fd sv
receive_message k t fd padding detachkill buf sv = receive_kill t fd buf sv
receive_message k t fd padding ty buf sv =
    let (i, sv') = current_session k fd sv in receive_for_session k fd padding ty buf i sv'

-- the payload, read if the length is not 0
unfoldable pub read_payload : ℕ → List Read → (List ℕ → Reply) → Server → Reply
read_payload len reads then_do sv =
    if ltb 0 len
    then elim (read_n len reads) [
      | complete buf rest ↦ then_do buf
      | ended rest ↦ returns minus_one sv
      | error rest ↦ returns minus_one sv
      | waiting ↦ blocks
    ]
    else then_do []

-- `server_receive(fd)`, given what the reads of the socket yield
unfoldable pub server_receive : Kernel → Texts → ℤ → List ℕ → List Read → Server → Reply
server_receive k t fd padding reads sv = elim (read_n sizeof_header reads) [
  | complete bytes rest ↦
      let h = header_at bytes in
      read_payload h.len rest (λ buf. receive_message k t fd padding (msgtype_of h.type) buf sv) sv
  | ended rest ↦ returns minus_one sv
  | error rest ↦ returns minus_one sv
  | waiting ↦ blocks
]
