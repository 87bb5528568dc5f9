-- ===== src/Server/Invariant/Receive.antt =====
-- Every way through `server_receive` keeps the server's state valid.
use mini_tmux.Base.{
  ℕ, suc, ◌≤◌, ◌^◌, arith, ◌≡◌, refl, List, [], ◌∷◌, Option, none, some, length, get_elem?, ℤ, pos,
  minus_one, Bool, true, false, Option-cases, inl, inr, length-set, u32_at, to_int, ltb, ◌∙◌,
}
use mini_tmux.Server.Session.{
  Session, Server, max_panes, find_session_by_client_fd, find_session_by_id,
}
use mini_tmux.Server.Wire.{
  Read, ReadN, complete, ended, error, waiting, read_n, MsgType, command, detach, list_sessions,
  detachkill, exited, resize, grid_save, other, msgtype_of, header_at, sizeof_header,
}
use mini_tmux.Server.Receive.{
  returns, faults, blocks, Kernel, Texts, receive_command, opens_pane, open_pane, receive_resize,
}
use mini_tmux.Server.Receive.Dispatch.{
  attached, receive_attach, receive_detach, receive_grid_save, receive_for_session, receive_message,
  read_payload, server_receive,
}
use mini_tmux.Server.Invariant.{IsSession, IsValid, IsValid-grow}
use mini_tmux.Server.Invariant.Reply.{
  LeavesValid, current_session-IsValid, either, emit-IsValid, length-drop_grids, on_option,
  open_pane-LeavesValid, receive_kill-LeavesValid, receive_list-LeavesValid, update_session-IsValid,
}

receive_command-LeavesValid :
    {b : ℕ} (k : Kernel) (fd : ℤ) (buf : List ℕ) (i : ℕ) (cur : Session) (sv : Server)
    → get_elem? sv.sessions i ≡ some cur
    → IsValid b sv
    → LeavesValid b (receive_command k fd buf i cur sv)
unfolding receive_command
receive_command-LeavesValid {b} k fd buf i cur sv at v = by_answer (opens_pane buf)
  where
    by_answer :
        (o : Option Bool)
        → LeavesValid b (elim o [
          | none ↦ faults
          | some true ↦ open_pane k fd i cur sv
          | some false ↦ returns (pos 1) sv
        ])
    by_answer none = tt
    by_answer (some true) = open_pane-LeavesValid k fd i cur sv at v
    by_answer (some false) = v

receive_attach-LeavesValid :
    {b : ℕ} (fd : ℤ) (padding buf : List ℕ) (sv : Server)
    → IsValid b sv
    → LeavesValid b (receive_attach fd padding buf sv)
unfolding receive_attach attached
receive_attach-LeavesValid fd padding buf sv v = either _ (ltb (length buf) 4) _ _ tt (
    on_option _ (find_session_by_id sv.sessions (to_int (u32_at buf 0))) _ _ (emit-IsValid sv _ v)
      λ i. on_option _ (get_elem? sv.sessions i) _ _ (emit-IsValid sv _ v) λ target.
        either _ target.detached _ _
          (update_session-IsValid _ i (attached fd) keep (λ s. refl) (emit-IsValid sv _ v))
          (emit-IsValid sv _ v))
  where
    keep : (s : Session) → IsSession s → IsSession (attached fd s)
    keep s h = record {
      masters = h.masters;
      pids = h.pids;
      grids = length-drop_grids s.pane_count s.grid_data ∙ h.grids;
      panes = h.panes;
    }

receive_for_session-LeavesValid :
    {b : ℕ} (k : Kernel) (fd : ℤ) (padding : List ℕ) (ty : MsgType) (buf : List ℕ) (i : ℕ)
    (sv : Server)
    → IsValid b sv
    → LeavesValid b (receive_for_session k fd padding ty buf i sv)
unfolding receive_for_session receive_resize receive_detach receive_grid_save
receive_for_session-LeavesValid k fd padding command buf i sv v =
    elim (Option-cases (get_elem? sv.sessions i)) [
      | inl e ↦ rw (e, receive_for_session, LeavesValid) tt
      | inr (cur, e) ↦
          rw (e, receive_for_session, LeavesValid)
            (receive_command-LeavesValid k fd buf i cur sv e v)
    ]
receive_for_session-LeavesValid k fd padding resize buf i sv v =
    either _ (ltb (length buf) 8) _ _ tt (
      update_session-IsValid sv i _
        (λ s h. record { masters = h.masters; pids = h.pids; grids = h.grids; panes = h.panes })
        (λ s. refl) v)
receive_for_session-LeavesValid k fd padding exited buf i sv v = v
receive_for_session-LeavesValid k fd padding detach [] i sv v =
    on_option _ (find_session_by_client_fd sv.sessions fd) _ _ v λ j.
      update_session-IsValid sv j _
        (λ s h. record { masters = h.masters; pids = h.pids; grids = h.grids; panes = h.panes })
        (λ s. refl) v
receive_for_session-LeavesValid k fd padding detach (x ∷ buf) i sv v =
    receive_attach-LeavesValid fd padding (x ∷ buf) sv v
receive_for_session-LeavesValid k fd padding grid_save buf i sv v =
    on_option _ (find_session_by_client_fd sv.sessions fd) _ _ v λ j.
      either _ (ltb (length buf) 4) _ _ tt (
        either _ (ltb (u32_at buf 0) max_panes) _ _
          (update_session-IsValid sv j _
            (λ s h. record {
              masters = h.masters;
              pids = h.pids;
              grids = length-set s.grid_data _ _ ∙ h.grids;
              panes = h.panes;
            })
            (λ s. refl) v)
          v)
receive_for_session-LeavesValid k fd padding list_sessions buf i sv v = v
receive_for_session-LeavesValid k fd padding detachkill buf i sv v = v
receive_for_session-LeavesValid k fd padding other buf i sv v = v

receive_message-LeavesValid :
    {b : ℕ} (k : Kernel) (t : Texts) (fd : ℤ) (padding : List ℕ) (ty : MsgType) (buf : List ℕ)
    (sv : Server)
    → suc b ≤ 2 ^ 31
    → IsValid b sv
    → LeavesValid (suc b) (receive_message k t fd padding ty buf sv)
unfolding receive_message
receive_message-LeavesValid k t fd padding list_sessions buf sv room v =
    receive_list-LeavesValid t fd sv (IsValid-grow sv (omega arith) v)
receive_message-LeavesValid k t fd padding detachkill buf sv room v =
    receive_kill-LeavesValid t fd buf sv (IsValid-grow sv (omega arith) v)
receive_message-LeavesValid k t fd padding ty buf sv room v =
    receive_for_session-LeavesValid k fd padding _ buf _ _ (current_session-IsValid k fd sv room v)

-- On a server whose session ids ascend from 0 and are below `b`, `b` less than 2^31, with arrays of
-- 64 entries and at most 64 panes to a session, `server_receive` leaves such a server again, the ids
-- below `b + 1`, whatever a client sends and the kernel answers. If the call returns or ends the
-- process, this holds of the state that it leaves; a call that reads or writes outside a buffer, or
-- waits for more bytes, leaves none.
pub server_receive-LeavesValid :
    {b : ℕ} (k : Kernel) (t : Texts) (fd : ℤ) (padding : List ℕ) (reads : List Read) (sv : Server)
    → suc b ≤ 2 ^ 31
    → IsValid b sv
    → LeavesValid (suc b) (server_receive k t fd padding reads sv)
unfolding server_receive read_payload
server_receive-LeavesValid {b} k t fd padding reads sv room v =
    on_header (read_n sizeof_header reads)
  where
    on_payload :
        (ty : MsgType) (p : ReadN)
        → LeavesValid (suc b) (elim p [
          | complete buf rest ↦ receive_message k t fd padding ty buf sv
          | ended rest ↦ returns minus_one sv
          | error rest ↦ returns minus_one sv
          | waiting ↦ blocks
        ])
    on_payload ty (complete buf rest) = receive_message-LeavesValid k t fd padding ty buf sv room v
    on_payload ty (ended rest) = IsValid-grow sv (omega arith) v
    on_payload ty (error rest) = IsValid-grow sv (omega arith) v
    on_payload ty waiting = tt

    on_header :
        (r : ReadN)
        → LeavesValid (suc b) (elim r [
          | complete bytes rest ↦
              read_payload
                (header_at bytes).len
                rest
                (λ buf. receive_message k t fd padding (msgtype_of (header_at bytes).type) buf sv)
                sv
          | ended rest ↦ returns minus_one sv
          | error rest ↦ returns minus_one sv
          | waiting ↦ blocks
        ])
    on_header (complete bytes rest) =
        either _ (ltb 0 (header_at bytes).len) _ _
          (on_payload (msgtype_of (header_at bytes).type) (read_n (header_at bytes).len rest))
          (receive_message-LeavesValid k t fd padding (msgtype_of (header_at bytes).type) [] sv room
            v)
    on_header (ended rest) = IsValid-grow sv (omega arith) v
    on_header (error rest) = IsValid-grow sv (omega arith) v
    on_header waiting = tt
