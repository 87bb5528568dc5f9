-- ===== src/Server/Attach.antt =====
-- MSG_DETACH with a session id: what an attaching client is sent, and what it costs.
use mini_tmux.Base.{
  ℕ, zero, suc, ◌+◌, ◌*◌, ◌≤◌, ◌≡◌, refl, List, [], ◌∷◌, Option, none, some, arith, length,
  get_elem?, ℤ, pos, if◌then◌else◌, length-append, ap, modify, subst, if_both, le→ltb_false, to_int,
  u32_at, le32,
}
use mini_tmux.Server.Session.{
  Session, Server, wrote, emit, update_session, find_session_by_id, find_session_by_client_fd,
}
use mini_tmux.Server.Wire.{detach}
use mini_tmux.Server.Receive.{Reply, returns, Kernel, Texts, new_session, current_session}
use mini_tmux.Server.Receive.Dispatch.{
  send_masters, has_grid, grid_count, send_grid, send_grids, receive_attach, attach_effects,
  attached, receive_message, receive_for_session,
}
use mini_tmux.Server.Invariant.{IsSession}

length-send_grids :
    (fd : ℤ) (padding : List ℕ) (n : ℕ) (gs : List (Option (List ℕ)))
    → length (send_grids fd padding n gs) ≡ 2 * grid_count n gs
unfolding send_grids grid_count send_grid has_grid
length-send_grids fd padding zero gs = refl
length-send_grids fd padding (suc n) [] = refl
length-send_grids fd padding (suc n) (none ∷ gs) = omega (arith, length-send_grids fd padding n gs)
length-send_grids fd padding (suc n) (some [] ∷ gs) =
    omega (arith, length-send_grids fd padding n gs)
length-send_grids fd padding (suc n) (some (b ∷ bs) ∷ gs) =
    omega (arith, length-send_grids fd padding n gs)

length-send_masters :
    (fd : ℤ) (n : ℕ) (fds : List ℤ) → n ≤ length fds → length (send_masters fd n fds) ≡ n
unfolding send_masters
length-send_masters fd zero fds h = refl
length-send_masters fd (suc n) [] h = absurd (omega arith)
length-send_masters fd (suc n) (m ∷ fds) h = ap suc (length-send_masters fd n fds (omega arith))

-- To a client that attaches to a well-formed session the server sends as many descriptors as the
-- pane count it announces, and a header and a body for each of the grids it announces.
pub attach_announces :
    (fd : ℤ) (padding : List ℕ) (s : Session)
    → IsSession s
    → (length (send_masters fd s.pane_count s.master_fds) ≡ s.pane_count)
      × (length (send_grids fd padding s.pane_count s.grid_data)
          ≡ 2 * grid_count s.pane_count s.grid_data)
attach_announces fd padding s v = (
  length-send_masters fd s.pane_count s.master_fds (omega (arith, v.masters, v.panes)),
  length-send_grids fd padding s.pane_count s.grid_data,
)

length-modify :
    (ss : List Session) (i : ℕ) (f : Session → Session) → length (modify ss i f) ≡ length ss
unfolding modify
length-modify [] i f = refl
length-modify (s ∷ ss) zero f = refl
length-modify (s ∷ ss) (suc i) f = ap suc (length-modify ss i f)

-- the call returns 1, and leaves `n` sessions
abbrev pub ReturnsCount : ℕ → Reply → Type 0
ReturnsCount n (returns r sv) = (r ≡ pos 1) × (length sv.sessions ≡ n)
ReturnsCount n _ = ⊥

receive_attach-ReturnsCount :
    (fd : ℤ) (padding buf : List ℕ) (sv : Server)
    → 4 ≤ length buf
    → ReturnsCount (length sv.sessions) (receive_attach fd padding buf sv)
unfolding receive_attach
receive_attach-ReturnsCount fd padding buf sv long =
    rw (le→ltb_false (length buf) 4 long, receive_attach, ReturnsCount)
      (by_place (find_session_by_id sv.sessions (to_int (u32_at buf 0))))
  where
    count : ℕ
    count = length sv.sessions

    refused : Reply
    refused = returns (pos 1) (emit sv (wrote fd (le32 0) ∷ []))

    attach_at : ℕ → Session → Reply
    attach_at i target =
        if target.detached
        then returns (pos 1)
            (update_session (emit sv (attach_effects fd padding target)) i (attached fd))
        else refused

    by_place :
        (o : Option ℕ)
        → ReturnsCount count (elim o [
          | none ↦ refused
          | some i ↦ elim (get_elem? sv.sessions i) [
            | none ↦ refused
            | some target ↦ attach_at i target
          ]
        ])
    by_place none = (refl, refl)
    by_place (some i) = by_session (get_elem? sv.sessions i)
      where
        by_session :
            (o : Option Session)
            → ReturnsCount count (elim o [ none ↦ refused | some target ↦ attach_at i target ])
        by_session none = (refl, refl)
        by_session (some target) =
            if_both (ReturnsCount count) target.detached _ _
              (refl, length-modify sv.sessions i (attached fd)) (refl, refl)

-- A client that attaches over a connection which has no session yet is answered, also when the
-- attach is refused, but the server has one session more than before.
pub attach_adds_session :
    (k : Kernel) (t : Texts) (fd : ℤ) (padding : List ℕ) (b : ℕ) (buf : List ℕ) (sv : Server)
    → 3 ≤ length buf
    → find_session_by_client_fd sv.sessions fd ≡ none
    → ReturnsCount (length sv.sessions + 1) (receive_message k t fd padding detach (b ∷ buf) sv)
unfolding receive_message receive_for_session current_session new_session
attach_adds_session k t fd padding b buf sv long new =
    rw (new, receive_message, current_session, ReturnsCount)
      (subst (λ n. ReturnsCount n (receive_attach fd padding (b ∷ buf) (new_session k fd sv)))
        (length-append sv.sessions _)
        (receive_attach-ReturnsCount fd padding (b ∷ buf) (new_session k fd sv) (omega arith)))
