-- ===== src/Server/Parked.antt =====
-- A session between two clients: `server_receive` with an empty MSG_DETACH, the pass of
-- `server_loop` over the detached sessions, and MSG_DETACH with the id of the session.
use mini_tmux.Base.{
  ℕ, zero, suc, ◌<◌, ◌^◌, ◌≡◌, refl, List, [], ◌∷◌, ◌++◌, some, Bool, true, arith, ap, ◌∙◌, sym,
  subst, get_elem?, modify, find_index, if◌then◌else◌, if_both, Bool-cases, Option-cases, inl, inr,
  ℤ, pos, pos_part, minus_one, ◌==ℤ◌, ==ℤ_iff, to_int, le32, u32_at, u32_at-le32, lt→ltb,
}
use mathlib.Core.Option
use mathlib.Core.Option.{some-injective}
use mini_tmux.Server.Session.{
  Session, Server, Effect, emit, update_session, find_session_by_client_fd, find_session_by_id,
}
use mini_tmux.Server.Invariant.{IdsFrom, below_first}
use mini_tmux.Server.Kill.{==ℤ_false}
use mini_tmux.Server.Wire.{detach}
use mini_tmux.Server.Receive.{Kernel, Texts, Reply, returns, current_session, new_session}
use mini_tmux.Server.Receive.Dispatch.{
  receive_detach, receive_attach, attached, attach_effects, receive_message, receive_for_session,
}
use mini_tmux.Server.Loop.{sweep_session, sweep_sessions}

abbrev pub marked : Session → Session
marked s = record s { detached = true }

abbrev pub without_client : Session → Session
without_client s = record s { client_fd = minus_one }

-- The session of the connection is marked.
pub receive_detach_lem :
    (fd : ℤ) (j : ℕ) (sv : Server)
    → find_session_by_client_fd sv.sessions fd ≡ some j
    → receive_detach fd sv ≡ returns (pos 1) (update_session sv j marked)
unfolding receive_detach
receive_detach_lem fd j sv found = rw (found, receive_detach) refl

sweep_session_detached :
    (s : Session) (fds : List ℤ) → s.detached ≡ true → (sweep_session s fds).0 ≡ without_client s
unfolding sweep_session
sweep_session_detached s fds gone = rw gone refl

-- The pass takes the client from a session that is marked, and leaves the rest of it.
pub get_elem?-sweep_sessions :
    (ss : List Session) (fds : List ℤ) (j : ℕ) (s : Session)
    → get_elem? ss j ≡ some s
    → s.detached ≡ true
    → get_elem? (sweep_sessions ss fds).0 j ≡ some (without_client s)
unfolding sweep_sessions
get_elem?-sweep_sessions [] fds j s e gone = absurd (cc)
get_elem?-sweep_sessions (x ∷ ss) fds zero s e gone =
    let same = some-injective x s e in
    ap some
      (sweep_session_detached x fds (ap (λ y. y.detached) same ∙ gone) ∙ ap without_client same)
get_elem?-sweep_sessions (x ∷ ss) fds (suc j) s e gone =
    get_elem?-sweep_sessions ss (sweep_session x fds).1 j s e gone

sweep_session-id : (s : Session) (fds : List ℤ) → (sweep_session s fds).0.id ≡ s.id
unfolding sweep_session
sweep_session-id s fds =
    if_both (λ (r : Session × List ℤ × _). r.0.id ≡ s.id) s.detached _ _ refl refl

-- A search by id finds the same place as before the pass.
pub find_session_by_id-sweep_sessions :
    (ss : List Session) (fds : List ℤ) (id : ℤ)
    → find_session_by_id (sweep_sessions ss fds).0 id ≡ find_session_by_id ss id
unfolding find_session_by_id find_index sweep_sessions
find_session_by_id-sweep_sessions [] fds id = refl
find_session_by_id-sweep_sessions (s ∷ ss) fds id =
    ap
      (λ n.
        if n ==ℤ id
        then some 0
        else Option.map suc (find_session_by_id (sweep_sessions ss (sweep_session s fds).1).0 id))
      (sweep_session-id s fds)
    ∙ ap (λ o. if s.id ==ℤ id then some 0 else Option.map suc o)
        (find_session_by_id-sweep_sessions ss (sweep_session s fds).1 id)

-- Where the ids ascend, the search for the id of a session finds the session.
pub find_session_by_id-IdsFrom :
    (b : ℕ) (k j : ℕ) (ss : List Session) (s : Session)
    → IdsFrom b k ss
    → get_elem? ss j ≡ some s
    → find_session_by_id ss s.id ≡ some j
unfolding find_session_by_id find_index
find_session_by_id-IdsFrom b k j [] s h e = absurd (cc)
find_session_by_id-IdsFrom b k zero (x ∷ ss) s h e =
    rw ((==ℤ_iff x.id s.id).1 (ap (λ y. y.id) (some-injective x s e))) refl
find_session_by_id-IdsFrom b k (suc j) (x ∷ ss) s h e =
    rw
      (==ℤ_false x.id s.id
        (λ same. omega (arith, below_first _ (suc (pos_part x.id)) j ss s h.2 e, ap pos_part same)))
      refl
    ∙ ap (Option.map suc) (find_session_by_id-IdsFrom _ (suc (pos_part x.id)) j ss s h.2 e)

receive_attach_detached :
    (fd : ℤ) (padding : List ℕ) (id j : ℕ) (sv : Server) (s : Session)
    → id < 2 ^ 31
    → find_session_by_id sv.sessions (pos id) ≡ some j
    → get_elem? sv.sessions j ≡ some s
    → s.detached ≡ true
    → receive_attach fd padding (le32 id) sv
      ≡ returns (pos 1) (update_session (emit sv (attach_effects fd padding s)) j (attached fd))
unfolding receive_attach
receive_attach_detached fd padding id j sv s small found at gone =
    let number : to_int (u32_at (le32 id) 0) ≡ pos id =
      ap to_int (u32_at-le32 id [] (omega (arith, small))) ∙ rw (lt→ltb id (2 ^ 31) small) refl in
    rw (number, found, at, gone, receive_attach) refl

get_elem?-append_some :
    (ss rest : List Session) (j : ℕ) (s : Session)
    → get_elem? ss j ≡ some s
    → get_elem? (ss ++ rest) j ≡ some s
get_elem?-append_some [] rest j s e = absurd (cc)
get_elem?-append_some (x ∷ ss) rest zero s e = e
get_elem?-append_some (x ∷ ss) rest (suc j) s e = get_elem?-append_some ss rest j s e

find_index-append_some :
    (p : Session → Bool) (ss rest : List Session) (j : ℕ)
    → find_index p ss ≡ some j
    → find_index p (ss ++ rest) ≡ some j
unfolding find_index
find_index-append_some p [] rest j e = absurd (cc)
find_index-append_some p (x ∷ ss) rest j e = elim (Bool-cases (p x)) [
  | inl t ↦ rw t (sym (rw t refl) ∙ e)
  | inr f ↦ elim (Option-cases (find_index p ss)) [
    | inl n ↦ absurd (ground arith)
    | inr (m, q) ↦ rw (f, find_index-append_some p ss rest m q) (sym (rw (f, q) refl) ∙ e)
  ]
]

pub get_elem?-modify :
    (ss : List Session) (j : ℕ) (f : Session → Session) (s : Session)
    → get_elem? ss j ≡ some s
    → get_elem? (modify ss j f) j ≡ some (f s)
unfolding modify
get_elem?-modify [] j f s e = absurd (cc)
get_elem?-modify (x ∷ ss) zero f s e = ap (λ y. some (f y)) (some-injective x s e)
get_elem?-modify (x ∷ ss) (suc j) f s e = get_elem?-modify ss j f s e

-- The answer to the one who asks: the session `s` at `j` is sent, and has the connection as client.
pub record Given (fd : ℤ) (padding : List ℕ) (j : ℕ) (s : Session) (trace : List Effect) (r : Reply)
    : Type 0 where
  pub server : Server
  pub returned : r ≡ returns (pos 1) server
  pub sent : server.trace ≡ trace ++ attach_effects fd padding s
  pub owner : get_elem? server.sessions j ≡ some (attached fd s)

receive_attach-Given :
    (fd : ℤ) (padding : List ℕ) (id j : ℕ) (sv : Server) (s : Session)
    → id < 2 ^ 31
    → find_session_by_id sv.sessions (pos id) ≡ some j
    → get_elem? sv.sessions j ≡ some s
    → s.detached ≡ true
    → Given fd padding j s sv.trace (receive_attach fd padding (le32 id) sv)
receive_attach-Given fd padding id j sv s small found at gone = record {
  server = update_session (emit sv (attach_effects fd padding s)) j (attached fd);
  returned = receive_attach_detached fd padding id j sv s small found at gone;
  sent = refl;
  owner = get_elem?-modify sv.sessions j (attached fd) s at;
}

receive_message_attach :
    (k : Kernel) (t : Texts) (fd : ℤ) (padding : List ℕ) (id : ℕ) (sv : Server)
    → receive_message k t fd padding detach (le32 id) sv
      ≡ receive_attach fd padding (le32 id) (current_session k fd sv).1
unfolding receive_message receive_for_session
receive_message_attach k t fd padding id sv = refl

-- A connection, new or not, that asks for a detached session by its id is given the session.
pub receive_message-Given :
    (k : Kernel) (t : Texts) (fd : ℤ) (padding : List ℕ) (id j : ℕ) (sv : Server) (s : Session)
    → id < 2 ^ 31
    → find_session_by_id sv.sessions (pos id) ≡ some j
    → get_elem? sv.sessions j ≡ some s
    → s.detached ≡ true
    → Given fd padding j s sv.trace (receive_message k t fd padding detach (le32 id) sv)
unfolding current_session new_session find_session_by_id
receive_message-Given k t fd padding id j sv s small found at gone =
    subst (Given fd padding j s sv.trace) (sym (receive_message_attach k t fd padding id sv))
      (elim (Option-cases (find_session_by_client_fd sv.sessions fd)) [
        | inl e ↦
            rw (e, current_session)
              (receive_attach-Given fd padding id j (new_session k fd sv) s small
                (find_index-append_some (λ x. x.id ==ℤ pos id) sv.sessions _ j found)
                (get_elem?-append_some sv.sessions _ j s at) gone)
        | inr (i, e) ↦
            rw (e, current_session) (receive_attach-Given fd padding id j sv s small found at gone)
      ])
