-- ===== src/Server/Invariant/Faults.antt =====
-- What makes a handler of `server_receive` access memory outside a buffer.
use mini_tmux.Base.{
  ℕ, ◌≤◌, ◌<◌, ◌≡◌, inl, inr, refl, List, [], ◌∷◌, ◌++◌, Option, none, some, arith, length,
  get_elem?, ℤ, pos, minus_one, ◌==ℤ◌, Bool, true, false, Bool-cases, Option-cases, if_both, ltb,
  u32_at, to_int, leb, is_nonneg, if◌then◌else◌, ltb→lt, ltb_false→le,
}
use mini_tmux.Server.Session.{
  Session, Server, max_panes, find_session_by_client_fd, find_session_by_id,
}
use mini_tmux.Server.Wire.{
  MsgType, command, detach, list_sessions, detachkill, exited, resize, grid_save, other,
}
use mini_tmux.Server.Receive.{
  Reply, returns, exits, faults, blocks, Kernel, Texts, receive_command, opens_pane, open_pane,
  receive_resize, receive_list, receive_kill, list_lines, response_size, current_session,
  new_session,
}
use mini_tmux.Server.Receive.Dispatch.{
  receive_attach, receive_detach, receive_grid_save, receive_for_session, receive_message,
}
use mini_tmux.Server.Kill.{find_index-some}
use mini_tmux.Server.Listing.{listing, list_lines-listing}

-- a call that faults has the reason `M`
abbrev pub FaultsOn : Type 0 → Reply → Type 0
FaultsOn M (returns r sv) = Unit
FaultsOn M (exits sv) = Unit
FaultsOn M faults = M
FaultsOn M blocks = Unit

-- What is wrong with a message: the listing does not fit the buffer of the answer, the payload is
-- shorter than what the handler reads of it, or the text of MSG_COMMAND ends before the NUL.
abbrev pub Malformed : Texts → Server → MsgType → List ℕ → Type 0
Malformed t sv list_sessions buf = response_size ≤ length (listing t sv.sessions)
Malformed t sv detachkill buf = length buf < 4
Malformed t sv command buf = opens_pane buf ≡ none
Malformed t sv resize buf = length buf < 8
Malformed t sv exited buf = ⊥
Malformed t sv detach [] = ⊥
Malformed t sv detach (x ∷ buf) = length (x ∷ buf) < 4
Malformed t sv grid_save buf = length buf < 4
Malformed t sv other buf = ⊥

module _ (M : Type 0) where
  pub branch :
      (test : Bool) (x y : Reply) → FaultsOn M x → FaultsOn M y → FaultsOn M (if test then x else y)
  branch = if_both (FaultsOn M)

  found {ℓ} :
      {A : Type ℓ} (o : Option A) (x : Reply) (f : A → Reply)
      → FaultsOn M x
      → ((a : A) → FaultsOn M (f a))
      → FaultsOn M (elim o [ none ↦ x | some a ↦ f a ])
  found none x f p q = p
  found (some a) x f p q = q a

-- a payload that is too short, and what is done with one that is not
short_payload :
    (buf : List ℕ) (n : ℕ) (r : Reply)
    → FaultsOn (length buf < n) r
    → FaultsOn (length buf < n) (if ltb (length buf) n then faults else r)
short_payload buf n r h = elim (Bool-cases (ltb (length buf) n)) [
  | inl short ↦ rw (short, FaultsOn) (ltb→lt (length buf) n short)
  | inr long ↦ rw (long, FaultsOn) h
]

receive_list-FaultsOn :
    (t : Texts) (fd : ℤ) (sv : Server)
    → FaultsOn (response_size ≤ length (listing t sv.sessions)) (receive_list t fd sv)
unfolding receive_list
receive_list-FaultsOn t fd sv =
    elim (Bool-cases (ltb (length (listing t sv.sessions)) response_size)) [
      | inl fits ↦
          rw
            (
              list_lines-listing t sv.sessions [] 0 (omega (arith, ltb→lt _ _ fits)),
              receive_list,
              FaultsOn,
            )
            tt
      | inr long ↦ found _ (list_lines t sv.sessions [] 0) _ _ (ltb_false→le _ _ long) (λ a. tt)
    ]

receive_kill-FaultsOn :
    (t : Texts) (fd : ℤ) (buf : List ℕ) (sv : Server)
    → FaultsOn (length buf < 4) (receive_kill t fd buf sv)
unfolding receive_kill
receive_kill-FaultsOn t fd buf sv = short_payload buf 4 _ (
    found _ (find_session_by_id sv.sessions (to_int (u32_at buf 0))) _ _ tt λ i.
      found _ (get_elem? sv.sessions i) _ _ tt
        λ target. branch _ (ltb 0 target.pane_count) _ _ tt tt)

receive_attach-FaultsOn :
    (fd : ℤ) (padding buf : List ℕ) (sv : Server)
    → FaultsOn (length buf < 4) (receive_attach fd padding buf sv)
unfolding receive_attach
receive_attach-FaultsOn fd padding buf sv = short_payload buf 4 _ (
    found _ (find_session_by_id sv.sessions (to_int (u32_at buf 0))) _ _ tt
      λ i. found _ (get_elem? sv.sessions i) _ _ tt λ target. branch _ target.detached _ _ tt tt)

receive_command-FaultsOn :
    (k : Kernel) (fd : ℤ) (buf : List ℕ) (i : ℕ) (cur : Session) (sv : Server)
    → FaultsOn (opens_pane buf ≡ none) (receive_command k fd buf i cur sv)
unfolding receive_command open_pane
receive_command-FaultsOn k fd buf i cur sv = by_answer (opens_pane buf) refl
  where
    by_answer :
        (o : Option Bool)
        → opens_pane buf ≡ o
        → FaultsOn (opens_pane buf ≡ none) (elim o [
          | none ↦ faults
          | some true ↦ open_pane k fd i cur sv
          | some false ↦ returns (pos 1) sv
        ])
    by_answer none e = e
    by_answer (some true) e =
        branch _ (leb max_panes cur.pane_count) _ _ tt
          (branch _ (k.openpt ==ℤ minus_one) _ _ tt (branch _ (is_nonneg k.spawned_pid) _ _ tt tt))
    by_answer (some false) e = tt

last_elem {ℓ} : {A : Type ℓ} (xs : List A) (x : A) → get_elem? (xs ++ (x ∷ [])) (length xs) ≡ some x
last_elem [] x = refl
last_elem (y ∷ xs) x = last_elem xs x

-- the session of a client is in the list
current_session-found :
    (k : Kernel) (fd : ℤ) (sv : Server)
    → (s : Session) × (get_elem? (current_session k fd sv).1.sessions (current_session k fd sv).0
        ≡ some s)
unfolding current_session new_session find_session_by_client_fd
current_session-found k fd sv = elim (Option-cases (find_session_by_client_fd sv.sessions fd)) [
  | inl e ↦ rw (e, current_session) (_, last_elem sv.sessions _)
  | inr (i, e) ↦
      let (s, at, _) = find_index-some _ sv.sessions i e in rw (e, current_session) (s, at)
]

receive_for_session-FaultsOn :
    (k : Kernel) (t : Texts) (fd : ℤ) (padding : List ℕ) (ty : MsgType) (buf : List ℕ) (i : ℕ)
    (s : Session) (sv sv' : Server)
    → get_elem? sv'.sessions i ≡ some s
    → FaultsOn (Malformed t sv ty buf) (receive_for_session k fd padding ty buf i sv')
unfolding receive_for_session receive_resize receive_detach receive_grid_save
receive_for_session-FaultsOn k t fd padding command buf i s sv sv' at =
    rw (at, receive_for_session) (receive_command-FaultsOn k fd buf i s sv')
receive_for_session-FaultsOn k t fd padding resize buf i s sv sv' at = short_payload buf 8 _ tt
receive_for_session-FaultsOn k t fd padding exited buf i s sv sv' at = tt
receive_for_session-FaultsOn k t fd padding detach [] i s sv sv' at =
    found ⊥ (find_session_by_client_fd sv'.sessions fd) _ _ tt (λ j. tt)
receive_for_session-FaultsOn k t fd padding detach (x ∷ buf) i s sv sv' at =
    receive_attach-FaultsOn fd padding (x ∷ buf) sv'
receive_for_session-FaultsOn k t fd padding grid_save buf i s sv sv' at =
    found _ (find_session_by_client_fd sv'.sessions fd) _ _ tt
      λ j. short_payload buf 4 _ (branch _ (ltb (u32_at buf 0) max_panes) _ _ tt tt)
receive_for_session-FaultsOn k t fd padding list_sessions buf i s sv sv' at = tt
receive_for_session-FaultsOn k t fd padding detachkill buf i s sv sv' at = tt
receive_for_session-FaultsOn k t fd padding other buf i s sv sv' at = tt

pub receive_message-FaultsOn :
    (k : Kernel) (t : Texts) (fd : ℤ) (padding : List ℕ) (ty : MsgType) (buf : List ℕ) (sv : Server)
    → FaultsOn (Malformed t sv ty buf) (receive_message k t fd padding ty buf sv)
unfolding receive_message
receive_message-FaultsOn k t fd padding list_sessions buf sv = receive_list-FaultsOn t fd sv
receive_message-FaultsOn k t fd padding detachkill buf sv = receive_kill-FaultsOn t fd buf sv
receive_message-FaultsOn k t fd padding ty buf sv =
    let (s, at) = current_session-found k fd sv in
    receive_for_session-FaultsOn k t fd padding _ buf _ s sv _ at

pub FaultsOn-map : (M N : Type 0) (r : Reply) → (M → N) → FaultsOn M r → FaultsOn N r
FaultsOn-map M N (returns r sv) f h = tt
FaultsOn-map M N (exits sv) f h = tt
FaultsOn-map M N faults f h = f h
FaultsOn-map M N blocks f h = tt
