-- ===== src/Server/Invariant/Reply.antt =====
-- What `server_receive` does for a list, a killed session, a new session and a new pane keeps the
-- server's state valid.
use mini_tmux.Base.{
  ℕ, zero, suc, ◌≡◌, refl, List, [], ◌∷◌, Option, none, some, arith, length, get_elem?, ℤ,
  minus_one, Bool, leb, ◌==ℤ◌, if◌then◌else◌, Bool-cases, Option-cases, if_both, inl, inr,
  length-set, is_nonneg, u32_at, to_int, ap, ltb, ◌<◌, ◌≤◌, ◌^◌, ◌∙◌,
}
use mini_tmux.Server.Session.{
  Session, Server, Winsize, Effect, emit, update_session, session_init, max_panes,
  find_session_by_client_fd, find_session_by_id,
}
use mini_tmux.Server.Receive.{
  Reply, returns, exits, faults, blocks, Kernel, Texts, send_response, list_lines, receive_list,
  receive_kill, kill_session, new_session, current_session, open_pane, add_pane,
}
use mini_tmux.Server.Receive.Dispatch.{drop_grids}
use mini_tmux.Server.Invariant.{
  IsSession, IsValid, IsValid-grow, All-modify, All-modify_at, IdsFrom-modify, All-remove_at,
  IdsFrom-remove_at, All-append, IdsFrom-append,
}

-- The server that a call leaves, if it leaves one, is valid, its ids below `b`.
abbrev pub LeavesValid : ℕ → Reply → Type 0
LeavesValid b (returns r sv) = IsValid b sv
LeavesValid b (exits sv) = IsValid b sv
LeavesValid b faults = Unit
LeavesValid b blocks = Unit

pub LeavesValid-grow : (b b' : ℕ) (r : Reply) → b ≤ b' → LeavesValid b r → LeavesValid b' r
LeavesValid-grow b b' (returns r sv) le v = IsValid-grow sv le v
LeavesValid-grow b b' (exits sv) le v = IsValid-grow sv le v
LeavesValid-grow b b' faults le v = tt
LeavesValid-grow b b' blocks le v = tt

-- A test or a lookup leaves a valid server if both of its ways do.
pub either :
    (b : ℕ) (test : Bool) (x y : Reply)
    → LeavesValid b x
    → LeavesValid b y
    → LeavesValid b (if test then x else y)
either b = if_both (LeavesValid b)

pub on_option {ℓ} :
    {A : Type ℓ} (b : ℕ) (o : Option A) (x : Reply) (f : A → Reply)
    → LeavesValid b x
    → ((a : A) → LeavesValid b (f a))
    → LeavesValid b (elim o [ none ↦ x | some a ↦ f a ])
on_option b none x f p q = p
on_option b (some a) x f p q = q a

pub emit-IsValid : {b : ℕ} (sv : Server) (es : List Effect) → IsValid b sv → IsValid b (emit sv es)
emit-IsValid sv es v = record { all_sessions = v.all_sessions; ids = v.ids; slots = v.slots }

pub update_session-IsValid :
    {b : ℕ} (sv : Server) (i : ℕ) (f : Session → Session)
    → ((s : Session) → IsSession s → IsSession (f s))
    → ((s : Session) → (f s).id ≡ s.id)
    → IsValid b sv
    → IsValid b (update_session sv i f)
update_session-IsValid sv i f keep same v = record {
  all_sessions = All-modify f keep i sv.sessions v.all_sessions;
  ids = IdsFrom-modify _ f same 0 i sv.sessions v.ids;
  slots = v.slots;
}

pub receive_list-LeavesValid :
    {b : ℕ} (t : Texts) (fd : ℤ) (sv : Server) → IsValid b sv → LeavesValid b (receive_list t fd sv)
unfolding receive_list send_response
receive_list-LeavesValid t fd sv v =
    on_option _ (list_lines t sv.sessions [] 0) _ _ tt (λ r. emit-IsValid sv _ v)

kill_session-IsValid :
    {b : ℕ} (i : ℕ) (s : Session) (sv : Server) → IsValid b sv → IsValid b (kill_session i s sv)
unfolding kill_session
kill_session-IsValid i s sv v = record {
  all_sessions = All-remove_at i sv.sessions v.all_sessions;
  ids = IdsFrom-remove_at _ 0 i sv.sessions v.ids;
  slots = v.slots;
}

pub receive_kill-LeavesValid :
    {b : ℕ} (t : Texts) (fd : ℤ) (buf : List ℕ) (sv : Server)
    → IsValid b sv
    → LeavesValid b (receive_kill t fd buf sv)
unfolding receive_kill send_response
receive_kill-LeavesValid t fd buf sv v = either _ (ltb (length buf) 4) _ _ tt (
    on_option _ (find_session_by_id sv.sessions (to_int (u32_at buf 0))) _ _ (emit-IsValid sv _ v)
      λ i. on_option _ (get_elem? sv.sessions i) _ _ (emit-IsValid sv _ v) λ target.
        either _ (ltb 0 target.pane_count) _ _
          (emit-IsValid _ _ (kill_session-IsValid i target sv v)) (emit-IsValid sv _ v))

session_init-IsSession : (ws : Winsize) (name : List ℕ) → IsSession (session_init ws name)
unfolding session_init
session_init-IsSession ws name = record {
  masters = refl;
  pids = refl;
  grids = refl;
  panes = omega arith;
}

new_session-IsValid :
    {b : ℕ} (k : Kernel) (fd : ℤ) (sv : Server)
    → suc b ≤ 2 ^ 31
    → IsValid b sv
    → IsValid (suc b) (new_session k fd sv)
unfolding new_session
new_session-IsValid k fd sv room v = record {
  all_sessions = All-append sv.sessions _ v.all_sessions (record {
    masters = fresh.masters;
    pids = fresh.pids;
    grids = fresh.grids;
    panes = fresh.panes;
  });
  ids = IdsFrom-append _ sv.sessions room v.ids refl;
  slots = v.slots;
}
  where
    fresh : IsSession (session_init k.tty_size k.heap_junk)
    fresh = session_init-IsSession k.tty_size k.heap_junk

pub current_session-IsValid :
    {b : ℕ} (k : Kernel) (fd : ℤ) (sv : Server)
    → suc b ≤ 2 ^ 31
    → IsValid b sv
    → IsValid (suc b) (current_session k fd sv).1
unfolding current_session
current_session-IsValid k fd sv room v =
    elim (Option-cases (find_session_by_client_fd sv.sessions fd)) [
      | inl e ↦ rw (e, current_session) (new_session-IsValid k fd sv room v)
      | inr (i, e) ↦ rw (e, current_session) (IsValid-grow sv (omega arith) v)
    ]

pub length-drop_grids : (n : ℕ) (gs : List (Option (List ℕ))) → length (drop_grids n gs) ≡ length gs
unfolding drop_grids
length-drop_grids zero gs = refl
length-drop_grids (suc n) [] = refl
length-drop_grids (suc n) (g ∷ gs) = ap suc (length-drop_grids n gs)

-- A pane is opened only where there is room for one.
add_pane-IsSession :
    (k : Kernel) (s : Session) → s.pane_count < max_panes → IsSession s → IsSession (add_pane k s)
unfolding add_pane
add_pane-IsSession k s room v = record {
  masters = length-set s.master_fds s.pane_count k.openpt ∙ v.masters;
  pids = length-set s.pane_pids s.pane_count k.spawned_pid ∙ v.pids;
  grids = v.grids;
  panes = omega arith;
}

add_pane-IsValid :
    {b : ℕ} (k : Kernel) (i : ℕ) (cur : Session) (sv : Server)
    → get_elem? sv.sessions i ≡ some cur
    → cur.pane_count < max_panes
    → IsValid b sv
    → IsValid b (update_session sv i (add_pane k))
unfolding add_pane
add_pane-IsValid k i cur sv at room v = record {
  all_sessions =
      All-modify_at (add_pane k) i sv.sessions cur at (add_pane-IsSession k cur room)
        v.all_sessions;
  ids = IdsFrom-modify _ (add_pane k) (λ s. refl) 0 i sv.sessions v.ids;
  slots = v.slots;
}

pub open_pane-LeavesValid :
    {b : ℕ} (k : Kernel) (fd : ℤ) (i : ℕ) (cur : Session) (sv : Server)
    → get_elem? sv.sessions i ≡ some cur
    → IsValid b sv
    → LeavesValid b (open_pane k fd i cur sv)
unfolding open_pane
open_pane-LeavesValid k fd i cur sv at v = elim (Bool-cases (leb max_panes cur.pane_count)) [
  | inl full ↦ rw (full, open_pane, LeavesValid) v
  | inr room ↦
      rw (room, open_pane, LeavesValid)
        (either _ (k.openpt ==ℤ minus_one) _ _ v (
          either _ (is_nonneg k.spawned_pid) _ _
            (add_pane-IsValid k i cur _ at (ground (arith, room)) (emit-IsValid sv _ v))
            (emit-IsValid _ _ (emit-IsValid sv _ v))))
]
