-- ===== src/Server/Invariant/Passes.antt =====
-- The passes of `server_loop` over the sessions, of detached clients and of shells that ended, keep the
-- server's state valid.
use mini_tmux.Base.{
  ℕ, suc, ◌≡◌, refl, List, [], ◌∷◌, arith, All, length, ℤ, minus_one, false, Option-cases, if_both,
  inl, inr, length-set, is_nonneg, ◌∙◌, pos_part,
}
use mini_tmux.Server.Session.{Session, Server, Effect}
use mini_tmux.Server.Loop.{
  replace_slot, Input, sweep_session, sweep_sessions, sweep_detached, exit_pane, end_session,
  reap_session, find_pane, reap_pid, reap_pids, drop_exited, reap_children,
}
use mini_tmux.Server.Invariant.{IsSession, IdsFrom, IdsFrom-weaken, IsValid}

pub length-replace_slot :
    (old new : ℤ) (fds : List ℤ) → length (replace_slot old new fds) ≡ length fds
unfolding replace_slot
length-replace_slot old new [] = refl
length-replace_slot old new (fd ∷ fds) = ground (arith, length-replace_slot old new fds)

-- What a pass over the sessions must keep of each: its shape and id, and the number of slots.
record Keeps (s : Session) (fds : List ℤ) (r : Session × List ℤ × List Effect) : Type 0 where
  shape : IsSession s → IsSession r.0
  same_id : r.0.id ≡ s.id
  slots : length r.1 ≡ length fds

sweep_session-Keeps : (s : Session) (fds : List ℤ) → Keeps s fds (sweep_session s fds)
unfolding sweep_session
sweep_session-Keeps s fds =
    if_both (Keeps s fds) s.detached _ _
      (record {
        shape =
            λ h. record { masters = h.masters; pids = h.pids; grids = h.grids; panes = h.panes };
        same_id = refl;
        slots = length-replace_slot s.client_fd minus_one fds;
      })
      (record { shape = λ h. h; same_id = refl; slots = refl })

end_session-Keeps : (s : Session) (fds : List ℤ) → Keeps s fds (end_session s fds)
unfolding end_session
end_session-Keeps s fds =
    if_both (Keeps s fds) (is_nonneg s.client_fd) _ _
      (record {
        shape =
            λ h. record { masters = h.masters; pids = h.pids; grids = h.grids; panes = h.panes };
        same_id = refl;
        slots = length-replace_slot s.client_fd minus_one fds;
      })
      (record {
        shape =
            λ h. record { masters = h.masters; pids = h.pids; grids = h.grids; panes = h.panes };
        same_id = refl;
        slots = refl;
      })

exit_pane-IsSession : (i : ℕ) (s : Session) → IsSession s → IsSession (exit_pane i s)
unfolding exit_pane
exit_pane-IsSession i s h = record {
  masters = ground (arith, length-set s.master_fds i minus_one, h.masters);
  pids = length-set s.pane_pids i minus_one ∙ h.pids;
  grids = h.grids;
  panes = h.panes;
}

exit_pane-id : (i : ℕ) (s : Session) → (exit_pane i s).id ≡ s.id
unfolding exit_pane
exit_pane-id i s = refl

reap_session-Keeps : (pid : ℤ) (s : Session) (fds : List ℤ) → Keeps s fds (reap_session pid s fds)
unfolding reap_session
reap_session-Keeps pid s fds = elim (Option-cases (find_pane pid s.pane_count s.pane_pids)) [
  | inl e ↦ rw (e, reap_session) (record { shape = λ h. h; same_id = refl; slots = refl })
  | inr (i, e) ↦ rw (e, reap_session) (if_both (Keeps s fds) _ _ _ (both i) (one i))
]
  where
    one : (i : ℕ) {es : List Effect} → Keeps s fds (exit_pane i s, fds, es)
    one i = record { shape = exit_pane-IsSession i s; same_id = exit_pane-id i s; slots = refl }

    both :
        (i : ℕ) {es : List Effect}
        → Keeps s fds ((end_session (exit_pane i s) fds).0, (end_session (exit_pane i s) fds).1, es)
    both i = record {
      shape = λ h. ended.shape (exit_pane-IsSession i s h);
      same_id = ended.same_id ∙ exit_pane-id i s;
      slots = ended.slots;
    }
      where
        ended : Keeps (exit_pane i s) fds (end_session (exit_pane i s) fds)
        ended = end_session-Keeps (exit_pane i s) fds

-- What a pass over the list must keep.
record PassKeeps (ss : List Session) (fds : List ℤ) (r : List Session × List ℤ × List Effect)
    : Type 0 where
  shapes : All IsSession ss → All IsSession r.0
  ids : (b k : ℕ) → IdsFrom b k ss → IdsFrom b k r.0
  slots : length r.1 ≡ length fds

PassKeeps-cons :
    {s s' : Session} {ss ss' : List Session} {fds fds' fds'' : List ℤ} {es es' es'' : List Effect}
    → Keeps s fds (s', fds', es)
    → PassKeeps ss fds' (ss', fds'', es')
    → PassKeeps (s ∷ ss) fds (s' ∷ ss', fds'', es'')
PassKeeps-cons one rest = record {
  shapes = λ h. (one.shape h.0, rest.shapes h.1);
  ids = λ b k h. rw one.same_id (h.0, h.1, rest.ids _ _ h.2);
  slots = rest.slots ∙ one.slots;
}

sweep_sessions-PassKeeps :
    (ss : List Session) (fds : List ℤ) → PassKeeps ss fds (sweep_sessions ss fds)
unfolding sweep_sessions
sweep_sessions-PassKeeps [] fds = record { shapes = λ h. h; ids = λ b k h. h; slots = refl }
sweep_sessions-PassKeeps (s ∷ ss) fds =
    PassKeeps-cons (sweep_session-Keeps s fds) (sweep_sessions-PassKeeps ss _)

reap_pid-PassKeeps :
    (pid : ℤ) (ss : List Session) (fds : List ℤ) → PassKeeps ss fds (reap_pid pid ss fds)
unfolding reap_pid
reap_pid-PassKeeps pid [] fds = record { shapes = λ h. h; ids = λ b k h. h; slots = refl }
reap_pid-PassKeeps pid (s ∷ ss) fds =
    PassKeeps-cons (reap_session-Keeps pid s fds) (reap_pid-PassKeeps pid ss _)

pub sweep_detached-IsValid : {b : ℕ} (sv : Server) → IsValid b sv → IsValid b (sweep_detached sv)
unfolding sweep_detached
sweep_detached-IsValid sv v = record {
  all_sessions = pass.shapes v.all_sessions;
  ids = pass.ids _ 0 v.ids;
  slots = pass.slots ∙ v.slots;
}
  where
    pass : PassKeeps sv.sessions sv.client_fds (sweep_sessions sv.sessions sv.client_fds)
    pass = sweep_sessions-PassKeeps sv.sessions sv.client_fds

reap_pids-IsValid :
    {b : ℕ} (pids : List ℤ) (sv : Server) → IsValid b sv → IsValid b (reap_pids pids sv)
unfolding reap_pids
reap_pids-IsValid [] sv v = v
reap_pids-IsValid (pid ∷ pids) sv v = reap_pids-IsValid pids _ (record {
  all_sessions = pass.shapes v.all_sessions;
  ids = pass.ids _ 0 v.ids;
  slots = pass.slots ∙ v.slots;
})
  where
    pass : PassKeeps sv.sessions sv.client_fds (reap_pid pid sv.sessions sv.client_fds)
    pass = reap_pid-PassKeeps pid sv.sessions sv.client_fds

All-drop_exited : (ss : List Session) → All IsSession ss → All IsSession (drop_exited ss)
unfolding drop_exited
All-drop_exited [] h = tt
All-drop_exited (s ∷ ss) h =
    if_both (All IsSession) s.child_exited _ _ (All-drop_exited ss h.1)
      (h.0, All-drop_exited ss h.1)

IdsFrom-drop_exited : (b k : ℕ) (ss : List Session) → IdsFrom b k ss → IdsFrom b k (drop_exited ss)
unfolding drop_exited
IdsFrom-drop_exited b k [] h = h
IdsFrom-drop_exited b k (s ∷ ss) h =
    if_both (IdsFrom b k) s.child_exited _ _
      (IdsFrom-weaken _ (suc (pos_part s.id)) k (drop_exited ss) (omega arith)
        (IdsFrom-drop_exited _ (suc (pos_part s.id)) ss h.2))
      (h.0, h.1, IdsFrom-drop_exited _ (suc (pos_part s.id)) ss h.2)

pub reap_children-IsValid :
    {b : ℕ} (inp : Input) (sv : Server) → IsValid b sv → IsValid b (reap_children inp sv)
unfolding reap_children
reap_children-IsValid {b} inp sv v =
    if_both (IsValid b) sv.sigchld_pending _ _
      (record {
        all_sessions = All-drop_exited _ reaped.all_sessions;
        ids = IdsFrom-drop_exited _ 0 _ reaped.ids;
        slots = reaped.slots;
      })
      v
  where
    reaped : IsValid b (reap_pids inp.exited_pids (record sv { sigchld_pending = false }))
    reaped =
        reap_pids-IsValid inp.exited_pids _
          (record { all_sessions = v.all_sessions; ids = v.ids; slots = v.slots })
