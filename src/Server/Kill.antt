-- ===== src/Server/Kill.antt =====
-- MSG_DETACHKILL: what it removes, and what it leaves in the slots of the main loop.
use mathlib.Core.Option.{some-injective}
use mini_tmux.Base.{
  ℕ, zero, suc, ◌+◌, ◌≤◌, ◌<◌, ◌≡◌, ◌≢◌, refl, List, [], ◌∷◌, ◌++◌, Option, none, some, arith,
  length, get_elem?, remove_at, find_index, ℤ, pos, pos_part, ◌==ℤ◌, ==ℤ_iff, Bool, true, false,
  if◌then◌else◌, minus_one, Bool-cases, Option-cases, inl, inr, to_int, u32_at, ap, ◌∙◌, sym,
  le→ltb_false, subst, append_assoc, le64, lt→ltb,
}
use mini_tmux.Server.Session.{Session, Server, Effect, closed, wrote, find_session_by_id}
use mini_tmux.Server.Receive.{
  returns, Texts, receive_kill, kill_session, send_response, kill_panes, close_open,
}
use mini_tmux.Server.Invariant.{IdsFrom, IsValid, below_first}

-- the first session with the id
pub session_with : ℤ → List Session → Option Session
session_with id [] = none
session_with id (s ∷ ss) = if s.id ==ℤ id then some s else session_with id ss

pub ==ℤ_false : (a b : ℤ) → a ≢ b → (a ==ℤ b) ≡ false
==ℤ_false a b ne = elim (Bool-cases (a ==ℤ b)) [
  | inl same ↦ absurd (ne ((==ℤ_iff a b).0 same))
  | inr other ↦ other
]

-- An id below all ids of the list is not there.
session_with_below :
    (b : ℕ) (k m : ℕ) (ss : List Session) → IdsFrom b k ss → m < k → session_with (pos m) ss ≡ none
unfolding session_with
session_with_below b k m [] h lt = refl
session_with_below b k m (s ∷ ss) h lt =
    rw (==ℤ_false s.id (pos m) (λ e. absurd (omega (arith, h.1, ap pos_part e))))
      (session_with_below _ (suc (pos_part s.id)) m ss h.2 (omega (arith, h.1)))

session_with-remove_at_self :
    (b : ℕ) (k i : ℕ) (ss : List Session) (s : Session)
    → IdsFrom b k ss
    → get_elem? ss i ≡ some s
    → session_with s.id (remove_at ss i) ≡ none
unfolding session_with remove_at
session_with-remove_at_self b k i [] s h e = refl
session_with-remove_at_self b k zero (x ∷ ss) s h e =
    ap (λ y. session_with y.id ss) (sym (some-injective x s e))
    ∙ (ap (λ z. session_with z ss) h.0
        ∙ session_with_below _ (suc (pos_part x.id)) (pos_part x.id) ss h.2 (omega arith))
session_with-remove_at_self b k (suc i) (x ∷ ss) s h e =
    rw
      (==ℤ_false x.id s.id (λ q.
        absurd (omega (arith, below_first _ (suc (pos_part x.id)) i ss s h.2 e, ap pos_part q))))
      (session_with-remove_at_self _ (suc (pos_part x.id)) i ss s h.2 e)

session_with-remove_at_ne :
    (id : ℤ) (i : ℕ) (ss : List Session) (s : Session)
    → get_elem? ss i ≡ some s
    → s.id ≢ id
    → session_with id (remove_at ss i) ≡ session_with id ss
unfolding session_with remove_at
session_with-remove_at_ne id i [] s e ne = refl
session_with-remove_at_ne id zero (x ∷ ss) s e ne =
    rw (==ℤ_false x.id id (λ q. ne (ap (λ y. y.id) (sym (some-injective x s e)) ∙ q))) refl
session_with-remove_at_ne id (suc i) (x ∷ ss) s e ne = elim (Bool-cases (x.id ==ℤ id)) [
  | inl here ↦ rw here refl
  | inr past ↦ rw past (session_with-remove_at_ne id i ss s e ne)
]

-- A successful search gives a place with an element that passes the test.
pub find_index-some :
    (p : Session → Bool) (ss : List Session) (i : ℕ)
    → find_index p ss ≡ some i
    → (s : Session) × (get_elem? ss i ≡ some s) × (p s ≡ true)
unfolding find_index
find_index-some p [] i e = absurd (cc)
find_index-some p (x ∷ ss) i e = elim (Bool-cases (p x)) [
  | inl t ↦
      let at_zero : zero ≡ i = ground arith in
      subst (λ j. (s : Session) × (get_elem? (x ∷ ss) j ≡ some s) × (p s ≡ true)) at_zero
        (x, refl, t)
  | inr f ↦ elim (Option-cases (find_index p ss)) [
    | inl n ↦ absurd (ground arith)
    | inr (j, q) ↦
        let at_suc : suc j ≡ i = ground arith in
        subst (λ m. (s : Session) × (get_elem? (x ∷ ss) m ≡ some s) × (p s ≡ true)) at_suc
          (find_index-some p ss j q)
  ]
]

module _ (t : Texts) (fd : ℤ) (buf : List ℕ) (sv : Server) where
  killed_server : ℕ → Session → Server
  killed_server i target =
      send_response fd (t.session_killed (to_int (u32_at buf 0))) (kill_session i target sv)

  receive_kill_run :
      {i : ℕ} {target : Session}
      → 4 ≤ length buf
      → find_session_by_id sv.sessions (to_int (u32_at buf 0)) ≡ some i
      → get_elem? sv.sessions i ≡ some target
      → 0 < target.pane_count
      → receive_kill t fd buf sv ≡ returns minus_one (killed_server i target)
  unfolding receive_kill killed_server
  receive_kill_run {target} long found at panes =
      rw (le→ltb_false (length buf) 4 long, found, receive_kill, at, receive_kill)
        (rw (lt→ltb 0 target.pane_count panes) refl)

  named :
      {i : ℕ} {target : Session}
      → find_session_by_id sv.sessions (to_int (u32_at buf 0)) ≡ some i
      → get_elem? sv.sessions i ≡ some target
      → target.id ≡ to_int (u32_at buf 0)
  unfolding find_session_by_id
  named {i} {target} found at =
      let (s, at', test) = find_index-some _ sv.sessions i found in
      ap (λ y. y.id) (some-injective target s (sym at ∙ at')) ∙ (==ℤ_iff s.id _).0 test

  -- On a valid server, MSG_DETACHKILL whose first four bytes are the id of a session with a pane
  -- takes that session off the list: no session has the id any more. The call returns -1.
  pub receive_kill-removes :
      {b i : ℕ} {target : Session}
      → IsValid b sv
      → 4 ≤ length buf
      → find_session_by_id sv.sessions (to_int (u32_at buf 0)) ≡ some i
      → get_elem? sv.sessions i ≡ some target
      → 0 < target.pane_count
      → (sv' : Server) × (receive_kill t fd buf sv ≡ returns minus_one sv')
        × (session_with (to_int (u32_at buf 0)) sv'.sessions ≡ none)
  unfolding killed_server kill_session send_response
  receive_kill-removes {i = i} {target = target} v long found at panes = (
    killed_server i target,
    receive_kill_run long found at panes,
    ap (λ z. session_with z (remove_at sv.sessions i)) (sym (named found at))
        ∙ session_with-remove_at_self _ 0 i sv.sessions target v.ids at,
  )

  -- Under the same conditions on the message, but on any server, every other id leads to the
  -- session that it led to before.
  pub receive_kill-keeps :
      {i : ℕ} {target : Session} (other : ℤ)
      → 4 ≤ length buf
      → find_session_by_id sv.sessions (to_int (u32_at buf 0)) ≡ some i
      → get_elem? sv.sessions i ≡ some target
      → 0 < target.pane_count
      → to_int (u32_at buf 0) ≢ other
      → (sv' : Server) × (receive_kill t fd buf sv ≡ returns minus_one sv')
        × (session_with other sv'.sessions ≡ session_with other sv.sessions)
  unfolding killed_server kill_session send_response
  receive_kill-keeps {i} {target} other long found at panes ne = (
    killed_server i target,
    receive_kill_run long found at panes,
    session_with-remove_at_ne other i sv.sessions target at (λ e. ne (sym (named found at) ∙ e)),
  )

  -- If the killed session had a client, at descriptor `c`, that descriptor is closed, but a slot of
  -- the main loop that held it holds it still, so that the next `select` is given a closed descriptor.
  pub receive_kill_stale_slot :
      {i : ℕ} {target : Session} (c j : ℕ)
      → 4 ≤ length buf
      → find_session_by_id sv.sessions (to_int (u32_at buf 0)) ≡ some i
      → get_elem? sv.sessions i ≡ some target
      → 0 < target.pane_count
      → target.client_fd ≡ pos c
      → get_elem? sv.client_fds j ≡ some (pos c)
      → (sv' : Server) × (receive_kill t fd buf sv ≡ returns minus_one sv')
        × (get_elem? sv'.client_fds j ≡ some (pos c))
        × (before : List Effect) × (after : List Effect) × (sv'.trace
            ≡ before ++ (closed (pos c) ∷ after))
  unfolding killed_server kill_session send_response
  receive_kill_stale_slot {i} {target} c j long found at panes client slot = (
    killed_server i target,
    receive_kill_run long found at panes,
    slot,
    sv.trace
        ++ (kill_panes target.pane_count target.pane_pids target.master_fds
            ++ close_open target.slave_fd),
    answer,
    ap
          (λ z.
            (sv.trace
              ++ (kill_panes target.pane_count target.pane_pids target.master_fds
                  ++ (close_open target.slave_fd ++ close_open z)))
            ++ answer)
          client
        ∙ simp append_assoc,
  )
    where
      answer : List Effect
      answer =
          wrote fd (le64 (length (t.session_killed (to_int (u32_at buf 0))) + 1))
          ∷ wrote fd (t.session_killed (to_int (u32_at buf 0)) ++ (0 ∷ []))
          ∷ []
