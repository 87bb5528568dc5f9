-- ===== src/Server/Invariant/Loop.antt =====
-- Every iteration of `server_loop` keeps the server's state valid.
use mini_tmux.Base.{
  ℕ, zero, suc, ◌+◌, ◌*◌, ◌^◌, ◌≤◌, arith, length, subst, refl, List, [], ◌∷◌, Option, none, some,
  ℤ, pos, negsuc, minus_one, Bool, true, false, ◌&&◌, if◌then◌else◌, length-set, is_nonneg, ◌∙◌,
  get_or, set,
}
use mini_tmux.Server.Session.{Server, emit, max_clients, closed}
use mini_tmux.Server.Receive.{Reply, returns, exits, faults, blocks, Texts}
use mini_tmux.Server.Receive.Dispatch.{server_receive}
use mini_tmux.Server.Loop.{
  accept_client, Input, Select, selected, eintr, select_failed, serve_slots, serve_ready,
  server_signal_handler, after_select, Iteration, goes_on, stops, exited, faulted, blocked,
  loop_step, initial, run,
}
use mini_tmux.Server.Invariant.{IsValid, IsValid-grow}
use mini_tmux.Server.Invariant.Reply.{LeavesValid, LeavesValid-grow, either}
use mini_tmux.Server.Invariant.Receive.{server_receive-LeavesValid}
use mini_tmux.Server.Invariant.Passes.{
  length-replace_slot, sweep_detached-IsValid, reap_children-IsValid,
}

accept_client-IsValid :
    {b : ℕ} (fd : ℤ) (sv : Server) → IsValid b sv → IsValid b (accept_client fd sv)
unfolding accept_client
accept_client-IsValid (pos n) sv v = record {
  all_sessions = v.all_sessions;
  ids = v.ids;
  slots = length-replace_slot minus_one (pos n) sv.client_fds ∙ v.slots;
}
accept_client-IsValid (negsuc n) sv v = v

module _ (t : Texts) (inp : Input) where
  -- each slot can give at most one new session
  serve_slots-LeavesValid :
      {b : ℕ} (n i : ℕ) (sv : Server)
      → n + b ≤ 2 ^ 31
      → IsValid b sv
      → LeavesValid (n + b) (serve_slots t inp n i sv)
  unfolding serve_slots
  serve_slots-LeavesValid zero i sv room v = IsValid-grow sv (omega arith) v
  serve_slots-LeavesValid {b} (suc n) i sv room v =
      either (suc n + b) (is_nonneg fd && inp.readable fd) _ _
        (served (server_receive (inp.kernel fd) t fd inp.padding (inp.reads fd) sv)
          (server_receive-LeavesValid (inp.kernel fd) t fd inp.padding (inp.reads fd) sv
            (omega (arith, room)) v)
          (λ sv' v'.
            LeavesValid-grow (n + suc b) (suc n + b) _ (omega arith)
              (serve_slots-LeavesValid n (suc i) sv' (omega (arith, room)) v')))
        (LeavesValid-grow (n + b) (suc n + b) _ (omega arith)
          (serve_slots-LeavesValid n (suc i) sv (omega (arith, room)) v))
    where
      fd : ℤ
      fd = get_or sv.client_fds i minus_one

      served :
          (r : Reply)
          → LeavesValid (suc b) r
          → ((sv' : Server)
              → IsValid (suc b) sv'
              → LeavesValid (suc n + b) (serve_slots t inp n (suc i) sv'))
          → LeavesValid (suc n + b) (elim r [
            | returns (pos r) sv' ↦ serve_slots t inp n (suc i) sv'
            | returns (negsuc r) sv' ↦
                serve_slots t inp n (suc i) (
                  emit
                    (record sv' { client_fds = set sv'.client_fds i minus_one })
                    (closed fd ∷ []))
            | exits sv' ↦ exits sv'
            | faults ↦ faults
            | blocks ↦ blocks
          ])
      served (returns (pos r) sv') v' next = next sv' v'
      served (returns (negsuc r) sv') v' next = next _ (record {
        all_sessions = v'.all_sessions;
        ids = v'.ids;
        slots = length-set sv'.client_fds i minus_one ∙ v'.slots;
      })
      served (exits sv') v' next = IsValid-grow sv' (omega arith) v'
      served faults v' next = tt
      served blocks v' next = tt

  serve_ready-LeavesValid :
      {b : ℕ} (sv : Server)
      → max_clients + b ≤ 2 ^ 31
      → IsValid b sv
      → LeavesValid (max_clients + b) (serve_ready t inp sv)
  unfolding serve_ready
  serve_ready-LeavesValid {b} sv room v = accepted inp.accepted
    where
      accepted :
          (o : Option ℤ)
          → LeavesValid (max_clients + b) (elim o [
            | none ↦ serve_slots t inp max_clients 0 sv
            | some new_fd ↦ serve_slots t inp max_clients 0 (accept_client new_fd sv)
          ])
      accepted none = serve_slots-LeavesValid max_clients 0 sv room v
      accepted (some new_fd) =
          serve_slots-LeavesValid max_clients 0 _ room (accept_client-IsValid new_fd sv v)

after_select-IsValid :
    {b : ℕ} (inp : Input) (sv : Server) → IsValid b sv → IsValid b (after_select inp sv)
unfolding after_select server_signal_handler
after_select-IsValid {b} inp sv v =
    reap_children-IsValid inp _ (sweep_detached-IsValid _ (signalled inp.sigchld))
  where
    signalled : (s : Bool) → IsValid b (if s then record sv { sigchld_pending = true } else sv)
    signalled true = record { all_sessions = v.all_sessions; ids = v.ids; slots = v.slots }
    signalled false = v

-- The server in which an iteration ends, if it leaves one, is valid, its ids below `b`.
abbrev pub EndsValid : ℕ → Iteration → Type 0
EndsValid b (goes_on sv) = IsValid b sv
EndsValid b (stops sv) = IsValid b sv
EndsValid b (exited sv) = IsValid b sv
EndsValid b faulted = Unit
EndsValid b blocked = Unit

EndsValid-grow : (b b' : ℕ) (r : Iteration) → b ≤ b' → EndsValid b r → EndsValid b' r
EndsValid-grow b b' (goes_on sv) le v = IsValid-grow sv le v
EndsValid-grow b b' (stops sv) le v = IsValid-grow sv le v
EndsValid-grow b b' (exited sv) le v = IsValid-grow sv le v
EndsValid-grow b b' faulted le v = tt
EndsValid-grow b b' blocked le v = tt

loop_step-EndsValid :
    {b : ℕ} (t : Texts) (sel : Select) (inp : Input) (sv : Server)
    → max_clients + b ≤ 2 ^ 31
    → IsValid b sv
    → EndsValid (max_clients + b) (loop_step t sel inp sv)
unfolding loop_step
loop_step-EndsValid t select_failed inp sv room v = IsValid-grow sv (omega arith) v
loop_step-EndsValid t eintr inp sv room v =
    IsValid-grow _ (omega arith) (after_select-IsValid inp sv v)
loop_step-EndsValid {b} t selected inp sv room v =
    after (serve_ready t inp sv) (serve_ready-LeavesValid t inp sv room v)
  where
    after :
        (r : Reply)
        → LeavesValid (max_clients + b) r
        → EndsValid (max_clients + b) (elim r [
          | returns r sv' ↦ goes_on (after_select inp sv')
          | exits sv' ↦ exited sv'
          | faults ↦ faulted
          | blocks ↦ blocked
        ])
    after (returns r sv') v' = after_select-IsValid inp sv' v'
    after (exits sv') v' = v'
    after faults v' = tt
    after blocks v' = tt

run-EndsValid :
    (b : ℕ) (t : Texts) (steps : List (Select × Input)) (sv : Server)
    → length steps * max_clients + b ≤ 2 ^ 31
    → IsValid b sv
    → EndsValid (length steps * max_clients + b) (run t steps sv)
unfolding run
run-EndsValid b t [] sv room v = IsValid-grow sv (omega arith) v
run-EndsValid b t ((sel, inp) ∷ rest) sv room v =
    after (loop_step t sel inp sv) (loop_step-EndsValid t sel inp sv (omega (arith, room)) v)
      (λ sv' v'.
        EndsValid-grow (length rest * max_clients + (max_clients + b))
          (suc (length rest) * max_clients + b) _ (omega arith)
          (run-EndsValid (max_clients + b) t rest sv' (omega (arith, room)) v'))
  where
    after :
        (r : Iteration)
        → EndsValid (max_clients + b) r
        → ((sv' : Server)
            → IsValid (max_clients + b) sv'
            → EndsValid (suc (length rest) * max_clients + b) (run t rest sv'))
        → EndsValid (suc (length rest) * max_clients + b) (elim r [
          | goes_on sv' ↦ run t rest sv'
          | stops sv' ↦ stops sv'
          | exited sv' ↦ exited sv'
          | faulted ↦ faulted
          | blocked ↦ blocked
        ])
    after (goes_on sv') v' next = next sv' v'
    after (stops sv') v' next = IsValid-grow sv' (omega arith) v'
    after (exited sv') v' next = IsValid-grow sv' (omega arith) v'
    after faulted v' next = tt
    after blocked v' next = tt

initial-IsValid : IsValid 0 initial
unfolding initial
initial-IsValid = record { all_sessions = tt; ids = omega arith; slots = refl }

-- The state after iterations of `server_loop` from the empty server, at most 2^25 of them, with any
-- answers of the kernel and any messages: every session has its arrays of 64 entries and at most 64
-- panes, the session ids ascend along the list and are below 64 times the number of iterations,
-- and there are 64 client slots. This is said of runs that go on and of those that end the loop or
-- the process; a run in which a handler accesses memory outside a buffer or waits for the rest of
-- a message has no such state.
pub run-initial-EndsValid :
    (t : Texts) (steps : List (Select × Input))
    → length steps ≤ 2 ^ 25
    → EndsValid (length steps * max_clients) (run t steps initial)
run-initial-EndsValid t steps few =
    subst (λ n. EndsValid n (run t steps initial)) (omega arith)
      (run-EndsValid 0 t steps initial (omega (arith, few)) initial-IsValid)
