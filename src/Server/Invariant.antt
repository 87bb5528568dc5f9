-- ===== src/Server/Invariant.antt =====
-- What holds of the server's state between any two steps.
pub mod Reply
pub mod Receive
pub mod Passes
pub mod Faults
pub mod Handled
pub mod Loop
pub mod Runs
use mathlib.Core.Option.{some-injective}
use mini_tmux.Base.{
  ℕ, zero, suc, ◌+◌, ◌≤◌, ◌≡◌, refl, List, [], ◌∷◌, ◌++◌, Option, none, some, arith, All, length,
  get_elem?, ◌<◌, ◌-◌, ◌^◌, modify, remove_at, ℤ, pos, negsuc, pos_part, ◌+ℤ◌, ap, ◌∙◌, sym, subst,
}
use mini_tmux.Server.Session.{Session, Server, max_panes, max_clients}
use mini_tmux.Server.Receive.{next_id, int_inc}

-- The arrays of a session have their sizes, and the panes fit them.
pub record IsSession (s : Session) : Type 0 where
  pub masters : length s.master_fds ≡ max_panes
  pub pids : length s.pane_pids ≡ max_panes
  pub grids : length s.grid_data ≡ max_panes
  pub panes : s.pane_count ≤ max_panes

-- The ids are numbers from `k` on and below `b`, ascending along the list.
abbrev pub IdsFrom : ℕ → ℕ → List Session → Type 0
IdsFrom b k [] = k ≤ b
IdsFrom b k (s ∷ ss) =
    (s.id ≡ pos (pos_part s.id)) × (k ≤ pos_part s.id) × IdsFrom b (suc (pos_part s.id)) ss

-- `b` bounds the ids, 64 the panes of a session and the client slots.
pub record IsValid (b : ℕ) (sv : Server) : Type 0 where
  pub all_sessions : All IsSession sv.sessions
  pub ids : IdsFrom b 0 sv.sessions
  pub slots : length sv.client_fds ≡ max_clients

pub All-modify :
    (f : Session → Session)
    → ((s : Session) → IsSession s → IsSession (f s))
    → (i : ℕ) (ss : List Session) → All IsSession ss
    → All IsSession (modify ss i f)
unfolding modify
All-modify f keep i [] h = tt
All-modify f keep zero (s ∷ ss) h = (keep s h.0, h.1)
All-modify f keep (suc i) (s ∷ ss) h = (h.0, All-modify f keep i ss h.1)

-- The same, where only the session at place `i` is known to stay one.
pub All-modify_at :
    (f : Session → Session) (i : ℕ) (ss : List Session) (s : Session)
    → get_elem? ss i ≡ some s
    → (IsSession s → IsSession (f s))
    → All IsSession ss
    → All IsSession (modify ss i f)
unfolding modify
All-modify_at f i [] s e keep h = tt
All-modify_at f zero (x ∷ ss) s e keep h =
    (subst (λ y. IsSession y → IsSession (f y)) (sym (some-injective x s e)) keep h.0, h.1)
All-modify_at f (suc i) (x ∷ ss) s e keep h = (h.0, All-modify_at f i ss s e keep h.1)

-- The session at a place is one of all.
pub All-at :
    (j : ℕ) (ss : List Session) (s : Session)
    → get_elem? ss j ≡ some s
    → All IsSession ss
    → IsSession s
All-at j [] s e h = absurd (cc)
All-at zero (x ∷ ss) s e h = subst IsSession (some-injective x s e) h.0
All-at (suc j) (x ∷ ss) s e h = All-at j ss s e h.1

pub IdsFrom-modify :
    (b : ℕ) (f : Session → Session)
    → ((s : Session) → (f s).id ≡ s.id)
    → (k i : ℕ) (ss : List Session) → IdsFrom b k ss
    → IdsFrom b k (modify ss i f)
unfolding modify
IdsFrom-modify b f same k i [] h = h
IdsFrom-modify b f same k zero (s ∷ ss) h = rw (same s) h
IdsFrom-modify b f same k (suc i) (s ∷ ss) h =
    (h.0, h.1, IdsFrom-modify _ f same (suc (pos_part s.id)) i ss h.2)

pub IdsFrom-weaken : (b : ℕ) (j k : ℕ) (ss : List Session) → k ≤ j → IdsFrom b j ss → IdsFrom b k ss
IdsFrom-weaken b j k [] le h = omega (arith, le, h)
IdsFrom-weaken b j k (s ∷ ss) le h = (h.0, omega arith, h.2)

pub All-remove_at : (i : ℕ) (ss : List Session) → All IsSession ss → All IsSession (remove_at ss i)
unfolding remove_at
All-remove_at i [] h = tt
All-remove_at zero (s ∷ ss) h = h.1
All-remove_at (suc i) (s ∷ ss) h = (h.0, All-remove_at i ss h.1)

-- A greater bound holds as well.
IdsFrom-grow : {b b' : ℕ} (k : ℕ) (ss : List Session) → b ≤ b' → IdsFrom b k ss → IdsFrom b' k ss
IdsFrom-grow k [] le h = omega (arith, le, h)
IdsFrom-grow k (s ∷ ss) le h = (h.0, h.1, IdsFrom-grow (suc (pos_part s.id)) ss le h.2)

pub IsValid-grow : {b b' : ℕ} (sv : Server) → b ≤ b' → IsValid b sv → IsValid b' sv
IsValid-grow sv le v = record {
  all_sessions = v.all_sessions;
  ids = IdsFrom-grow 0 sv.sessions le v.ids;
  slots = v.slots;
}

pub IdsFrom-remove_at :
    (b : ℕ) (k i : ℕ) (ss : List Session) → IdsFrom b k ss → IdsFrom b k (remove_at ss i)
unfolding remove_at
IdsFrom-remove_at b k i [] h = h
IdsFrom-remove_at b k zero (s ∷ ss) h =
    IdsFrom-weaken _ (suc (pos_part s.id)) k ss (omega arith) h.2
IdsFrom-remove_at b k (suc i) (s ∷ ss) h =
    (h.0, h.1, IdsFrom-remove_at _ (suc (pos_part s.id)) i ss h.2)

pub All-append :
    (ss : List Session) (s : Session)
    → All IsSession ss
    → IsSession s
    → All IsSession (ss ++ (s ∷ []))
All-append [] s h v = (v, tt)
All-append (x ∷ ss) s h v = (h.0, All-append ss s h.1 v)

int_inc_pos :
    (a : ℤ) → a ≡ pos (pos_part a) → pos_part a < 2 ^ 31 - 1 → int_inc a ≡ pos (suc (pos_part a))
int_inc_pos (pos n) h small = ground arith
int_inc_pos (negsuc n) h small = cc

pos_is_pos : (x : ℤ) (m : ℕ) → x ≡ pos m → (x ≡ pos (pos_part x)) × (pos_part x ≡ m)
pos_is_pos x m e = rw e (refl, refl)

IdsFrom-append_cons :
    {b : ℕ} (k : ℕ) (x s : Session) (ss : List Session)
    → suc b ≤ 2 ^ 31
    → IdsFrom b k (x ∷ ss)
    → s.id ≡ next_id (x ∷ ss)
    → IdsFrom (suc b) k (x ∷ (ss ++ (s ∷ [])))
unfolding next_id
IdsFrom-append_cons k x s [] room h e =
    let (nonneg, value) = pos_is_pos s.id _ (e ∙ int_inc_pos x.id h.0 (omega (arith, room, h.2))) in
    (h.0, h.1, (nonneg, omega (arith, value), omega (arith, value, h.2)))
IdsFrom-append_cons k x s (y ∷ ss) room h e =
    (h.0, h.1, IdsFrom-append_cons (suc (pos_part x.id)) y s ss room h.2 e)

-- A session with the next id goes behind all others, if the bound on the ids is below that of an
-- `int`; the bound grows by one.
pub IdsFrom-append :
    {b : ℕ} (s : Session) (ss : List Session)
    → suc b ≤ 2 ^ 31
    → IdsFrom b 0 ss
    → s.id ≡ next_id ss
    → IdsFrom (suc b) 0 (ss ++ (s ∷ []))
unfolding next_id
IdsFrom-append s [] room h e =
    let (nonneg, value) = pos_is_pos s.id 0 e in
    (nonneg, omega (arith, value), omega (arith, value, h))
IdsFrom-append s (x ∷ ss) room h e = IdsFrom-append_cons 0 x s ss room h e

pub below_first :
    (b : ℕ) (k i : ℕ) (ss : List Session) (a : Session)
    → IdsFrom b k ss
    → get_elem? ss i ≡ some a
    → k ≤ pos_part a.id
below_first b k i [] a h e = absurd (cc)
below_first b k zero (s ∷ ss) a h e = ground arith
below_first b k (suc i) (s ∷ ss) a h e =
    omega (arith, below_first _ (suc (pos_part s.id)) i ss a h.2 e, h.1)

-- Two places with the same id are the same place.
pub ids_unique :
    (c : ℕ) (k i j : ℕ) (ss : List Session) (a b : Session)
    → IdsFrom c k ss
    → get_elem? ss i ≡ some a
    → get_elem? ss j ≡ some b
    → a.id ≡ b.id
    → i ≡ j
ids_unique c k i j [] a b h p q e = absurd (cc)
ids_unique c k zero zero (s ∷ ss) a b h p q e = refl
ids_unique c k zero (suc j) (s ∷ ss) a b h p q e = absurd (
    omega (
      arith,
      below_first _ (suc (pos_part s.id)) j ss b h.2 q,
      ap pos_part (ap (λ r. r.id) (some-injective s a p) ∙ e),
    ))
ids_unique c k (suc i) zero (s ∷ ss) a b h p q e = absurd (
    omega (
      arith,
      below_first _ (suc (pos_part s.id)) i ss a h.2 p,
      ap pos_part (ap (λ r. r.id) (some-injective s b q) ∙ sym e),
    ))
ids_unique c k (suc i) (suc j) (s ∷ ss) a b h p q e =
    ap suc (ids_unique _ (suc (pos_part s.id)) i j ss a b h.2 p q e)
