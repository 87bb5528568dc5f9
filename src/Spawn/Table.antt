-- ===== src/Spawn/Table.antt =====
-- The descriptors of the shell that `spawn_child` of spawn.c starts.
use native.Mathlib.Decide.{ℕ_discrete}
use mini_tmux.Base.{
  ℕ, zero, suc, ◌+◌, ◌≤◌, ◌<◌, ◌≡◌, refl, Option, none, some, arith, ◌∙◌, ==_iff, ne→==_false, ◌≢◌,
}
use mini_tmux.Spawn.{Table, with_fd, dup2, close_all}

pub with_fd_self : (fd : ℕ) (file : Option ℕ) (t : Table) → with_fd fd file t fd ≡ file
with_fd_self fd file t = rw ((==_iff fd fd).1 refl) refl

pub with_fd_ne : (fd d : ℕ) (file : Option ℕ) (t : Table) → d ≢ fd → with_fd fd file t d ≡ t d
with_fd_ne fd d file t ne = rw (ne→==_false d fd ne) refl

-- The loop leaves what is below it.
pub close_all_below : (n first d : ℕ) (t : Table) → d < first → close_all n first t d ≡ t d
unfolding close_all
close_all_below zero first d t h = refl
close_all_below (suc n) first d t h =
    close_all_below n (suc first) d (with_fd first none t) (omega (arith, h))
    ∙ with_fd_ne first d none t (λ e. omega (arith, h, e))

close_all_keeps_closed : (n first d : ℕ) (t : Table) → t d ≡ none → close_all n first t d ≡ none
unfolding close_all
close_all_keeps_closed zero first d t h = h
close_all_keeps_closed (suc n) first d t h =
    close_all_keeps_closed n (suc first) d (with_fd first none t) (elim (ℕ_discrete d first) [
      | yes e ↦ rw ((==_iff d first).1 e) refl
      | no ne ↦ with_fd_ne first d none t ne ∙ h
    ])

-- The loop closes what it runs over.
pub close_all_closes :
    (n first d : ℕ) (t : Table) → first ≤ d → d < first + n → close_all n first t d ≡ none
unfolding close_all
close_all_closes zero first d t low high = absurd (omega (arith, low, high))
close_all_closes (suc n) first d t low high = elim (ℕ_discrete d first) [
  | yes e ↦
      close_all_keeps_closed n (suc first) d (with_fd first none t) (rw ((==_iff d first).1 e) refl)
  | no ne ↦
      close_all_closes n (suc first) d (with_fd first none t) (omega (arith, low, ne))
        (omega (arith, high))
]

-- `dup2` makes the new descriptor lead where the old one leads.
pub dup2_new : (old new : ℕ) (t : Table) → dup2 old new t new ≡ t old
unfolding dup2
dup2_new old new t = with_fd_self new (t old) t

-- It keeps every descriptor that leads to the same file as the old one.
pub dup2_keeps :
    (old new d : ℕ) (t : Table) (file : ℕ)
    → t old ≡ some file
    → t d ≡ some file
    → dup2 old new t d ≡ some file
unfolding dup2
dup2_keeps old new d t file o h = elim (ℕ_discrete d new) [
  | yes e ↦ rw ((==_iff d new).1 e) o
  | no ne ↦ with_fd_ne new d (t old) t ne ∙ h
]
