-- ===== src/Client/Attach/Detach.antt =====
-- A client that detaches: the grids that it sends, and what the server keeps of them.
use mathlib.Core.Option
use mathlib.Core.Option.{some-injective}
use mini_tmux.Base.{
  ℕ, zero, suc, ◌+◌, ◌≤◌, ◌<◌, ◌≡◌, refl, List, [], ◌∷◌, Option, some, Bool, arith, length, ap, ◌∙◌,
  sym, subst, le→ltb_false, lt→ltb, ℤ, pos, set, modify, drop, get_elem?, find_index, if◌then◌else◌,
  length-set, get_elem?-set_self, get_elem?-set_ne, ◌==ℤ◌,
}
use mini_tmux.Server.Session.{Session, Server, max_panes, find_session_by_client_fd}
use mini_tmux.Server.Receive.{Reply, returns}
use mini_tmux.Server.Receive.Dispatch.{receive_grid_save}
use mini_tmux.Client.Main.Session.{next_message}
use mini_tmux.Client.Attach.Image.{Source, Saved, u32_at-Saved, length-Saved}
use mini_tmux.Client.Attach.Restore.{SavedAll, all_saved, saved}

-- The buffers are those of the panes with the ids from `i` on.
pub data Buffers : ℕ → List (List ℕ) → List Source → Type 0 where
  no_buffers : {i : ℕ} → Buffers i [] []
  buffer :
      {i b : ℕ} {bs : List ℕ} {bufs : List (List ℕ)} {s : Source} {ss : List Source}
      → Saved i s (b ∷ bs)
      → Buffers (suc i) bufs ss
      → Buffers i ((b ∷ bs) ∷ bufs) (s ∷ ss)

-- `server_receive` with MSG_GRID_SAVE for each of the buffers
unfoldable pub receive_saves : ℤ → List (List ℕ) → Server → Reply
receive_saves fd [] sv = returns (pos 1) sv
receive_saves fd (buf ∷ bufs) sv =
    next_message (receive_grid_save fd buf sv) (receive_saves fd bufs)

-- the buffers put in the slots from `i` on
unfoldable pub stored_all : ℕ → List (List ℕ) → List (Option (List ℕ)) → List (Option (List ℕ))
stored_all i [] gs = gs
stored_all i (buf ∷ bufs) gs = stored_all (suc i) bufs (set gs i (some buf))

pub length-stored_all :
    (i : ℕ) (bufs : List (List ℕ)) (gs : List (Option (List ℕ)))
    → length (stored_all i bufs gs) ≡ length gs
unfolding stored_all
length-stored_all i [] gs = refl
length-stored_all i (buf ∷ bufs) gs =
    length-stored_all (suc i) bufs (set gs i (some buf)) ∙ length-set gs i (some buf)

abbrev pub with_buffers : ℕ → List (List ℕ) → Session → Session
with_buffers i bufs s = record s { grid_data = stored_all i bufs s.grid_data }

modify_same :
    (ss : List Session) (j : ℕ) (f : Session → Session)
    → ((s : Session) → f s ≡ s)
    → modify ss j f ≡ ss
unfolding modify
modify_same [] j f same = refl
modify_same (s ∷ ss) zero f same = ap (λ r. r ∷ ss) (same s)
modify_same (s ∷ ss) (suc j) f same = ap (λ r. s ∷ r) (modify_same ss j f same)

modify_twice :
    (ss : List Session) (j : ℕ) (f g : Session → Session)
    → modify (modify ss j f) j g ≡ modify ss j (λ s. g (f s))
unfolding modify
modify_twice [] j f g = refl
modify_twice (s ∷ ss) zero f g = refl
modify_twice (s ∷ ss) (suc j) f g = ap (λ r. s ∷ r) (modify_twice ss j f g)

pub find_index-modify :
    (p : Session → Bool) (ss : List Session) (j : ℕ) (f : Session → Session)
    → ((s : Session) → p (f s) ≡ p s)
    → find_index p (modify ss j f) ≡ find_index p ss
unfolding find_index modify
find_index-modify p [] j f same = refl
find_index-modify p (s ∷ ss) zero f same =
    ap (λ b. if b then some 0 else Option.map suc (find_index p ss)) (same s)
find_index-modify p (s ∷ ss) (suc j) f same =
    ap (λ o. if p s then some 0 else Option.map suc o) (find_index-modify p ss j f same)

-- one buffer
receive_grid_save-Saved :
    {i : ℕ} {s : Source} {buf : List ℕ} (fd : ℤ) (j : ℕ) (sv : Server)
    → Saved i s buf
    → i < max_panes
    → find_session_by_client_fd sv.sessions fd ≡ some j
    → receive_grid_save fd buf sv
      ≡ returns (pos 1) (record sv { sessions = modify sv.sessions j (with_buffers i (buf ∷ [])) })
unfolding receive_grid_save stored_all
receive_grid_save-Saved {i} {s} {buf} fd j sv v small found =
    rw
      (
        found,
        le→ltb_false (length buf) 4 (omega (arith, length-Saved v)),
        u32_at-Saved v,
        lt→ltb i max_panes small,
        receive_grid_save,
      )
      refl

pub receive_saves-Buffers :
    {i : ℕ} {bufs : List (List ℕ)} {ss : List Source} (fd : ℤ) (j : ℕ) (sv : Server)
    → Buffers i bufs ss
    → i + length bufs ≤ max_panes
    → find_session_by_client_fd sv.sessions fd ≡ some j
    → receive_saves fd bufs sv
      ≡ returns (pos 1) (record sv { sessions = modify sv.sessions j (with_buffers i bufs) })
unfolding receive_saves next_message find_session_by_client_fd stored_all
receive_saves-Buffers {i} fd j sv no_buffers room found =
    ap (λ l. returns (pos 1) (record sv { sessions = l }))
      (sym (modify_same sv.sessions j (with_buffers i []) (λ s. refl)))
receive_saves-Buffers {i} {bufs = buf ∷ bufs} fd j sv (buffer v vs) room found =
    let sv' = record sv { sessions = modify sv.sessions j (with_buffers i (buf ∷ [])) } in
    ap (λ r. next_message r (receive_saves fd bufs))
      (receive_grid_save-Saved fd j sv v (omega (arith, room)) found)
    ∙ (receive_saves-Buffers fd j sv' vs (omega (arith, room)) (
          find_index-modify (λ s. s.client_fd ==ℤ fd) sv.sessions j (with_buffers i (buf ∷ []))
            (λ s. refl)
          ∙ found)
        ∙ ap (λ l. returns (pos 1) (record sv { sessions = l }))
            (modify_twice sv.sessions j (with_buffers i (buf ∷ [])) (with_buffers (suc i) bufs)))

drop-get_elem? :
    (i : ℕ) (gs : List (Option (List ℕ))) (g : Option (List ℕ))
    → get_elem? gs i ≡ some g
    → drop i gs ≡ g ∷ drop (suc i) gs
drop-get_elem? i [] g e = absurd (cc)
drop-get_elem? zero (x ∷ gs) g e = ap (λ y. y ∷ gs) (some-injective x g e)
drop-get_elem? (suc i) (x ∷ gs) g e = drop-get_elem? i gs g e

get_elem?-stored_all :
    (i k : ℕ) (bufs : List (List ℕ)) (gs : List (Option (List ℕ)))
    → i < k
    → get_elem? (stored_all k bufs gs) i ≡ get_elem? gs i
unfolding stored_all
get_elem?-stored_all i k [] gs h = refl
get_elem?-stored_all i k (buf ∷ bufs) gs h =
    get_elem?-stored_all i (suc k) bufs (set gs k (some buf)) (omega arith)
    ∙ get_elem?-set_ne gs k i (some buf) (λ e. omega (arith, e, h))

pub stored_all-SavedAll :
    {i : ℕ} {bufs : List (List ℕ)} {ss : List Source} (gs : List (Option (List ℕ)))
    → Buffers i bufs ss
    → i + length bufs ≤ length gs
    → SavedAll i (length bufs) (drop i (stored_all i bufs gs)) ss
unfolding stored_all
stored_all-SavedAll gs no_buffers room = all_saved
stored_all-SavedAll {i} {bufs = buf ∷ bufs} {ss = s ∷ ss} gs (buffer v vs) room =
    let gs' = set gs i (some buf) in
    subst (λ l. SavedAll i (suc (length bufs)) l (s ∷ ss))
      (sym (
        drop-get_elem? i (stored_all (suc i) bufs gs') (some buf) (
          get_elem?-stored_all i (suc i) bufs gs' (omega arith)
          ∙ get_elem?-set_self gs i (some buf) (omega (arith, room)))))
      (saved v (stored_all-SavedAll gs' vs (omega (arith, room, length-set gs i (some buf)))))
