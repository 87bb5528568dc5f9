-- ===== src/Server/Listing.antt =====
-- MSG_LIST_SESSIONS: the text of the answer, and when it does not fit the buffer.
use native.Mathlib.Nat.{add-zero}
use mini_tmux.Base.{
  ℕ, zero, suc, ◌+◌, ◌-◌, ◌≤◌, ◌<◌, ◌≡◌, refl, List, [], ◌∷◌, ◌++◌, none, some, arith, length, take,
  ℤ, is_pos, true, false, if◌then◌else◌, ltb, length-append, ap, ◌∙◌, sym, Bool-cases, inl, inr,
  minus_one, le→ltb_false, lt→ltb, append-nil, append_assoc, if_both, ◌≢◌, ne→==_false,
}
use mini_tmux.Server.Session.{Session, Server}
use mini_tmux.Server.Receive.{
  returns, faults, Texts, list_lines, listed_count, receive_list, send_response, response_size,
}

-- the lines of the sessions that have a shell, in the order of the list
unfoldable pub listing : Texts → List Session → List ℕ
listing t [] = []
listing t (s ∷ ss) =
    (if is_pos s.slave_pid then t.session_line s.id s.detached s.slave_pid else []) ++ listing t ss

take_all : (n : ℕ) (xs : List ℕ) → length xs ≤ n → take n xs ≡ xs
take_all zero [] h = refl
take_all zero (x ∷ xs) h = absurd (omega arith)
take_all (suc n) [] h = refl
take_all (suc n) (x ∷ xs) h = ap (λ r. x ∷ r) (take_all n xs (omega arith))

length-listing_shell :
    (t : Texts) (s : Session) (ss : List Session)
    → is_pos s.slave_pid ≡ true
    → length (listing t (s ∷ ss))
      ≡ length (t.session_line s.id s.detached s.slave_pid) + length (listing t ss)
unfolding listing
length-listing_shell t s ss shell =
    rw shell (length-append (t.session_line s.id s.detached s.slave_pid) (listing t ss))

length-listing_none :
    (t : Texts) (s : Session) (ss : List Session)
    → is_pos s.slave_pid ≡ false
    → length (listing t (s ∷ ss)) ≡ length (listing t ss)
unfolding listing
length-listing_none t s ss no_shell = rw no_shell refl

pub list_lines-listing :
    (t : Texts) (ss : List Session) (text : List ℕ) (offset : ℕ)
    → offset + length (listing t ss) < response_size
    → list_lines t ss text offset ≡ some (text ++ listing t ss, offset + length (listing t ss))
unfolding list_lines listing
list_lines-listing t [] text offset fits =
    λ i. some (sym (append-nil text) i, sym (add-zero offset) i)
list_lines-listing t (s ∷ ss) text offset fits = elim (Bool-cases (is_pos s.slave_pid)) [
  | inl shell ↦
      rw (shell, list_lines, listing)
        (rw (le→ltb_false response_size offset (omega (arith, length-listing_shell t s ss shell))) (
          ap (λ r. list_lines t ss (text ++ r) (offset + length (line s)))
            (take_all (response_size - offset - 1) (line s)
              (omega (arith, length-listing_shell t s ss shell)))
          ∙ (list_lines-listing t ss (text ++ line s) (offset + length (line s))
                (omega (arith, length-listing_shell t s ss shell))
              ∙ λ i. some (append_assoc text (line s) (listing t ss) i, offsets i))))
  | inr no_shell ↦
      rw (no_shell, list_lines, listing)
        (list_lines-listing t ss text offset (omega (arith, length-listing_none t s ss no_shell)))
]
  where
    line : Session → List ℕ
    line r = t.session_line r.id r.detached r.slave_pid

    offsets :
        offset + length (line s) + length (listing t ss) ≡ offset + length (line s ++ listing t ss)
    offsets = omega (arith, length-append (line s) (listing t ss))

list_lines_past_end :
    (t : Texts) (ss rest : List Session) (s : Session) (text : List ℕ) (offset : ℕ)
    → is_pos s.slave_pid ≡ true
    → response_size < offset + length (listing t ss)
    → list_lines t (ss ++ (s ∷ rest)) text offset ≡ none
unfolding list_lines listing
list_lines_past_end t [] rest s text offset shell past =
    rw (shell, lt→ltb response_size offset (omega arith)) refl
list_lines_past_end t (x ∷ ss) rest s text offset shell past =
    elim (Bool-cases (is_pos x.slave_pid)) [
      | inl x_shell ↦ rw x_shell (
          if_both (λ r. r ≡ none) (ltb response_size offset) _ _ refl
            (list_lines_past_end t ss rest s _ _ shell
              (omega (arith, length-listing_shell t x ss x_shell))))
      | inr x_none ↦ rw x_none (
          list_lines_past_end t ss rest s text offset shell
            (omega (arith, length-listing_none t x ss x_none)))
    ]

module _ (t : Texts) (fd : ℤ) (sv : Server) where
  -- If some session has a shell and the lines fit the buffer of 4096 bytes with the NUL, the answer to MSG_LIST_SESSIONS
  -- is their lines, in the order of the list and of no other session; the connection is closed.
  pub receive_list-listing :
      length (listing t sv.sessions) < response_size
      → listed_count sv.sessions ≢ 0
      → receive_list t fd sv ≡ returns minus_one (send_response fd (listing t sv.sessions) sv)
  unfolding receive_list
  receive_list-listing fits some_shell =
      rw
        (
          list_lines-listing t sv.sessions [] 0 (omega (arith, fits)),
          receive_list,
          ne→==_false (listed_count sv.sessions) 0 some_shell,
        )
        refl

  -- If lines of more than 4096 bytes stand before the line of another session with a shell, MSG_LIST_SESSIONS writes
  -- outside the buffer.
  pub receive_list_overflow :
      (ss rest : List Session) (s : Session)
      → sv.sessions ≡ ss ++ (s ∷ rest)
      → is_pos s.slave_pid ≡ true
      → response_size < length (listing t ss)
      → receive_list t fd sv ≡ faults
  unfolding receive_list
  receive_list_overflow ss rest s e shell past =
      rw
        (
          ap (λ l. list_lines t l [] 0) e
              ∙ list_lines_past_end t ss rest s [] 0 shell (omega (arith, past)),
          receive_list,
        )
        refl
