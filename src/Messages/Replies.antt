-- ===== src/Messages/Replies.antt =====
-- The texts of the server's answers (server.c), with what snprintf writes for "%d" as an argument,
-- and the list of sessions that a client prints.
use mini_tmux.Base.{
  ℕ, ◌<◌, ◌≡◌, ◌≢◌, refl, List, [], ◌∷◌, ◌++◌, Bool, true, false, ◌==◌, ==_iff, if◌then◌else◌, All,
  length, ℤ, is_pos, if_both,
}
use mini_tmux.Server.Session.{Session, Server}
use mini_tmux.Server.Receive.{Texts, receive_list, response_size, listed_count}
use mini_tmux.Server.Listing.{listing}
use mini_tmux.Client.Main.Answer.{IsText, Answers, receive_list-print_answer}
use mini_tmux.Messages.{
  Language, tr, text_bytes, formatted, directive, msg_no_sessions, msg_session_killed,
  msg_session_not_found,
}

-- "%d: %s (pid %d)\n"
abbrev pub list_format : List ℕ
list_format = text_bytes "%d: %s (pid %d)\n"

unfoldable pub server_texts : Language → (ℤ → List ℕ) → Texts
server_texts l show = record {
  session_line = λ id detached pid. formatted false list_format (
      show id
      ∷ (if detached then text_bytes "detached" else text_bytes "attached")
      ∷ show pid
      ∷ []);
  no_sessions = text_bytes (tr l msg_no_sessions);
  session_killed = λ id. formatted false (text_bytes (tr l msg_session_killed)) (show id ∷ []);
  session_not_found =
      λ id. formatted false (text_bytes (tr l msg_session_not_found)) (show id ∷ []);
}

clean : List ℕ → Bool
clean [] = true
clean (b ∷ t) = if b == 0 then false else clean t

clean_step : (d r : Bool) → (if d then false else r) ≡ true → (d ≡ false) × (r ≡ true)
clean_step true r e = absurd (cc)
clean_step false r e = (refl, e)

clean→IsText : (t : List ℕ) → clean t ≡ true → IsText t
unfolding clean
clean→IsText [] e = tt
clean→IsText (b ∷ t) e =
    let (other, rest) = clean_step (b == 0) (clean t) e in
    ((λ null. true_not_false ((==_iff b 0).1 null) other), clean→IsText t rest)
  where
    true_not_false : {d : Bool} → d ≡ true → d ≡ false → ⊥
    true_not_false e e' = absurd (cc)

IsText-append : (s t : List ℕ) → IsText s → IsText t → IsText (s ++ t)
IsText-append [] t a b = b
IsText-append (c ∷ s) t a b = (a.0, IsText-append s t a.1 b)

IsText-directive :
    (c : ℕ) (args : List (List ℕ))
    → c ≢ 0
    → All IsText args
    → IsText (directive c args).0 × All IsText (directive c args).1
unfolding directive
IsText-directive c [] a b =
    if_both (λ (r : List ℕ × List (List ℕ)). IsText r.0 × All IsText r.1) (c == b'%') (c ∷ [], [])
      ([], []) ((a, tt), tt) (tt, tt)
IsText-directive c (arg ∷ rest) a b =
    if_both (λ (r : List ℕ × List (List ℕ)). IsText r.0 × All IsText r.1) (c == b'%')
      (c ∷ [], arg ∷ rest) (arg, rest) ((a, tt), b) (b.0, b.1)

IsText-formatted :
    (pending : Bool) (cs : List ℕ) (args : List (List ℕ))
    → IsText cs
    → All IsText args
    → IsText (formatted pending cs args)
unfolding formatted directive
IsText-formatted pending [] args a b = tt
IsText-formatted false (c ∷ cs) args a b =
    IsText-append (if c == b'%' then [] else c ∷ []) (formatted (c == b'%') cs args)
      (if_both IsText (c == b'%') [] (c ∷ []) tt (a.0, tt))
      (IsText-formatted (c == b'%') cs args a.1 b)
IsText-formatted true (c ∷ cs) args a b =
    let (out, left) = IsText-directive c args a.0 b in
    IsText-append (directive c args).0 (formatted false cs (directive c args).1) out
      (IsText-formatted false cs (directive c args).1 a.1 left)

listing-IsText :
    (l : Language) (show : ℤ → List ℕ) (ss : List Session)
    → ((n : ℤ) → IsText (show n))
    → IsText (listing (server_texts l show) ss)
unfolding listing server_texts text_bytes clean
listing-IsText l show [] numbers = tt
listing-IsText l show (s ∷ ss) numbers =
    IsText-append _ (listing (server_texts l show) ss)
      (if_both IsText (is_pos s.slave_pid) _ [] line tt) (listing-IsText l show ss numbers)
  where
    line : IsText ((server_texts l show).session_line s.id s.detached s.slave_pid)
    line = IsText-formatted false list_format _ (clean→IsText list_format refl) (
      numbers s.id,
      (
        if_both IsText s.detached (text_bytes "detached") (text_bytes "attached")
            (clean→IsText (text_bytes "detached") refl) (clean→IsText (text_bytes "attached") refl),
        (numbers s.slave_pid, tt),
      ),
    )

-- With the formats of the server, in either language, and numbers written without NUL: when some
-- session has a shell and the lines of all of them fit the buffer, the client that asks for the list
-- prints their lines, in the order of the list, if each of the server's two writes arrives in one
-- read.
pub receive_list-server_texts :
    (l : Language) (show : ℤ → List ℕ) (fd : ℤ) (sv : Server)
    → ((n : ℤ) → IsText (show n))
    → length (listing (server_texts l show) sv.sessions) < response_size
    → listed_count sv.sessions ≢ 0
    → Answers fd sv
        (receive_list (server_texts l show) fd sv)
        (listing (server_texts l show) sv.sessions)
receive_list-server_texts l show fd sv numbers fits some_shell =
    receive_list-print_answer (server_texts l show) fd sv fits some_shell
      (listing-IsText l show sv.sessions numbers)
