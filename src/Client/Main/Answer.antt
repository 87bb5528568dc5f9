-- ===== src/Client/Main/Answer.antt =====
-- The answers of the server to the requests of the command line, as the client prints them.
use mini_tmux.Base.{
  ℕ, ◌+◌, ◌<◌, ◌^◌, ◌≡◌, ◌≢◌, refl, List, [], ◌∷◌, ◌++◌, some, arith, length, All, lt→ltb, u64_at,
  le64, ne→==_false, ℤ, minus_one, length-append,
}
use mini_tmux.Render.{up_to_nul}
use mini_tmux.Server.Session
use mini_tmux.Server.Session.{Session, Server, emit}
use mini_tmux.Server.Wire.{Read, got}
use mini_tmux.Server.Receive.{
  Texts, returns, Reply, receive_list, send_response, response_size, listed_count,
}
use mini_tmux.Server.Listing.{listing, receive_list-listing}
use mini_tmux.Client.Protocol.{eight_bytes}
use mini_tmux.Client.Attach.{read_some}
use mini_tmux.Client.Main.{print_answer}

-- no byte of a text is NUL
abbrev pub IsText : List ℕ → Type 0
IsText t = All (λ b. b ≢ 0) t

up_to_nul-append : (t : List ℕ) → IsText t → up_to_nul (t ++ (0 ∷ [])) ≡ some t
unfolding up_to_nul
up_to_nul-append [] h = refl
up_to_nul-append (b ∷ t) h = rw (ne→==_false b 0 h.0, up_to_nul-append t h.1, up_to_nul) refl

pub print_answer-text :
    (text : List ℕ) (rest : List Read)
    → IsText text
    → length text + 1 < 2 ^ 64
    → print_answer (got (le64 (length text + 1)) ∷ got (text ++ (0 ∷ [])) ∷ rest) ≡ some text
unfolding print_answer read_some
print_answer-text text rest clean short =
    rw
      (
        lt→ltb 0 (u64_at (le64 (length text + 1)) 0)
            (omega (arith, eight_bytes (length text + 1) short)),
        lt→ltb 0 (length (text ++ (0 ∷ []))) (omega (arith, length-append text (0 ∷ []))),
        print_answer,
      )
      (up_to_nul-append text clean)

-- The server answers on `fd` with two writes, and closes the connection.
pub record Answers (fd : ℤ) (sv : Server) (r : Reply) (text : List ℕ) : Type 0 where
  pub size : List ℕ
  pub body : List ℕ
  pub sent : r ≡ returns minus_one (emit sv (Session.wrote fd size ∷ Session.wrote fd body ∷ []))
  pub shown : (rest : List Read) → print_answer (got size ∷ got body ∷ rest) ≡ some text

-- When some session has a shell and the lines of all of them fit the buffer, the client that asks for
-- the list prints their lines, in the order of the list, if each of the two writes arrives in one
-- read.
pub receive_list-print_answer :
    (t : Texts) (fd : ℤ) (sv : Server)
    → length (listing t sv.sessions) < response_size
    → listed_count sv.sessions ≢ 0
    → IsText (listing t sv.sessions)
    → Answers fd sv (receive_list t fd sv) (listing t sv.sessions)
unfolding send_response
receive_list-print_answer t fd sv fits some_shell clean = record {
  size = le64 (length (listing t sv.sessions) + 1);
  body = listing t sv.sessions ++ (0 ∷ []);
  sent = receive_list-listing t fd sv fits some_shell;
  shown = λ rest. print_answer-text (listing t sv.sessions) rest clean (omega (arith, fits));
}
