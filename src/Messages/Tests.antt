-- ===== src/Messages/Tests.antt =====
-- The messages at a server with one session; the theorems about them.
use mini_tmux.Base.{ℕ, ◌<◌, ◌≡◌, ◌≢◌, List, [], ◌∷◌, arith, pos, ℤ, false}
use mini_tmux.Server.Receive.{receive_list, listed_count}
use mini_tmux.Server.Listing.{listing}
use mini_tmux.Server.Tests.{server}
use mini_tmux.Client.Main.Answer.{Answers}
use mini_tmux.Messages.{
  lang_en, lang_zh, tr, text_bytes, conversions, conversions-tr, msg_session_format, formatted,
  directive,
}
use mini_tmux.Messages.Replies.{server_texts, receive_list-server_texts}

conversions-tr_example :
    conversions false (text_bytes (tr lang_en msg_session_format))
    ≡ conversions false (text_bytes (tr lang_zh msg_session_format))
conversions-tr_example = conversions-tr lang_en lang_zh msg_session_format

above_nul : (b : ℕ) → 0 < b → b ≢ 0
above_nul b h e = absurd (omega arith)

-- for numbers of one digit
abbrev digit : ℤ → List ℕ
digit n = b'7' ∷ []

receive_list-server_texts_example :
    Answers
      (pos 5)
      server
      (receive_list (server_texts lang_zh digit) (pos 5) server)
      (text_bytes "7: attached (pid 7)\n")
unfolding listing listed_count server_texts text_bytes formatted directive
receive_list-server_texts_example =
    receive_list-server_texts lang_zh digit (pos 5) server (λ n. (above_nul b'7' (omega arith), tt))
      (omega arith) (above_nul 1 (omega arith))
