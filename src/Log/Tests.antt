-- ===== src/Log/Tests.antt =====
-- The log of the server, beside the socket.
use mini_tmux.Base.{◌≡◌, refl, ◌∷◌, [], some, true}
use mini_tmux.Messages.{text_bytes}
use mini_tmux.Log.{
  initial_log, log_init, log_path, last_slash, log_write, log_line, log_warn, level_name, base_name,
}

beside_socket :
    (log_init
      (λ path. true)
      (some (text_bytes "/tmp/mini-tmux-7/default"))
      (text_bytes "server")
      initial_log).log_fp
    ≡ some (text_bytes "/tmp/mini-tmux-7/server.log")
unfolding log_init log_path last_slash text_bytes
beside_socket = refl

one_line :
    (log_write log_warn
      (text_bytes "now")
      (text_bytes "src/server.c")
      (text_bytes "7")
      (text_bytes "x")
      initial_log).stderr
    ≡ text_bytes "[now] [WARN] [server.c:7] x\n" ∷ []
unfolding log_write log_line level_name base_name last_slash text_bytes
one_line = refl
