-- ===== src/Util/Tests.antt =====
-- The shell where `SHELL` is "sh", which is no absolute path, and every file may be executed.
use mini_tmux.Base.{ℕ, List, [], ◌∷◌}

abbrev relative : List ℕ
relative = b's' ∷ b'h' ∷ []

abbrev zsh : List ℕ
zsh = b'/' ∷ b'z' ∷ b's' ∷ b'h' ∷ []
