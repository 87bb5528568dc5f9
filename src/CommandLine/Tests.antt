-- ===== src/CommandLine/Tests.antt =====
-- Command lines, and the branch that they lead to.
use mini_tmux.Base.{ℕ, ◌-◌, ◌≡◌, refl, List, [], ◌∷◌, ℤ, pos}
use mini_tmux.Messages.{text_bytes}
use mini_tmux.Client.Main.{list_all, kill_id, fresh}
use mini_tmux.CommandLine.{parse_options, request_of, same_text}

-- a `strtol` that reads one digit
abbrev digit : List ℕ → ℤ
digit [] = pos 0
digit (c ∷ cs) = pos (c - b'0')

kills_seven : request_of (parse_options digit (text_bytes "-k" ∷ text_bytes "7" ∷ [])) ≡ kill_id 7
unfolding request_of parse_options same_text text_bytes
kills_seven = refl

lists : request_of (parse_options digit (text_bytes "-L" ∷ [])) ≡ list_all
unfolding request_of parse_options same_text text_bytes
lists = refl

starts_without_id : request_of (parse_options digit (text_bytes "-s" ∷ [])) ≡ fresh
unfolding request_of parse_options same_text text_bytes
starts_without_id = refl
