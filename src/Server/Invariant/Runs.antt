-- ===== src/Server/Invariant/Runs.antt =====
-- Runs of `server_loop`: the states that they leave, and what makes one access memory outside a buffer.
use mini_tmux.Base.{List, [], ◌∷◌, ℤ, ◌⊎◌}
use mini_tmux.Server.Session.{Server}
use mini_tmux.Server.Receive.{Texts}
use mini_tmux.Server.Loop.{Input, Select, Iteration, goes_on, stops, exited, faulted, blocked}
use mini_tmux.Server.Invariant.Handled.{BadMessage}

-- a client of the iteration sent a malformed message
abbrev pub SentBad : Texts → Input → Type 0
SentBad t inp = (fd : ℤ) × (sv : Server) × BadMessage t sv (inp.reads fd)

-- some client of some iteration did
abbrev pub RunSentBad : Texts → List (Select × Input) → Type 0
RunSentBad t [] = ⊥
RunSentBad t ((sel, inp) ∷ rest) = SentBad t inp ⊎ RunSentBad t rest

-- an iteration that faults has the reason `M`
abbrev pub StepFaultsOn : Type 0 → Iteration → Type 0
StepFaultsOn M (goes_on sv) = Unit
StepFaultsOn M (stops sv) = Unit
StepFaultsOn M (exited sv) = Unit
StepFaultsOn M faulted = M
StepFaultsOn M blocked = Unit
