-- ===== src/Util.antt =====
-- util.c: the choice of the shell, and the test for a client inside another. A string is its bytes
-- without the NUL, a NULL pointer is `none`. Whether a file may be executed, the environment and
-- the password file are arguments.
pub mod Shell
pub mod Descriptors
mod Tests
use mini_tmux.Base.{
  ℕ, List, [], ◌∷◌, Option, none, some, Bool, true, false, ◌||◌, ◌&&◌, not, ◌==◌, if◌then◌else◌,
}

unfoldable pub checkshell : (List ℕ → Bool) → Option (List ℕ) → Bool
checkshell executable none = false
checkshell executable (some []) = false
checkshell executable (some (b ∷ path)) = if b == b'/' then executable (b ∷ path) else false

-- "/bin/sh"
abbrev pub default_shell : List ℕ
default_shell = b'/' ∷ b'b' ∷ b'i' ∷ b'n' ∷ b'/' ∷ b's' ∷ b'h' ∷ []

-- `getshell`, by `SHELL` and by `pw_shell` of the user's entry, if there is one
unfoldable pub getshell : (List ℕ → Bool) → Option (List ℕ) → Option (List ℕ) → List ℕ
getshell executable none pw_shell = default_shell
getshell executable (some shell) pw_shell =
    if checkshell executable (some shell) then shell else elim pw_shell [
      | none ↦ default_shell
      | some s ↦ if checkshell executable (some shell) then s else default_shell
    ]

-- an entry of the environment that is missing or empty
abbrev pub unset : Option (List ℕ) → Bool
unset none = true
unset (some []) = true
unset (some (b ∷ value)) = false

-- `client_check_nested`, by `MINI_TMUX` and `TMUX`
unfoldable pub client_check_nested : Option (List ℕ) → Option (List ℕ) → Bool
client_check_nested mini_tmux_value tmux_value = not (unset tmux_value && unset mini_tmux_value)
