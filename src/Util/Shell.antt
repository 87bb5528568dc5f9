-- ===== src/Util/Shell.antt =====
-- The shell that `getshell` of util.c chooses.
use mini_tmux.Base.{ℕ, List, Option, none, some, Bool, true, ◌≡◌, refl, Bool-cases, inl, inr}
use mini_tmux.Util.{checkshell, getshell, default_shell}

default_usable :
    (executable : List ℕ → Bool)
    → executable default_shell ≡ true
    → checkshell executable (some default_shell) ≡ true
unfolding checkshell
default_usable executable h = h

-- The shell of the password file makes no difference.
pub getshell_ignores_passwd :
    (executable : List ℕ → Bool) (shell pw_shell : Option (List ℕ))
    → getshell executable shell pw_shell ≡ getshell executable shell none
unfolding getshell
getshell_ignores_passwd executable none pw_shell = refl
getshell_ignores_passwd executable (some shell) none = refl
getshell_ignores_passwd executable (some shell) (some s) =
    elim (Bool-cases (checkshell executable (some shell))) [
      | inl good ↦ rw (good, getshell) refl
      | inr bad ↦ rw (bad, getshell) refl
    ]

-- Whatever the environment and the password file say, the shell chosen is an absolute path that may
-- be executed, if "/bin/sh" may.
pub getshell-usable :
    (executable : List ℕ → Bool) (shell pw_shell : Option (List ℕ))
    → executable default_shell ≡ true
    → checkshell executable (some (getshell executable shell pw_shell)) ≡ true
unfolding getshell
getshell-usable executable none pw_shell h = default_usable executable h
getshell-usable executable (some shell) pw_shell h =
    elim (Bool-cases (checkshell executable (some shell))) [
      | inl good ↦ rw (good, getshell) good
      | inr bad ↦
          rw (getshell_ignores_passwd executable (some shell) pw_shell)
            (rw (bad, getshell) (default_usable executable h))
    ]
