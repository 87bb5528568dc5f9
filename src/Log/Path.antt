-- ===== src/Log/Path.antt =====
-- Where `log_init` of log.c puts the log.
use mini_tmux.Base.{
  ℕ, zero, suc, ◌≤◌, ◌<◌, ◌≡◌, ◌≢◌, refl, List, [], ◌∷◌, ◌++◌, none, some, arith, All, length, take,
  ap, ne→==_false, Bool, true,
}
use mini_tmux.Messages.{text_bytes}
use mini_tmux.Log.{Log, last_slash, log_path, log_init}

-- no slash in a name
abbrev pub IsName : List ℕ → Type 0
IsName s = All (λ b. b ≢ b'/') s

last_slash-IsName : (s : List ℕ) → IsName s → last_slash s ≡ none
unfolding last_slash
last_slash-IsName [] h = refl
last_slash-IsName (b ∷ s) h = rw (last_slash-IsName s h.1, ne→==_false b b'/' h.0, last_slash) refl

-- the last slash stands in front of the name
last_slash-append : (dir s : List ℕ) → IsName s → last_slash (dir ++ (b'/' ∷ s)) ≡ some (length dir)
unfolding last_slash
last_slash-append [] s h = rw (last_slash-IsName s h, last_slash) refl
last_slash-append (b ∷ dir) s h = rw (last_slash-append dir s h, last_slash) refl

take-append_length : (s t : List ℕ) → take (length s) (s ++ t) ≡ s
take-append_length [] t = refl
take-append_length (b ∷ s) t = ap (λ r. b ∷ r) (take-append_length s t)

pub take_all : (n : ℕ) (s : List ℕ) → length s ≤ n → take n s ≡ s
take_all zero [] h = refl
take_all (suc n) [] h = refl
take_all zero (b ∷ s) h = absurd (omega (arith, h))
take_all (suc n) (b ∷ s) h = ap (λ r. b ∷ r) (take_all n s (omega (arith, h)))

-- The log of a program is opened in the directory of the socket, under the name of the program and
-- ".log", if the path is shorter than 256 bytes and the file can be opened.
pub log_init_path :
    (opens : List ℕ → Bool) (dir socket name : List ℕ) (l : Log)
    → IsName socket
    → length (dir ++ (b'/' ∷ (name ++ text_bytes ".log"))) < 256
    → opens (dir ++ (b'/' ∷ (name ++ text_bytes ".log"))) ≡ true
    → (log_init opens (some (dir ++ (b'/' ∷ socket))) name l).log_fp
      ≡ some (dir ++ (b'/' ∷ (name ++ text_bytes ".log")))
unfolding log_init log_path text_bytes
log_init_path opens dir socket name l plain short works =
    let path : log_path (dir ++ (b'/' ∷ socket)) name
        ≡ dir ++ (b'/' ∷ (name ++ text_bytes ".log")) =
      rw (last_slash-append dir socket plain, log_path, take-append_length dir (b'/' ∷ socket))
        (take_all 255 (dir ++ (b'/' ∷ (name ++ text_bytes ".log"))) (omega (arith, short))) in
    rw (path, works, log_init) refl
