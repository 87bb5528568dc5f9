-- ===== src/CommandLine/Place.antt =====
-- main.c: the directory of the socket, and where the logs of client and server are. The directory for
-- temporary files and the digits of the user's id are arguments, as are the answers of `mkdir` and
-- `lstat`.
use mini_tmux.Base.{
  ℕ, ◌/◌, ◌%◌, ◌<◌, ◌≡◌, List, ◌∷◌, ◌++◌, Option, none, some, Bool, true, ◌==◌, if◌then◌else◌,
  arith, length, ap, ◌∙◌, length-append,
}
use mini_tmux.Messages.{text_bytes}
use mini_tmux.Log.{Log, fitted, log_init}
use mini_tmux.Log.Path.{IsName, log_init_path, take_all}

-- what `mkdir` says
pub data Mkdir : Type 0 where
  made already_there mkdir_failed : Mkdir

-- `info.st_mode & S_IFDIR`
abbrev pub has_dir_bit : ℕ → Bool
has_dir_bit mode = mode / 16384 % 2 == 1

-- `dir`, in a buffer of 100 bytes
unfoldable pub socket_dir : List ℕ → List ℕ → List ℕ
socket_dir tmp uid = fitted 100 (tmp ++ (text_bytes "mini-tmux-" ++ uid))

-- `socket_path`, in a buffer of 100 bytes
unfoldable pub socket_path : List ℕ → List ℕ → List ℕ
socket_path tmp uid = fitted 100 (socket_dir tmp uid ++ text_bytes "/default")

-- The path with which `main` goes on, or `none` where it returns -1; `stat` is the mode that `lstat`
-- gives.
unfoldable pub make_place : Mkdir → Option ℕ → List ℕ → List ℕ → Option (List ℕ)
make_place mkdir_failed stat tmp uid = none
make_place m none tmp uid = none
make_place m (some mode) tmp uid = if has_dir_bit mode then some (socket_path tmp uid) else none

default-IsName : IsName (text_bytes "default")
unfolding text_bytes
default-IsName = (
  λ e. omega (arith, e),
  (
    λ e. omega (arith, e),
    (
      λ e. omega (arith, e),
      (
        λ e. omega (arith, e),
        (λ e. omega (arith, e), (λ e. omega (arith, e), (λ e. omega (arith, e), tt))),
      ),
    ),
  ),
)

-- The logs of client and server stand beside the socket, in the directory of the user.
pub log_init-socket_path :
    (opens : List ℕ → Bool) (tmp uid name : List ℕ) (l : Log)
    → length (tmp ++ (text_bytes "mini-tmux-" ++ uid)) < 92
    → length name < 150
    → opens ((tmp ++ (text_bytes "mini-tmux-" ++ uid)) ++ (b'/' ∷ (name ++ text_bytes ".log")))
      ≡ true
    → (log_init opens (some (socket_path tmp uid)) name l).log_fp
      ≡ some ((tmp ++ (text_bytes "mini-tmux-" ++ uid)) ++ (b'/' ∷ (name ++ text_bytes ".log")))
unfolding socket_path socket_dir text_bytes
log_init-socket_path opens tmp uid name l short few works =
    let dir = tmp ++ (text_bytes "mini-tmux-" ++ uid) in
    let whole : socket_path tmp uid ≡ dir ++ (b'/' ∷ text_bytes "default") =
      ap (λ d. fitted 100 (d ++ text_bytes "/default")) (take_all 99 dir (omega (arith, short)))
      ∙ take_all 99 (dir ++ text_bytes "/default")
          (omega (arith, short, length-append dir (text_bytes "/default"))) in
    ap (λ s. (log_init opens (some s) name l).log_fp) whole
    ∙ log_init_path opens dir (text_bytes "default") name l default-IsName
        (omega (
          arith,
          short,
          few,
          length-append dir (b'/' ∷ (name ++ text_bytes ".log")),
          length-append name (text_bytes ".log"),
        ))
        works
