-- ===== src/Log.antt =====
-- log.c. The time, the text that `vsnprintf` makes of the message, what `snprintf` makes of "%d", and
-- whether the file can be opened are arguments. A string is its bytes without the NUL.
pub mod Path
mod Tests
use mini_tmux.Base.{
  ℕ, suc, ◌-◌, List, [], ◌∷◌, ◌++◌, Option, none, some, Bool, true, false, ◌==◌, ltb, if◌then◌else◌,
  take, drop, ℤ, pos,
}
use mini_tmux.Messages.{text_bytes}

pub data LogLevel : Type 0 where
  log_debug log_info log_warn log_error : LogLevel

-- the number of the enumeration
abbrev pub level_number : LogLevel → ℕ
level_number log_debug = 0
level_number log_info = 1
level_number log_warn = 2
level_number log_error = 3

unfoldable pub level_name : LogLevel → List ℕ
level_name log_debug = text_bytes "DEBUG"
level_name log_info = text_bytes "INFO"
level_name log_warn = text_bytes "WARN"
level_name log_error = text_bytes "ERROR"

-- The variables of the module, and what was written to standard error and to files, with their path.
-- `log_fp` is the path of its file.
pub record Log : Type 0 where
  pub log_fp : Option (List ℕ)
  pub min_level : LogLevel
  pub log_name : List ℕ
  pub stderr : List (List ℕ)
  pub files : List (List ℕ × List ℕ)

abbrev pub initial_log : Log
initial_log = record {
  log_fp = none;
  min_level = log_debug;
  log_name = text_bytes "unknown";
  stderr = [];
  files = [];
}

-- `strrchr(s, '/')`, as a place
unfoldable pub last_slash : List ℕ → Option ℕ
last_slash [] = none
last_slash (b ∷ s) = elim (last_slash s) [
  | some i ↦ some (suc i)
  | none ↦ if b == b'/' then some 0 else none
]

-- `snprintf` to a buffer of `size` bytes
abbrev pub fitted : ℕ → List ℕ → List ℕ
fitted size text = take (size - 1) text

-- `log_path`
unfoldable pub log_path : List ℕ → List ℕ → List ℕ
log_path socket_path name = elim (last_slash socket_path) [
  | some i ↦ fitted 256 (take i socket_path ++ (text_bytes "/" ++ (name ++ text_bytes ".log")))
  | none ↦ fitted 256 (name ++ text_bytes ".log")
]

unfoldable pub log_init : (List ℕ → Bool) → Option (List ℕ) → List ℕ → Log → Log
log_init opens none name l = record l { log_name = name }
log_init opens (some socket_path) name l = record l {
  log_name = name;
  log_fp = if opens (log_path socket_path name) then some (log_path socket_path name) else none;
}

unfoldable pub log_close : Log → Log
log_close l = record l { log_fp = none }

unfoldable pub log_set_level : LogLevel → Log → Log
log_set_level level l = record l { min_level = level }

-- the part of a path behind its last slash
unfoldable pub base_name : List ℕ → List ℕ
base_name file = elim (last_slash file) [ none ↦ file | some i ↦ drop (suc i) file ]

-- `log_line`, of the time, the file, the line and the message
unfoldable pub log_line : LogLevel → List ℕ → List ℕ → List ℕ → List ℕ → List ℕ
log_line level time file line msg = fitted 1280 (
    text_bytes "["
    ++ (time
        ++ (text_bytes "] ["
            ++ (level_name level
                ++ (text_bytes "] ["
                    ++ (base_name file
                        ++ (text_bytes ":"
                            ++ (line
                                ++ (text_bytes "] " ++ (fitted 1024 msg ++ text_bytes "\n"))))))))))

unfoldable pub log_write : LogLevel → List ℕ → List ℕ → List ℕ → List ℕ → Log → Log
log_write level time file line msg l =
    let text = log_line level time file line msg in
    if ltb (level_number level) (level_number l.min_level) then l else record l {
      stderr = l.stderr ++ (text ∷ []);
      files = elim l.log_fp [ none ↦ l.files | some path ↦ l.files ++ ((path, text) ∷ []) ];
    }
