-- ===== src/CommandLine.antt =====
-- main.c: the options of the command line, what `client_main` is asked for by them, and the help.
-- `strtol` of the C library is an argument.
pub mod Place
mod Tests
use Prim.Native.String.{String}
use mini_tmux.Base.{
  ℕ, ◌+◌, ◌-◌, ◌%◌, ◌^◌, List, [], ◌∷◌, ◌++◌, Bool, true, false, ◌&&◌, ◌||◌, ◌==◌, if◌then◌else◌, ℤ,
  pos, negsuc, minus_one, ◌==ℤ◌,
}
use mini_tmux.Messages.{
  Language, MessageId, tr, text_bytes, formatted, msg_help_title, msg_help_version, msg_help_usage,
  msg_help_options, msg_help_opt_list, msg_help_opt_attach, msg_help_opt_kill, msg_help_opt_help,
  msg_help_keybindings, msg_help_key_detach, msg_help_key_split, msg_help_key_next,
  msg_help_key_scroll_up, msg_help_key_scroll_down, msg_help_examples, msg_help_ex_new,
  msg_help_ex_list, msg_help_ex_attach, msg_help_ex_kill,
}
use mini_tmux.Client.Main.{Request, list_all, kill_id, attach_id, fresh}

-- `list_sessions`, `detached_session_id` and `kill_session_id`, and whether the help is asked for
pub record Options : Type 0 where
  pub help : Bool
  pub list_sessions : Bool
  pub detached_session_id : ℤ
  pub kill_session_id : ℤ

abbrev pub no_options : Options
no_options = record {
  help = false;
  list_sessions = false;
  detached_session_id = minus_one;
  kill_session_id = minus_one;
}

-- `strcmp(s, t) == 0`
unfoldable pub same_text : List ℕ → List ℕ → Bool
same_text [] [] = true
same_text [] (b ∷ t) = false
same_text (a ∷ s) [] = false
same_text (a ∷ s) (b ∷ t) = a == b && same_text s t

abbrev pub either_text : List ℕ → String → String → Bool
either_text s a b = same_text s (text_bytes a) || same_text s (text_bytes b)

-- `main`, on the arguments behind the name of the program
unfoldable pub parse_options : (List ℕ → ℤ) → List (List ℕ) → Options
parse_options strtol [] = no_options
parse_options strtol (a ∷ []) = record no_options {
  help = either_text a "-h" "--help";
  list_sessions = either_text a "-l" "-L";
}
parse_options strtol (a ∷ b ∷ []) = record no_options {
  detached_session_id = if either_text a "-s" "-S" then strtol b else minus_one;
  kill_session_id = if either_text a "-k" "-K" then strtol b else minus_one;
}
parse_options strtol (a ∷ b ∷ c ∷ rest) = no_options

-- an `int` as it is sent
abbrev pub int_bits : ℤ → ℕ
int_bits (pos n) = n % 2 ^ 32
int_bits (negsuc n) = 2 ^ 32 - 1 - n % 2 ^ 32

-- the branch that `client_main` takes
unfoldable pub request_of : Options → Request
request_of o =
    if o.list_sessions
    then list_all
    else if o.kill_session_id ==ℤ minus_one
    then (if o.detached_session_id ==ℤ minus_one
        then fresh
        else attach_id (int_bits o.detached_session_id))
    else kill_id (int_bits o.kill_session_id)

-- `print_help`
unfoldable pub print_help : Language → List ℕ → List ℕ → List ℕ
print_help l version prog =
    let plain = λ (id : MessageId). text_bytes (tr l id) in
    let with_arg =
      λ (id : MessageId) (arg : List ℕ). formatted false (text_bytes (tr l id)) (arg ∷ []) in
    plain msg_help_title
    ++ with_arg msg_help_version version
    ++ with_arg msg_help_usage prog
    ++ plain msg_help_options
    ++ plain msg_help_opt_list
    ++ plain msg_help_opt_attach
    ++ plain msg_help_opt_kill
    ++ plain msg_help_opt_help
    ++ plain msg_help_keybindings
    ++ plain msg_help_key_detach
    ++ plain msg_help_key_split
    ++ plain msg_help_key_next
    ++ plain msg_help_key_scroll_up
    ++ plain msg_help_key_scroll_down
    ++ plain msg_help_examples
    ++ with_arg msg_help_ex_new prog
    ++ with_arg msg_help_ex_list prog
    ++ with_arg msg_help_ex_attach prog
    ++ with_arg msg_help_ex_kill prog
