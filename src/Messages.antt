-- ===== src/Messages.antt =====
-- The messages of i18n.c: the tables, the choice of the language, and what printf makes of a format.
-- Every entry of the tables is there.
pub mod Replies
mod Tests
use Prim.Native.Char.{code}
use Prim.Native.String.{String}
use mini_tmux.Base.{
  ℕ, List, [], ◌∷◌, ◌++◌, Option, none, some, Bool, true, false, ◌==◌, ◌≡◌, refl, ltb, ◌+◌, ◌/◌,
  ◌%◌, if◌then◌else◌, ◌&&◌, sym,
}

pub data Language : Type 0 where
  lang_en lang_zh : Language

pub data MessageId : Type 0 where
  msg_help_title msg_help_version msg_help_usage msg_help_options msg_help_opt_list : MessageId
  msg_help_opt_attach msg_help_opt_kill msg_help_opt_help msg_help_keybindings : MessageId
  msg_help_key_detach msg_help_key_split msg_help_key_next msg_help_key_scroll_up : MessageId
  msg_help_key_scroll_down msg_help_examples msg_help_ex_new msg_help_ex_list : MessageId
  msg_help_ex_attach msg_help_ex_kill msg_err_mkdir msg_err_stat msg_err_fork : MessageId
  msg_err_open_pty msg_err_exec msg_session_format msg_no_sessions msg_session_killed : MessageId
  msg_session_not_found msg_attach_failed msg_nested_warning msg_status_history : MessageId
  msg_window_new msg_window_attached : MessageId

unfoldable pub messages_en : MessageId → String
messages_en msg_help_title = "mini-tmux - a minimal terminal multiplexer\n\n"
messages_en msg_help_version = "        Version: %s By Latos\n\n"
messages_en msg_help_usage = "Usage: %s [options]\n\n"
messages_en msg_help_options = "Options:\n"
messages_en msg_help_opt_list = "  -l         List all sessions\n"
messages_en msg_help_opt_attach = "  -s <id>    Attach to detached session by id\n"
messages_en msg_help_opt_kill = "  -k <id>    Kill session by id\n"
messages_en msg_help_opt_help = "  -h         Show this help message\n\n"
messages_en msg_help_keybindings = "Key bindings:\n"
messages_en msg_help_key_detach = "  Ctrl+B d   Detach from current session\n"
messages_en msg_help_key_split = "  Ctrl+B %%   Split pane vertically\n"
messages_en msg_help_key_next = "  Ctrl+B o   Switch to next pane\n"
messages_en msg_help_key_scroll_up = "  Ctrl+B [   Scroll up (view history)\n"
messages_en msg_help_key_scroll_down = "  Ctrl+B ]   Scroll down\n\n"
messages_en msg_help_examples = "Examples:\n"
messages_en msg_help_ex_new = "  %s           Start a new session\n"
messages_en msg_help_ex_list = "  %s -l        List all sessions\n"
messages_en msg_help_ex_attach = "  %s -s 0      Attach to session 0\n"
messages_en msg_help_ex_kill = "  %s -k 0      Kill session 0\n"
messages_en msg_err_mkdir = "mkdir failed"
messages_en msg_err_stat = "stat failed"
messages_en msg_err_fork = "Fork failed"
messages_en msg_err_open_pty = "open slave pty failed"
messages_en msg_err_exec = "Execve failed"
messages_en msg_session_format = "%d: %s (pid %d)\n"
messages_en msg_no_sessions = "(no sessions)\n"
messages_en msg_session_killed = "killed session %d\n"
messages_en msg_session_not_found = "session %d not found\n"
messages_en msg_attach_failed = "attach failed: session %d not found or not detached\n"
messages_en msg_nested_warning = "sessions should be nested with care\n"
messages_en msg_status_history = "[history]"
messages_en msg_window_new = "New Window"
messages_en msg_window_attached = "Attached Window"

unfoldable pub messages_zh : MessageId → String
messages_zh msg_help_title = "mini-tmux - 轻量级终端复用器\n\n"
messages_zh msg_help_version = "        版本: %s 作者: Latos\n\n"
messages_zh msg_help_usage = "用法: %s [选项]\n\n"
messages_zh msg_help_options = "选项:\n"
messages_zh msg_help_opt_list = "  -l         列出所有会话\n"
messages_zh msg_help_opt_attach = "  -s <id>    连接到指定会话\n"
messages_zh msg_help_opt_kill = "  -k <id>    终止指定会话\n"
messages_zh msg_help_opt_help = "  -h         显示帮助信息\n\n"
messages_zh msg_help_keybindings = "快捷键:\n"
messages_zh msg_help_key_detach = "  Ctrl+B d   分离当前会话\n"
messages_zh msg_help_key_split = "  Ctrl+B %%   垂直分割窗格\n"
messages_zh msg_help_key_next = "  Ctrl+B o   切换到下一窗格\n"
messages_zh msg_help_key_scroll_up = "  Ctrl+B [   向上滚动(查看历史)\n"
messages_zh msg_help_key_scroll_down = "  Ctrl+B ]   向下滚动\n\n"
messages_zh msg_help_examples = "示例:\n"
messages_zh msg_help_ex_new = "  %s           启动新会话\n"
messages_zh msg_help_ex_list = "  %s -l        列出所有会话\n"
messages_zh msg_help_ex_attach = "  %s -s 0      连接到会话 0\n"
messages_zh msg_help_ex_kill = "  %s -k 0      终止会话 0\n"
messages_zh msg_err_mkdir = "创建目录失败"
messages_zh msg_err_stat = "获取文件状态失败"
messages_zh msg_err_fork = "创建进程失败"
messages_zh msg_err_open_pty = "打开伪终端失败"
messages_zh msg_err_exec = "执行程序失败"
messages_zh msg_session_format = "%d: %s (进程号 %d)\n"
messages_zh msg_no_sessions = "(无会话)\n"
messages_zh msg_session_killed = "已终止会话 %d\n"
messages_zh msg_session_not_found = "会话 %d 不存在\n"
messages_zh msg_attach_failed = "连接失败: 会话 %d 不存在或未分离\n"
messages_zh msg_nested_warning = "警告: 不建议嵌套运行会话\n"
messages_zh msg_status_history = "[历史]"
messages_zh msg_window_new = "新窗口"
messages_zh msg_window_attached = "已连接窗口"

-- `_`, for an id of the enumeration
unfoldable pub tr : Language → MessageId → String
tr lang_en id = messages_en id
tr lang_zh id = messages_zh id

-- The bytes of a character of the sources, which are UTF-8.
unfoldable pub char_utf8 : ℕ → List ℕ
char_utf8 c =
    if ltb c 0x80
    then c ∷ []
    else if ltb c 0x800
    then (0xC0 + c / 64) ∷ (0x80 + c % 64) ∷ []
    else if ltb c 0x10000
    then (0xE0 + c / 4096) ∷ (0x80 + c / 64 % 64) ∷ (0x80 + c % 64) ∷ []
    else (0xF0 + c / 262144) ∷ (0x80 + c / 4096 % 64) ∷ (0x80 + c / 64 % 64) ∷ (0x80 + c % 64) ∷ []

-- The bytes of a text.
unfoldable pub text_bytes : String → List ℕ
unfolding char_utf8
text_bytes String.[] = []
text_bytes (String.◌∷◌ c s) = char_utf8 (code c) ++ text_bytes s

-- `i18n_init`: the first variable that is set, of LANG, LC_ALL and LC_MESSAGES, decides; `lang` is
-- the language so far.
unfoldable pub zh_prefix : List ℕ → Bool
zh_prefix (a ∷ b ∷ _) = a == b'z' && b == b'h'
zh_prefix _ = false

abbrev pub first_set : Option (List ℕ) → Option (List ℕ) → Option (List ℕ)
first_set none later = later
first_set (some v) later = some v

-- `i18n_set_language` and `i18n_get_language`, over the current language
abbrev pub i18n_set_language : Language → Language → Language
i18n_set_language l current = l

abbrev pub i18n_get_language : Language → Language
i18n_get_language current = current

unfoldable pub i18n_init : Option (List ℕ) → Option (List ℕ) → Option (List ℕ) → Language → Language
i18n_init lang_var lc_all lc_messages lang =
    elim (first_set (first_set lang_var lc_all) lc_messages) [
      | none ↦ lang
      | some v ↦ if zh_prefix v then lang_zh else lang_en
    ]

-- what printf makes of the character behind a '%', with the arguments as texts, and those left
unfoldable pub directive : ℕ → List (List ℕ) → List ℕ × List (List ℕ)
directive c args =
    if c == b'%' then (c ∷ [], args) else elim args [ [] ↦ ([], []) | arg ∷ rest ↦ (arg, rest) ]

-- printf, where `pending` says whether a '%' came last
unfoldable pub formatted : Bool → List ℕ → List (List ℕ) → List ℕ
formatted pending [] args = []
formatted false (c ∷ cs) args = (if c == b'%' then [] else c ∷ []) ++ formatted (c == b'%') cs args
formatted true (c ∷ cs) args = let (out, rest) = directive c args in out ++ formatted false cs rest

-- The conversions of a format, in order.
unfoldable pub conversions : Bool → List ℕ → List ℕ
conversions pending [] = []
conversions false (c ∷ cs) = conversions (c == b'%') cs
conversions true (c ∷ cs) = (if c == b'%' then [] else c ∷ []) ++ conversions false cs

same :
    (id : MessageId)
    → conversions false (text_bytes (messages_en id))
      ≡ conversions false (text_bytes (messages_zh id))
unfolding conversions text_bytes messages_en messages_zh
same msg_help_title = refl
same msg_help_version = refl
same msg_help_usage = refl
same msg_help_options = refl
same msg_help_opt_list = refl
same msg_help_opt_attach = refl
same msg_help_opt_kill = refl
same msg_help_opt_help = refl
same msg_help_keybindings = refl
same msg_help_key_detach = refl
same msg_help_key_split = refl
same msg_help_key_next = refl
same msg_help_key_scroll_up = refl
same msg_help_key_scroll_down = refl
same msg_help_examples = refl
same msg_help_ex_new = refl
same msg_help_ex_list = refl
same msg_help_ex_attach = refl
same msg_help_ex_kill = refl
same msg_err_mkdir = refl
same msg_err_stat = refl
same msg_err_fork = refl
same msg_err_open_pty = refl
same msg_err_exec = refl
same msg_session_format = refl
same msg_no_sessions = refl
same msg_session_killed = refl
same msg_session_not_found = refl
same msg_attach_failed = refl
same msg_nested_warning = refl
same msg_status_history = refl
same msg_window_new = refl
same msg_window_attached = refl

-- In both languages a message has the same conversions in the same order, so that the arguments of a
-- call fit whatever the language is.
pub conversions-tr :
    (l l' : Language) (id : MessageId)
    → conversions false (text_bytes (tr l id)) ≡ conversions false (text_bytes (tr l' id))
unfolding conversions text_bytes tr messages_en messages_zh
conversions-tr lang_en lang_en id = refl
conversions-tr lang_zh lang_zh id = refl
conversions-tr lang_en lang_zh id = same id
conversions-tr lang_zh lang_en id = sym (same id)
