-- ===== src/Client/Keys.antt =====
-- keyboard.c: the functions that keys are bound to, the table of bindings, and the configuration
-- file. `again` is `dispatch_event`, which two of the functions call.
use mini_tmux.Base.{
  ℕ, suc, ◌+◌, List, [], ◌∷◌, Option, none, some, Bool, true, false, ◌&&◌, leb, ◌==◌, if◌then◌else◌,
  length, get_elem?, modify,
}
use mini_tmux.Grid
use mini_tmux.Client.{
  Client, Handler, detach_session, new_pane, next_pane, scroll_up, scroll_down, Keybind, act, wrote,
}

-- `scroll_up` and `scroll_down`, by the height of the pane
abbrev pub scroll_pane : (Grid.Grid → ℕ → Grid.Grid) → Client → Client
scroll_pane f c = record c {
  panes = modify c.panes c.pane (λ p. record p { grid = f p.grid p.sy });
}

-- the pane behind `c->pane`, the first behind the last
unfoldable pub focus_next : Client → Client
focus_next c = record c { pane = if suc c.pane == length c.panes then 0 else suc c.pane }

-- The two events that the functions dispatch.
pub data KeyEvent : Type 0 where
  detached : KeyEvent
  pane_split : KeyEvent

unfoldable pub run_handler : (KeyEvent → Client → Option Client) → Handler → Client → Option Client
run_handler again detach_session c = again detached c
run_handler again new_pane c = again pane_split c
run_handler again next_pane c = some (focus_next c)
run_handler again scroll_up c = some (scroll_pane Grid.scroll_up c)
run_handler again scroll_down c = some (scroll_pane Grid.scroll_down c)

-- `isalpha(key) && isupper(key) ? tolower(key) : key`, in the C locale
abbrev pub lower : ℕ → ℕ
lower key = if leb b'A' key && leb key b'Z' then key + 32 else key

-- the first binding of a key
unfoldable pub find_binding : List Keybind → ℕ → Option Handler
find_binding [] key = none
find_binding (b ∷ bs) key =
    let rest = find_binding bs key in if b.key == key then some b.handler else rest

-- the descriptor of the pane `c->pane`; `none` if there is no such pane
abbrev pub to_pane : Client → List ℕ → Option Client
to_pane c bytes = elim (get_elem? c.panes c.pane) [
  | none ↦ none
  | some p ↦ some (act c (wrote p.master_fd bytes ∷ []))
]

unfoldable pub handle_key : (KeyEvent → Client → Option Client) → ℕ → Client → Option Client
handle_key again key c = elim (find_binding c.keybinds (lower key)) [
  | some h ↦ run_handler again h c
  | none ↦ elim (to_pane c (2 ∷ [])) [ none ↦ none | some c' ↦ to_pane c' (key ∷ []) ]
]

-- the bindings that `keybind_init` starts with
abbrev pub default_keybinds : List Keybind
default_keybinds =
    record { key = b'd'; handler = detach_session }
    ∷ record { key = b'%'; handler = new_pane }
    ∷ record { key = b'o'; handler = next_pane }
    ∷ record { key = b'['; handler = scroll_up }
    ∷ record { key = b']'; handler = scroll_down }
    ∷ []

abbrev pub same_handler : Handler → Handler → Bool
same_handler detach_session detach_session = true
same_handler new_pane new_pane = true
same_handler next_pane next_pane = true
same_handler scroll_up scroll_up = true
same_handler scroll_down scroll_down = true
same_handler _ _ = false

-- every binding of `h` gets the key
unfoldable pub rebind : Handler → ℕ → List Keybind → List Keybind
rebind h key [] = []
rebind h key (b ∷ bs) =
    (if same_handler h b.handler then record b { key = key } else b) ∷ rebind h key bs

-- What `sscanf` makes of the lines of the configuration file that are no comments and have three
-- words: the first byte of the second, and the function that the third names, if one.
pub record Entry : Type 0 where
  pub key : ℕ
  pub action : Option Handler

-- the lines of the file, read in order
unfoldable pub read_entries : List Entry → List Keybind → List Keybind
read_entries [] bs = bs
read_entries (e ∷ es) bs = elim e.action [
  | none ↦ read_entries es bs
  | some h ↦ read_entries es (rebind h e.key bs)
]

unfoldable pub keybind_init : List Entry → List Keybind
keybind_init entries = read_entries entries default_keybinds
