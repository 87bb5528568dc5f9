-- ===== src/Input/Utf8.antt =====
-- The two encoders of a code point, of window.c and of input.c.
use mini_tmux.Base.{ℕ, ◌<◌, ◌≡◌, arith}
use mini_tmux.Window.{cp_to_utf8}
use mini_tmux.Input.{unicode_to_utf8}

-- For a code point of Unicode both encoders store the same bytes, so that a character looks the
-- same on the screen and in the history.
pub unicode_to_utf8-agrees : (cp : ℕ) → cp < 0x110000 → unicode_to_utf8 cp ≡ cp_to_utf8 cp
unfolding unicode_to_utf8 cp_to_utf8
unicode_to_utf8-agrees cp h = ground arith
