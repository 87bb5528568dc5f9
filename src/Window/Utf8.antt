-- ===== src/Window/Utf8.antt =====
-- The UTF-8 that a cell holds (window.c), against a decoder.
use mini_tmux.Base.{
  ℕ, ◌+◌, ◌-◌, ◌*◌, ◌<◌, ◌≤◌, ◌≡◌, List, arith, ltb, if◌then◌else◌, get_or, length,
}
use mini_tmux.Window.{cp_to_utf8}

-- the six bits of continuation byte `i`
abbrev tail_bits : List ℕ → ℕ → ℕ
tail_bits bs i = get_or bs i 0 - 0x80

-- the code point that starts a text
pub decode_utf8 : List ℕ → ℕ
decode_utf8 bs =
    let a = get_or bs 0 0 in
    if ltb a 0x80
    then a
    else if ltb a 0xE0
    then (a - 0xC0) * 64 + tail_bits bs 1
    else if ltb a 0xF0
    then (a - 0xE0) * 4096 + tail_bits bs 1 * 64 + tail_bits bs 2
    else (a - 0xF0) * 262144 + tail_bits bs 1 * 4096 + tail_bits bs 2 * 64 + tail_bits bs 3

-- The bytes stored for a code point below 0x200000, which all of Unicode is, decode to it, and with
-- their NUL they fit the five bytes of `ch`.
pub cp_to_utf8-decodes :
    (cp : ℕ) → cp < 0x200000 → (decode_utf8 (cp_to_utf8 cp) ≡ cp) × (length (cp_to_utf8 cp) ≤ 5)
unfolding cp_to_utf8 decode_utf8
cp_to_utf8-decodes cp h = (ground arith, ground arith)
