-- ===== src/Client/Protocol.antt =====
-- The messages that the client sends (client.c), as the server reads their headers (server.c).
use mini_tmux.Base.{
  ℕ, ◌+◌, ◌*◌, ◌/◌, ◌%◌, ◌∙◌, ◌<◌, ◌^◌, ◌≡◌, refl, List, [], ◌∷◌, arith, length, drop, ap,
}
use mini_tmux.Client.{Answers, message, type_code}
use mini_tmux.Server.Wire.{
  MsgType, command, detach, list_sessions, detachkill, exited, resize, grid_save, other, header_at,
  header_image, sizeof_header, msgtype_of,
}

msgtype_of-type_code : (type : MsgType) → msgtype_of (type_code type) ≡ type
unfolding msgtype_of type_code
msgtype_of-type_code command = refl
msgtype_of-type_code detach = refl
msgtype_of-type_code list_sessions = refl
msgtype_of-type_code detachkill = refl
msgtype_of-type_code exited = refl
msgtype_of-type_code resize = refl
msgtype_of-type_code grid_save = refl
msgtype_of-type_code other = refl

type_code_small : (type : MsgType) → type_code type < 2 ^ 32
unfolding type_code
type_code_small command = omega arith
type_code_small detach = omega arith
type_code_small list_sessions = omega arith
type_code_small detachkill = omega arith
type_code_small exited = omega arith
type_code_small resize = omega arith
type_code_small grid_save = omega arith
type_code_small other = omega arith

abbrev pub joined : ℕ → ℕ
joined n =
    n % 256 + 256 * (n / 256 % 256) + 65536 * (n / 65536 % 256) + 16777216 * (n / 16777216 % 256)

four_bytes : (n : ℕ) → n < 2 ^ 32 → joined n ≡ n
four_bytes n h = omega arith

pub eight_bytes : (n : ℕ) → n < 2 ^ 64 → joined (n % 2 ^ 32) + 4294967296 * joined (n / 2 ^ 32) ≡ n
eight_bytes n h =
    omega (arith, four_bytes (n % 2 ^ 32) (omega arith), four_bytes (n / 2 ^ 32) (omega arith))

-- A message whose payload is shorter than 2^64 bytes, with any four bytes of padding, is taken by
-- the server for the type it was sent as, with the length of its payload, and the payload follows
-- the sixteen bytes of the header.
pub message-parses :
    (k : Answers) (a b c d : ℕ) (type : MsgType) (buf : List ℕ)
    → k.padding ≡ a ∷ b ∷ c ∷ d ∷ []
    → length buf < 2 ^ 64
    → (msgtype_of (header_at (message k type buf)).type ≡ type)
      × ((header_at (message k type buf)).len ≡ length buf)
      × (drop sizeof_header (message k type buf) ≡ buf)
unfolding message header_at header_image
message-parses k a b c d type buf padded short = rw padded (
  ap msgtype_of (four_bytes (type_code type) (type_code_small type)) ∙ msgtype_of-type_code type,
  eight_bytes (length buf) short,
  refl,
)
