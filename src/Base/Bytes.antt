-- ===== src/Base/Bytes.antt =====
-- Numbers and the bytes that hold them in memory, least significant first.
use Prim.Native.Nat.{ℕ, suc, ◌+◌, ◌*◌, ◌/◌, ◌%◌, ◌^◌, ◌<◌}
use mathlib.Core.Path.{◌≡◌}
use mathlib.Core.List.{List, [], ◌∷◌, ◌++◌}
use native.Mathlib.Omega.{arith}
use mini_tmux.Base.Lists.{get_or}

-- the four bytes of an `unsigned int`
abbrev pub le32 : ℕ → List ℕ
le32 n = n % 256 ∷ n / 256 % 256 ∷ n / 65536 % 256 ∷ n / 16777216 % 256 ∷ []

-- the `unsigned int` at byte `i`
abbrev pub u32_at : List ℕ → ℕ → ℕ
u32_at bs i =
    get_or bs i 0
    + 256 * get_or bs (suc i) 0
    + 65536 * get_or bs (suc (suc i)) 0
    + 16777216 * get_or bs (suc (suc (suc i))) 0

pub u32_at-le32 : (n : ℕ) (rest : List ℕ) → n < 2 ^ 32 → u32_at (le32 n ++ rest) 0 ≡ n
u32_at-le32 n rest h = omega arith

-- the eight bytes of a `size_t`, and the `size_t` at byte `i`
abbrev pub le64 : ℕ → List ℕ
le64 n = le32 (n % 2 ^ 32) ++ le32 (n / 2 ^ 32)

abbrev pub u64_at : List ℕ → ℕ → ℕ
u64_at bs i = u32_at bs i + 4294967296 * u32_at bs (suc (suc (suc (suc i))))

-- `uint16_t` at byte `i`
abbrev pub u16_at : List ℕ → ℕ → ℕ
u16_at bs i = get_or bs i 0 + 256 * get_or bs (suc i) 0
