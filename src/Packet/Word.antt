-- ===== src/Packet/Word.antt =====
-- 16-bit words in memory. The machine is little-endian, and the network is big-endian.
use iteso_codigos.Common.{ℕ, ◌+◌, ◌*◌, ◌/◌, ◌%◌, ◌<◌, ◌≡◌, [], ◌∷◌, arith}
use iteso_codigos.Common.Text.{Bytes}

-- The `u_int16_t` that two bytes in memory are.
abbrev pub word : ℕ → ℕ → ℕ
word a b = a + 256 * b

-- `htons` and `ntohs` swap the bytes of a 16-bit value.
unfoldable pub htons : ℕ → ℕ
htons w = (w % 256) * 256 + w / 256 % 256

-- The bytes of a `u_int16_t` in memory.
unfoldable pub store16 : ℕ → Bytes
store16 w = (w % 256) ∷ (w / 256 % 256) ∷ []

pub htons-htons : (w : ℕ) → w < 65536 → htons (htons w) ≡ w
unfolding htons
htons-htons w h = omega arith
