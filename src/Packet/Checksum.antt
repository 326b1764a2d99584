-- ===== src/Packet/Checksum.antt =====
-- `csum` of raw/main.c, the Internet checksum.
pub mod Laws
use iteso_codigos.Common.{
  ℕ, zero, suc, ◌+◌, ◌-◌, ◌/◌, ◌%◌, ◌^◌, Option, none, some, List, [], ◌∷◌, if◌then◌else◌, ltb,
  ◌==◌,
}
use iteso_codigos.Common.Text.{Bytes}
use iteso_codigos.Packet.Word.{word}

-- The loop over `bytes` bytes, and the odd byte behind it. `sum` is an `unsigned long`; `none` is a
-- read behind the end of the block.
unfoldable pub add_words : ℕ → ℕ → Bytes → Option ℕ
add_words sum bytes [] = if bytes == 0 then some sum else none
add_words sum bytes (a ∷ []) =
    if bytes == 0 then some sum else if bytes == 1 then some ((sum + a) % 2 ^ 64) else none
add_words sum bytes (a ∷ b ∷ buf) =
    let more = add_words ((sum + word a b) % 2 ^ 64) (bytes - 2) buf in
    if ltb 1 bytes then more else if bytes == 1 then some ((sum + a) % 2 ^ 64) else some sum

-- The two carries, and the complement cut to 16 bits.
unfoldable pub fold_sum : ℕ → ℕ
fold_sum sum =
    let once = sum / 2 ^ 16 + sum % 2 ^ 16 in
    let twice = once + once / 2 ^ 16 in (2 ^ 64 - 1 - twice) % 2 ^ 16

unfoldable pub csum : Bytes → ℕ → Option ℕ
csum buf bytes = elim (add_words 0 bytes buf) [ none ↦ none | some sum ↦ some (fold_sum sum) ]
