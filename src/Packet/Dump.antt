-- ===== src/Packet/Dump.antt =====
-- `dump` of raw/main.c, Sniffer/pcap_clase.c and Sniffer/linux_raw/main.c: the same loop three times.
-- The text that it prints is its result; `none` is a read behind the end of the buffer.
pub mod Rows
pub mod Bounds
use iteso_codigos.Common.{
  ℕ, zero, suc, ◌+◌, ◌-◌, ◌/◌, ◌%◌, Bool, true, false, ◌&&◌, ◌||◌, Option, none, some, List, [],
  ◌∷◌, ◌++◌, if◌then◌else◌, ltb, ◌==◌, get_elem?,
}
use iteso_codigos.Common.Text.{Bytes, codes}

abbrev pub hex_digit : ℕ → ℕ
hex_digit d = if ltb d 10 then b'0' + d else b'a' + (d - 10)

-- "%02x "
abbrev pub hex_text : ℕ → Bytes
hex_text c = hex_digit (c / 16) ∷ hex_digit (c % 16) ∷ b' ' ∷ []

-- The byte itself if it is printable, and else a dot.
abbrev pub shown : ℕ → ℕ
shown c = if ltb 31 c && ltb c 127 then c else b'.'

-- The loop that prints "   " so many times.
unfoldable pub padding : ℕ → Bytes
padding zero = []
padding (suc n) = b' ' ∷ b' ' ∷ b' ' ∷ padding n

abbrev pub attach : Bytes → Option Bytes → Option Bytes
attach text none = none
attach text (some more) = some (text ++ more)

module _ (buf : Bytes) where
  -- for(j = …; j <= i; j++), with `rounds` rounds left.
  unfoldable pub chars_from : ℕ → ℕ → Option Bytes
  chars_from zero j = some []
  chars_from (suc rounds) j = elim (get_elem? buf j) [
    | none ↦ none
    | some c ↦ attach (shown c ∷ []) (chars_from rounds (j + 1))
  ]

  -- What follows the hexadecimal digits of the last byte in a row.
  unfoldable pub row_end : ℕ → Option Bytes
  row_end i = elim (chars_from (i % 16 + 1) (i - i % 16)) [
    | none ↦ none
    | some text ↦ some (padding (15 - i % 16) ++ (codes "| " ++ (text ++ codes "\n")))
  ]

  abbrev pub join : Option Bytes → Option Bytes → Option Bytes
  join none rest = none
  join (some text) rest = attach text rest

  -- for(i = 0; i < length; i++), with `rounds` rounds left: the length is `i + rounds`.
  unfoldable pub dump_from : ℕ → ℕ → Option Bytes
  dump_from zero i = some []
  dump_from (suc rounds) i = elim (get_elem? buf i) [
    | none ↦ none
    | some c ↦
        let tail = dump_from rounds (i + 1) in
        attach (hex_text c) (if i % 16 == 15 || rounds == 0 then join (row_end i) tail else tail)
  ]

unfoldable pub dump : Bytes → ℕ → Option Bytes
dump buf length = dump_from buf length 0
