-- ===== src/Packet/Raw.antt =====
-- The echo request that `main` of raw/main.c builds and sends. The addresses are the results of
-- inet_addr, four bytes each.
pub mod Laws
pub mod Program
use iteso_codigos.Common.{ℕ, Option, none, some, List, [], ◌∷◌, ◌++◌, length, replicate}
use iteso_codigos.Common.Text.{Bytes}
use iteso_codigos.Packet.Word.{htons, store16}
use iteso_codigos.Packet.Checksum.{csum}
use iteso_codigos.Packet.Checksum.Laws.{with_field}

-- sizeof(struct ip_hd) + sizeof(struct icmp_hd) + 64
abbrev pub total_length : ℕ
total_length = 92

-- The IP header up to its field `check`: version 4 and ihl 5 share the first byte.
unfoldable pub ip_head : Bytes
ip_head =
    (69 ∷ 0 ∷ []) ++ (store16 (htons total_length) ++ (store16 (htons 1) ++ (0 ∷ 0 ∷ 10 ∷ 1 ∷ [])))

-- What follows the field `checksum` of the ICMP message.
unfoldable pub icmp_tail : Bytes
icmp_tail = store16 (htons 10) ++ (store16 (htons 20) ++ replicate 64 b'A')

unfoldable pub ip_header : Bytes → Bytes → ℕ → Bytes
ip_header saddr daddr check = with_field ip_head (store16 check) (saddr ++ daddr)

unfoldable pub icmp_message : ℕ → Bytes
icmp_message checksum = with_field (8 ∷ 0 ∷ []) (store16 checksum) icmp_tail

-- Both sums are computed in the buffer whose two fields are zero.
unfoldable pub build_packet : Bytes → Bytes → Option Bytes
build_packet saddr daddr = elim (csum (ip_header saddr daddr 0 ++ icmp_message 0) 20) [
  | none ↦ none
  | some check ↦ elim (csum (icmp_message 0) 72) [
    | none ↦ none
    | some checksum ↦ some (ip_header saddr daddr check ++ icmp_message checksum)
  ]
]
