-- ===== src/Sniffer/LinuxRaw.antt =====
-- `processPacket` of Sniffer/linux_raw/main.c.
pub mod Laws
pub mod Capture
use iteso_codigos.Common.{
  ℕ, ◌+◌, ◌-◌, ◌%◌, ◌^◌, Option, none, some, List, [], ◌∷◌, if◌then◌else◌, ◌==◌, drop,
}
use iteso_codigos.Common.Text.{Bytes}
use iteso_codigos.Packet.Dump.{dump}
use iteso_codigos.Sniffer.Headers.{
  Layer4, Report, icmp, tcp, udp, unknown, rest_length, ◌>>=◌, decode_ethernet, decode_ip,
  decode_tcp, decode_icmp,
}

unfoldable pub decode_layer4 : ℕ → Bytes → Option (Layer4 × ℕ)
decode_layer4 protocol h =
    if protocol == 1
    then (do r ← decode_icmp h; some (icmp r.0, r.1))
    else if protocol == 6
    then (do r ← decode_tcp h; some (tcp r.0, r.1))
    else if protocol == 17
    then some (udp, 0)
    else some (unknown protocol, 0)

-- `buffer` is the whole block of memory, of which the packet is the first `size` bytes.
unfoldable pub process_packet : Bytes → ℕ → Option Report
process_packet buffer size = do
  e ← decode_ethernet buffer
  i ← decode_ip (drop e.1 buffer)
  l ← decode_layer4 (i.0.protocol) (drop (e.1 + i.1) buffer)
  text ← dump (drop (e.1 + i.1 + l.1) buffer) (rest_length size (e.1 + i.1 + l.1))
  some (record { ethernet = e.0; ip = i.0; layer4 = l.0; payload = text })
