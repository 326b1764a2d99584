-- ===== src/Sniffer/Pcap.antt =====
-- `got_packet` of Sniffer/pcap_clase.c, which takes every packet as TCP over IP.
pub mod Laws
pub mod Capture
use iteso_codigos.Common.{ℕ, ◌+◌, Option, none, some, List, drop}
use iteso_codigos.Common.Text.{Bytes}
use iteso_codigos.Packet.Dump.{dump}
use iteso_codigos.Sniffer.Headers.{
  Layer4, Report, decode_ethernet, decode_ip, decode_tcp, tcp, rest_length, ◌>>=◌,
}

-- `packet` is the whole block of memory that libpcap hands over, and `len` the field of its header.
unfoldable pub got_packet : Bytes → ℕ → Option Report
got_packet packet len = do
  e ← decode_ethernet packet
  i ← decode_ip (drop e.1 packet)
  t ← decode_tcp (drop (e.1 + i.1) packet)
  text ← dump (drop (e.1 + i.1 + t.1) packet) (rest_length len (e.1 + i.1 + t.1))
  some (record { ethernet = e.0; ip = i.0; layer4 = tcp t.0; payload = text })
