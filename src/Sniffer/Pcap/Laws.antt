-- ===== src/Sniffer/Pcap/Laws.antt =====
-- What got_packet reports of a TCP packet.
use iteso_codigos.Common.{
  ℕ, ◌+◌, ◌^◌, ◌≤◌, ◌<◌, ◌≡◌, refl, ap, ap₂, ◌∙◌, Option, none, some, [], ◌++◌, length, length-drop,
  drop, drop-append, arith,
}
use iteso_codigos.Common.Text.{Bytes}
use iteso_codigos.Packet.Dump.{dump}
use iteso_codigos.Packet.Dump.Rows.{rows_from}
use iteso_codigos.Packet.Dump.Bounds.{dump_within, dump_beyond}
use iteso_codigos.Sniffer.Headers.{
  Ethernet, Ip, Tcp, tcp, rest_length, ◌>>=◌, decode_ethernet, decode_ip, decode_tcp,
}
use iteso_codigos.Sniffer.Headers.Prefix.{
  decode_ethernet_within, decode_ip_within, decode_tcp_extends,
}
use iteso_codigos.Sniffer.Layers.{drop_twice, drop_thrice, rest_of}
use iteso_codigos.Sniffer.Pcap.{got_packet}

got_packet_steps :
    (packet : Bytes) (len a b c : ℕ) (e : Ethernet) (i : Ip) (t : Tcp) (r : Option Bytes)
    → decode_ethernet packet ≡ some (e, a)
    → decode_ip (drop a packet) ≡ some (i, b)
    → decode_tcp (drop (a + b) packet) ≡ some (t, c)
    → dump (drop (a + b + c) packet) (rest_length len (a + b + c)) ≡ r
    → got_packet packet len
      ≡ r >>= (λ text. some (record { ethernet = e; ip = i; layer4 = tcp t; payload = text }))
unfolding got_packet
got_packet_steps packet len a b c e i t r p q s u = rw (p, q, s, u) refl

-- A TCP packet whose headers are as long as they say, captured whole: the report shows the values of
-- each header, decoded from that header alone, and the rows of the body.
pub got_packet-layers :
    (eth iph seg body stale : Bytes) (e : Ethernet) (i : Ip) (t : Tcp) (len : ℕ)
    → length eth ≡ 14
    → decode_ethernet eth ≡ some (e, length eth)
    → 20 ≤ length iph
    → decode_ip iph ≡ some (i, length iph)
    → decode_tcp seg ≡ some (t, length seg)
    → len ≡ length eth + length iph + length seg + length body
    → len < 2 ^ 32
    → got_packet (eth ++ (iph ++ (seg ++ (body ++ stale)))) len
      ≡ some (record { ethernet = e; ip = i; layer4 = tcp t; payload = rows_from [] body })
got_packet-layers eth iph seg body stale e i t len w p long q s total fits =
    got_packet_steps (eth ++ (iph ++ (seg ++ (body ++ stale)))) len (length eth) (length iph)
      (length seg) e i t (some (rows_from [] body)) (decode_ethernet_within eth _ (omega arith) ∙ p)
      (ap decode_ip (drop-append eth (iph ++ (seg ++ (body ++ stale))))
        ∙ decode_ip_within iph (seg ++ (body ++ stale)) long
        ∙ q)
      (ap decode_tcp (drop_twice eth iph (seg ++ (body ++ stale)))
        ∙ decode_tcp_extends seg (body ++ stale) (t, length seg) s)
      (ap₂ dump (drop_thrice eth iph seg (body ++ stale))
          (rest_of body len (length eth + length iph + length seg) total fits)
        ∙ dump_within body stale)

-- A packet of which fewer bytes were captured than its header's `len` says, with all its headers
-- among them: the dump takes `len` for the length and runs past the end of what was captured.
pub got_packet_cut :
    (packet : Bytes) (len a b c : ℕ) (e : Ethernet) (i : Ip) (t : Tcp)
    → decode_ethernet packet ≡ some (e, a)
    → decode_ip (drop a packet) ≡ some (i, b)
    → decode_tcp (drop (a + b) packet) ≡ some (t, c)
    → length packet < len
    → a + b + c ≤ length packet
    → len < 2 ^ 32
    → got_packet packet len ≡ none
got_packet_cut packet len a b c e i t p q s cut whole fits =
    got_packet_steps packet len a b c e i t none p q s (
      dump_beyond (drop (a + b + c) packet) (rest_length len (a + b + c))
        (omega (arith, length-drop (a + b + c) packet)))
