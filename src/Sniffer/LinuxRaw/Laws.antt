-- ===== src/Sniffer/LinuxRaw/Laws.antt =====
-- What process_packet reports of a packet that holds its headers, and of one that does not.
use iteso_codigos.Common.{
  ℕ, ◌+◌, ◌^◌, ◌≤◌, ◌<◌, ◌≡◌, refl, ap, ap₂, ◌∙◌, Option, none, some, [], ◌++◌, Bool, true, false,
  if◌then◌else◌, ◌==◌, length, length-drop, drop, drop-append, arith,
}
use iteso_codigos.Common.Text.{Bytes}
use iteso_codigos.Packet.Dump.{dump}
use iteso_codigos.Packet.Dump.Rows.{rows_from}
use iteso_codigos.Packet.Dump.Bounds.{dump_within, dump_beyond}
use iteso_codigos.Sniffer.Headers.{
  Ethernet, Ip, Layer4, icmp, tcp, rest_length, ◌>>=◌, decode_ethernet, decode_ip, decode_icmp,
  decode_tcp,
}
use iteso_codigos.Sniffer.Headers.Prefix.{
  decode_ethernet_within, decode_ip_within, decode_icmp_extends, decode_tcp_extends,
}
use iteso_codigos.Sniffer.Layers.{drop_twice, drop_thrice, rest_of}
use iteso_codigos.Sniffer.LinuxRaw.{decode_layer4, process_packet}

-- The steps of process_packet, with the results of the decoders given.
process_packet_steps :
    (buffer : Bytes) (size a b c : ℕ) (e : Ethernet) (i : Ip) (l : Layer4) (r : Option Bytes)
    → decode_ethernet buffer ≡ some (e, a)
    → decode_ip (drop a buffer) ≡ some (i, b)
    → decode_layer4 (i.protocol) (drop (a + b) buffer) ≡ some (l, c)
    → dump (drop (a + b + c) buffer) (rest_length size (a + b + c)) ≡ r
    → process_packet buffer size
      ≡ r >>= (λ text. some (record { ethernet = e; ip = i; layer4 = l; payload = text }))
unfolding process_packet
process_packet_steps buffer size a b c e i l r p q s t = rw (p, q, s, t) refl

then_some :
    {A B : Type 0} (x y : Option A) (f : A → B) (r : B)
    → ((a : A) → x ≡ some a → y ≡ some a)
    → (x >>= (λ a. some (f a))) ≡ some r
    → (y >>= (λ a. some (f a))) ≡ some r
then_some none y f r extend e = absurd (cc e)
then_some (some a) y f r extend e = rw (extend a refl) e

if_extends :
    {A : Type 0} (b : Bool) (x x' y y' : Option A) (r : A)
    → (x ≡ some r → x' ≡ some r)
    → (y ≡ some r → y' ≡ some r)
    → (if b then x else y) ≡ some r
    → (if b then x' else y') ≡ some r
if_extends true x x' y y' r f g = f
if_extends false x x' y y' r f g = g

decode_layer4_extends :
    (protocol : ℕ) (h more : Bytes) (r : Layer4 × ℕ)
    → decode_layer4 protocol h ≡ some r
    → decode_layer4 protocol (h ++ more) ≡ some r
unfolding decode_layer4
decode_layer4_extends protocol h more r =
    if_extends (protocol == 1) _ _ _ _ r
      (then_some (decode_icmp h) (decode_icmp (h ++ more)) (λ d. (icmp d.0, d.1)) r
        (λ d k. decode_icmp_extends h more d k))
      (if_extends (protocol == 6) _ _ _ _ r
        (then_some (decode_tcp h) (decode_tcp (h ++ more)) (λ d. (tcp d.0, d.1)) r
          (λ d k. decode_tcp_extends h more d k))
        (λ e. e))

-- A packet of an Ethernet header of 14 bytes, an IP header as long as it says, a header of layer 4
-- that is as long as it says, and a body: whatever stands in the buffer behind the packet, the
-- report shows the values of each header, decoded from that header alone, and the rows of the body.
pub process_packet-layers :
    (eth iph seg body stale : Bytes) (e : Ethernet) (i : Ip) (l : Layer4) (size : ℕ)
    → length eth ≡ 14
    → decode_ethernet eth ≡ some (e, length eth)
    → 20 ≤ length iph
    → decode_ip iph ≡ some (i, length iph)
    → decode_layer4 (i.protocol) seg ≡ some (l, length seg)
    → size ≡ length eth + length iph + length seg + length body
    → size < 2 ^ 32
    → process_packet (eth ++ (iph ++ (seg ++ (body ++ stale)))) size
      ≡ some (record { ethernet = e; ip = i; layer4 = l; payload = rows_from [] body })
process_packet-layers eth iph seg body stale e i l size w p long q s total fits =
    process_packet_steps (eth ++ (iph ++ (seg ++ (body ++ stale)))) size (length eth) (length iph)
      (length seg) e i l (some (rows_from [] body)) (decode_ethernet_within eth _ (omega arith) ∙ p)
      (ap decode_ip (drop-append eth (iph ++ (seg ++ (body ++ stale))))
        ∙ decode_ip_within iph (seg ++ (body ++ stale)) long
        ∙ q)
      (ap (decode_layer4 (i.protocol)) (drop_twice eth iph (seg ++ (body ++ stale)))
        ∙ decode_layer4_extends (i.protocol) seg (body ++ stale) (l, length seg) s)
      (ap₂ dump (drop_thrice eth iph seg (body ++ stale))
          (rest_of body size (length eth + length iph + length seg) total fits)
        ∙ dump_within body stale)

-- A packet that is shorter than its headers say: the length of the rest wraps around, and the dump
-- runs past the end of the buffer, which holds less than 2^31 bytes.
pub process_packet_short :
    (buffer : Bytes) (size a b c : ℕ) (e : Ethernet) (i : Ip) (l : Layer4)
    → decode_ethernet buffer ≡ some (e, a)
    → decode_ip (drop a buffer) ≡ some (i, b)
    → decode_layer4 (i.protocol) (drop (a + b) buffer) ≡ some (l, c)
    → size < a + b + c
    → a + b + c < 2 ^ 31
    → length buffer < 2 ^ 31
    → process_packet buffer size ≡ none
process_packet_short buffer size a b c e i l p q s short far fits =
    process_packet_steps buffer size a b c e i l none p q s (
      dump_beyond (drop (a + b + c) buffer) (rest_length size (a + b + c))
        (omega (arith, length-drop (a + b + c) buffer)))
