-- ===== src/Sniffer/LinuxRaw/Capture/Reports.antt =====
-- What the Linux sniffer reports of a series of packets.
use iteso_codigos.Common.{
  ℕ, zero, suc, ◌+◌, ◌^◌, ◌≤◌, ◌<◌, ◌≡◌, refl, ap, ◌∙◌, none, some, List, [], ◌∷◌, ◌++◌,
  append_assoc, map, length, length-append, drop, arith,
}
use iteso_codigos.Common.Text.{Bytes}
use iteso_codigos.Common.Run.{done}
use iteso_codigos.Device.{Device}
use iteso_codigos.Packet.Dump.Rows.{rows_from}
use iteso_codigos.Sniffer.Headers.{Ethernet, Ip, Layer4, Report, decode_ethernet, decode_ip}
use iteso_codigos.Sniffer.LinuxRaw.{decode_layer4, process_packet}
use iteso_codigos.Sniffer.LinuxRaw.Laws.{process_packet-layers}
use iteso_codigos.Sniffer.LinuxRaw.Capture.{buffer_size, receive_packets, capture}

-- A packet of three headers that are as long as they say, and a body.
pub record Layers : Type 0 where
  pub eth : Bytes
  pub iph : Bytes
  pub seg : Bytes
  pub body : Bytes
  pub ethernet : Ethernet
  pub ip : Ip
  pub layer4 : Layer4
  pub eth_size : length eth ≡ 14
  pub eth_decodes : decode_ethernet eth ≡ some (ethernet, length eth)
  pub ip_size : 20 ≤ length iph
  pub ip_decodes : decode_ip iph ≡ some (ip, length iph)
  pub seg_decodes : decode_layer4 (ip.protocol) seg ≡ some (layer4, length seg)
  pub fits : length eth + length iph + length seg + length body < 2 ^ 32

abbrev pub bytes_of : Layers → Bytes
bytes_of p = p.eth ++ (p.iph ++ (p.seg ++ p.body))

-- Each header decoded from its own bytes, and the rows of the body.
abbrev pub report_of : Layers → Report
report_of p = record {
  ethernet = p.ethernet;
  ip = p.ip;
  layer4 = p.layer4;
  payload = rows_from [] p.body;
}

-- The socket gives these packets, and then fails.
abbrev pub Captures : (D : Device) → D.State → List Layers → Type 0
Captures D s [] = (D.read s buffer_size).0 ≡ none
Captures D s (p ∷ ps) =
    ((D.read s buffer_size).0 ≡ some (bytes_of p)) × Captures D (D.read s buffer_size).1 ps

four_parts :
    (a b c d rest : Bytes) → (a ++ (b ++ (c ++ d))) ++ rest ≡ a ++ (b ++ (c ++ (d ++ rest)))
four_parts a b c d rest = simp append_assoc

size_of :
    (a b c d : Bytes) → length (a ++ (b ++ (c ++ d))) ≡ length a + length b + length c + length d
size_of a b c d =
    omega (arith, length-append a (b ++ (c ++ d)), length-append b (c ++ d), length-append c d)

process_packet-report_of :
    (p : Layers) (stale : Bytes)
    → process_packet (bytes_of p ++ stale) (length (bytes_of p)) ≡ some (report_of p)
process_packet-report_of p stale =
    let size = size_of p.eth p.iph p.seg p.body in
    ap (λ (b : Bytes). process_packet b (length (bytes_of p)))
      (four_parts p.eth p.iph p.seg p.body stale)
    ∙ process_packet-layers p.eth p.iph p.seg p.body stale p.ethernet p.ip p.layer4
        (length (bytes_of p)) p.eth_size p.eth_decodes p.ip_size p.ip_decodes p.seg_decodes size
        (omega (arith, p.fits, size))

module _ (D : Device) where
  receive_step :
      (rounds : ℕ) (buffer b : Bytes) (s : D.State) (r : Report) (rest : List Report)
      → (D.read s buffer_size).0 ≡ some b
      → process_packet (b ++ drop (length b) buffer) (length b) ≡ some r
      → receive_packets D rounds (b ++ drop (length b) buffer) (D.read s buffer_size).1 ≡ done rest
      → receive_packets D (suc rounds) buffer s ≡ done (r ∷ rest)
  unfolding receive_packets
  receive_step rounds buffer b s r rest got decoded more =
      rw (got, receive_packets) (rw (decoded, receive_packets) (rw more refl))

  receive_end :
      (rounds : ℕ) (buffer : Bytes) (s : D.State)
      → (D.read s buffer_size).0 ≡ none
      → receive_packets D (suc rounds) buffer s ≡ done []
  unfolding receive_packets
  receive_end rounds buffer s got = rw (got, receive_packets) refl

  receive_packets-report_of :
      (ps : List Layers) (rounds : ℕ) (buffer : Bytes) (s : D.State)
      → Captures D s ps
      → length ps < rounds
      → receive_packets D rounds buffer s ≡ done (map report_of ps)
  receive_packets-report_of ps zero buffer s captures enough = absurd (omega arith)
  receive_packets-report_of [] (suc rounds) buffer s fails enough =
      receive_end rounds buffer s fails
  receive_packets-report_of (p ∷ ps) (suc rounds) buffer s (got, later) enough =
      let b = bytes_of p in
      receive_step rounds buffer b s (report_of p) (map report_of ps) got
        (process_packet-report_of p (drop (length b) buffer))
        (receive_packets-report_of ps rounds (b ++ drop (length b) buffer) (D.read s buffer_size).1
          later (omega arith))

  -- Started with an interface, on a socket that gives packets whose headers are as long as they say and
  -- then fails, with more rounds than packets: the sniffer ends with one report for each packet, in
  -- order, of that packet alone, whatever its buffer held before and whatever earlier packets left in
  -- it.
  pub capture-report_of :
      (ps : List Layers) (rounds : ℕ) (memory interface : Bytes) (args : List Bytes) (s : D.State)
      → Captures D s ps
      → length ps < rounds
      → capture D rounds memory (interface ∷ args) (some s) ≡ done (some (map report_of ps))
  unfolding capture
  capture-report_of ps rounds memory interface args s captures enough =
      rw (receive_packets-report_of ps rounds memory s captures enough) refl
