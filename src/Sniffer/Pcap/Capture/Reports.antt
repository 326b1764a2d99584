-- ===== src/Sniffer/Pcap/Capture/Reports.antt =====
-- What the pcap sniffer reports of the packets that libpcap hands over.
use iteso_codigos.Common.{
  ℕ, ◌+◌, ◌^◌, ◌≤◌, ◌<◌, ◌≡◌, refl, true, Option, some, List, [], ◌∷◌, ◌++◌, map, length,
}
use iteso_codigos.Common.Text.{Bytes}
use iteso_codigos.Common.Run.{done}
use iteso_codigos.Packet.Dump.Rows.{rows_from}
use iteso_codigos.Sniffer.Headers.{
  Ethernet, Ip, Tcp, tcp, Report, decode_ethernet, decode_ip, decode_tcp,
}
use iteso_codigos.Sniffer.Pcap.{got_packet}
use iteso_codigos.Sniffer.Pcap.Laws.{got_packet-layers}
use iteso_codigos.Sniffer.Pcap.Capture.{
  Libpcap, captured, got_packets, loop, set_filter, open_device, main,
}

-- A TCP packet whose headers are as long as they say, captured whole, and what libpcap's memory holds
-- behind it.
pub record Segment : Type 0 where
  pub eth : Bytes
  pub iph : Bytes
  pub seg : Bytes
  pub body : Bytes
  pub stale : Bytes
  pub ethernet : Ethernet
  pub ip : Ip
  pub fields : Tcp
  pub eth_size : length eth ≡ 14
  pub eth_decodes : decode_ethernet eth ≡ some (ethernet, length eth)
  pub ip_size : 20 ≤ length iph
  pub ip_decodes : decode_ip iph ≡ some (ip, length iph)
  pub seg_decodes : decode_tcp seg ≡ some (fields, length seg)
  pub fits : length eth + length iph + length seg + length body < 2 ^ 32

abbrev pub handed : Segment → Bytes × ℕ
handed p = (
  p.eth ++ (p.iph ++ (p.seg ++ (p.body ++ p.stale))),
  length p.eth + length p.iph + length p.seg + length p.body,
)

-- Each header decoded from its own bytes, and the rows of the body.
abbrev pub report_of : Segment → Report
report_of p = record {
  ethernet = p.ethernet;
  ip = p.ip;
  layer4 = tcp p.fields;
  payload = rows_from [] p.body;
}

got_packets_step :
    (p : Bytes × ℕ) (ps : List (Bytes × ℕ)) (r : Report) (rs : List Report)
    → got_packet p.0 p.1 ≡ some r
    → got_packets ps ≡ done rs
    → got_packets (p ∷ ps) ≡ done (r ∷ rs)
unfolding got_packets
got_packets_step p ps r rs decoded rest = rw (decoded, got_packets) (rw rest refl)

got_packets-report_of : (ps : List Segment) → got_packets (map handed ps) ≡ done (map report_of ps)
unfolding got_packets
got_packets-report_of [] = refl
got_packets-report_of (p ∷ ps) =
    got_packets_step (handed p) (map handed ps) (report_of p) (map report_of ps)
      (got_packet-layers p.eth p.iph p.seg p.body p.stale p.ethernet p.ip p.fields
        (length p.eth + length p.iph + length p.seg + length p.body) p.eth_size p.eth_decodes
        p.ip_size p.ip_decodes p.seg_decodes refl p.fits)
      (got_packets-report_of ps)

module _ (P : Libpcap) where
  loop_steps :
      (handle : P.Handle) (program : Option P.Program) (ps : List Segment)
      → P.packets handle program ≡ map handed ps
      → loop P handle program ≡ done (captured (map report_of ps))
  unfolding loop
  loop_steps handle program ps e = rw e (rw (got_packets-report_of ps) refl)

  -- With a device and a filter that libpcap opens, compiles and sets: if the packets that pass the filter
  -- are TCP packets whose headers are as long as they say, captured whole, then the sniffer reports
  -- each of them, in order, from its own bytes.
  pub main-report_of :
      (device filter : Bytes) (args : List Bytes) (handle : P.Handle) (program : P.Program)
      (ps : List Segment)
      → P.open_live device ≡ some handle
      → P.compile handle filter ≡ some program
      → P.setfilter handle program ≡ true
      → P.packets handle (some program) ≡ map handed ps
      → main P (device ∷ filter ∷ args) ≡ done (captured (map report_of ps))
  unfolding main open_device set_filter
  main-report_of device filter args handle program ps opened compiled set e =
      rw (opened, open_device)
        (rw (compiled, set_filter) (rw (set, loop_steps handle (some program) ps e) refl))
