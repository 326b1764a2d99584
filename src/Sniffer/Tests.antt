-- ===== src/Sniffer/Tests.antt =====
-- The sniffers at a ping and at a TCP packet.
use iteso_codigos.Common.{ℕ, ◌≡◌, refl, true, none, some, List, [], ◌∷◌, ◌++◌, replicate, arith}
use iteso_codigos.Common.Text.{Bytes, codes}
use iteso_codigos.Packet.Word.{htons}
use iteso_codigos.Sniffer.Headers.{
  Ethernet, Ip, Tcp, icmp, tcp, echo_request, decode_ethernet, decode_ip, decode_tcp, decode_icmp,
  echo_of,
}
use iteso_codigos.Device.{Device}
use iteso_codigos.Common.Run.{done}
use iteso_codigos.Sniffer.LinuxRaw
use iteso_codigos.Sniffer.LinuxRaw.Capture.{capture}
use iteso_codigos.Sniffer.LinuxRaw.Capture.Reports.{Layers, bytes_of, capture-report_of}
use iteso_codigos.Sniffer.Pcap
use iteso_codigos.Sniffer.Pcap.Capture.{Libpcap, pcap_fatal, captured, main}
use iteso_codigos.Sniffer.Pcap.Capture.Reports.{Segment, handed, main-report_of}
use iteso_codigos.Sniffer.LinuxRaw.{decode_layer4, process_packet}
use iteso_codigos.Sniffer.LinuxRaw.Laws.{process_packet_short}
use iteso_codigos.Sniffer.Pcap.{got_packet}
use iteso_codigos.Sniffer.Pcap.Laws.{got_packet_cut}

abbrev eth : Bytes
eth = replicate 6 1 ++ (replicate 6 2 ++ (8 ∷ 0 ∷ []))

-- An IP header of 20 bytes with this protocol.
abbrev iph : ℕ → Bytes
iph protocol =
    69 ∷ 0 ∷ 0 ∷ 30 ∷ 0 ∷ 7 ∷ 0 ∷ 0 ∷ 64 ∷ protocol ∷ 0 ∷ 0 ∷ 10 ∷ 0 ∷ 0 ∷ 1 ∷ 10 ∷ 0 ∷ 0 ∷ 2 ∷ []

abbrev ping : Bytes
ping = 8 ∷ 0 ∷ 0 ∷ 0 ∷ 0 ∷ 1 ∷ 0 ∷ 2 ∷ []

abbrev segment : Bytes
segment = 0 ∷ 80 ∷ 31 ∷ 144 ∷ 0 ∷ 1 ∷ 0 ∷ 5 ∷ 0 ∷ 0 ∷ 0 ∷ 9 ∷ 80 ∷ 24 ∷ 0 ∷ 0 ∷ 0 ∷ 0 ∷ 0 ∷ 0 ∷ []

abbrev eth_report : Ethernet
eth_report = record { src = replicate 6 2; dst = replicate 6 1; kind = (8, 0) }

abbrev ip_report : ℕ → Ip
ip_report p = record {
  version = 4;
  saddr = 10 ∷ 0 ∷ 0 ∷ 1 ∷ [];
  daddr = 10 ∷ 0 ∷ 0 ∷ 2 ∷ [];
  id = 7;
  ttl = 64;
  protocol = p;
}

-- The sequence number 65541 is shown as 1: only its high half is.
abbrev tcp_report : Tcp
tcp_report = record { sport = 80; dport = 8080; seqn = 1; ack = 0; offset = 5 }

eth_decodes : decode_ethernet eth ≡ some (eth_report, 14)
unfolding decode_ethernet
eth_decodes = refl

iph_decodes : (p : ℕ) → decode_ip (iph p) ≡ some (ip_report p, 20)
unfolding decode_ip htons
iph_decodes p = refl

ping_decodes :
    decode_layer4 1 ping ≡ some (icmp (record { kind = 8; echo = echo_request; code = 0 }), 8)
unfolding decode_layer4 decode_icmp echo_of htons
ping_decodes = refl

segment_decodes : decode_tcp segment ≡ some (tcp_report, 20)
unfolding decode_tcp htons
segment_decodes = refl

process_packet_short_example : process_packet (eth ++ (iph 6 ++ segment)) 40 ≡ none
unfolding decode_ethernet decode_ip decode_layer4 decode_tcp htons
process_packet_short_example =
    process_packet_short (eth ++ (iph 6 ++ segment)) 40 14 20 20 eth_report (ip_report 6)
      (tcp tcp_report) refl refl refl (omega arith) (omega arith) (omega arith)

got_packet_cut_example : got_packet (eth ++ (iph 6 ++ segment)) 60 ≡ none
unfolding decode_ethernet decode_ip decode_tcp htons
got_packet_cut_example =
    got_packet_cut (eth ++ (iph 6 ++ segment)) 60 14 20 20 eth_report (ip_report 6) tcp_report refl
      refl refl (omega arith) (omega arith) (omega arith)

abbrev ping_packet : Layers
ping_packet = record {
  eth = eth;
  iph = iph 1;
  seg = ping;
  body = codes "hi";
  ethernet = eth_report;
  ip = ip_report 1;
  layer4 = icmp (record { kind = 8; echo = echo_request; code = 0 });
  eth_size = refl;
  eth_decodes = eth_decodes;
  ip_size = omega arith;
  ip_decodes = iph_decodes 1;
  seg_decodes = ping_decodes;
  fits = omega arith;
}

abbrev tcp_packet : Segment
tcp_packet = record {
  eth = eth;
  iph = iph 6;
  seg = segment;
  body = codes "hi";
  stale = codes "stale";
  ethernet = eth_report;
  ip = ip_report 6;
  fields = tcp_report;
  eth_size = refl;
  eth_decodes = eth_decodes;
  ip_size = omega arith;
  ip_decodes = iph_decodes 6;
  seg_decodes = segment_decodes;
  fits = omega arith;
}

-- A socket that gives the packets of its state, and then fails.
abbrev packets : Device
packets = record {
  State = List Bytes;
  read = λ s n. elim s [ [] ↦ (none, []) | b ∷ bs ↦ (some b, bs) ];
  write = λ s b. (none, s);
}

capture-report_of_example :
    capture packets 3
      (replicate 9 7)
      (codes "eth0" ∷ [])
      (some (bytes_of ping_packet ∷ bytes_of ping_packet ∷ []))
    ≡ done (
        some (
          LinuxRaw.Capture.Reports.report_of ping_packet
          ∷ LinuxRaw.Capture.Reports.report_of ping_packet
          ∷ []))
capture-report_of_example =
    capture-report_of packets (ping_packet ∷ ping_packet ∷ []) 3 (replicate 9 7) (codes "eth0") []
      (bytes_of ping_packet ∷ bytes_of ping_packet ∷ []) (refl, (refl, refl)) (omega arith)

abbrev one_segment : Libpcap
one_segment = record {
  Handle = Bytes;
  Program = Bytes;
  lookupdev = none;
  open_live = λ device. some device;
  compile = λ handle filter. some filter;
  setfilter = λ handle program. true;
  packets = λ handle program. handed tcp_packet ∷ [];
}

main-report_of_example :
    main one_segment (codes "eth0" ∷ codes "tcp" ∷ [])
    ≡ done (captured (Pcap.Capture.Reports.report_of tcp_packet ∷ []))
main-report_of_example =
    main-report_of one_segment (codes "eth0") (codes "tcp") [] (codes "eth0") (codes "tcp")
      (tcp_packet ∷ []) refl refl refl refl

main_no_device : main one_segment [] ≡ done (pcap_fatal (codes "pcap_lookupdev"))
unfolding main
main_no_device = refl
