-- ===== src/Sniffer/Pcap/Capture.antt =====
-- `main` of Sniffer/pcap_clase.c, over the calls of libpcap.
pub mod Reports
use iteso_codigos.Common.{ℕ, Bool, Option, none, some, List, [], ◌∷◌, if◌then◌else◌}
use iteso_codigos.Common.Text.{Bytes, codes}
use iteso_codigos.Common.Run.{Run, done, fault, ◌>>=◌}
use iteso_codigos.Sniffer.Headers.{Report}
use iteso_codigos.Sniffer.Pcap.{got_packet}

-- libpcap: the calls that `main` makes, and the packets that `pcap_loop` hands to its callback, each the
-- memory of a packet and the field `len` of its header, until the loop ends.
pub record Libpcap : Type 1 where
  pub Handle : Type 0
  pub Program : Type 0
  pub lookupdev : Option Bytes
  pub open_live : Bytes → Option Handle
  pub compile : Handle → Bytes → Option Program
  pub setfilter : Handle → Program → Bool
  pub packets : Handle → Option Program → List (Bytes × ℕ)

-- The program ends by `pcap_fatal`, which names the call that failed, or behind the loop.
pub data Outcome : Type 0 where
  pcap_fatal : Bytes → Outcome
  captured : List Report → Outcome

-- The callback at each packet. A decoder or a dump that leaves the memory of the packet is a fault.
unfoldable pub got_packets : List (Bytes × ℕ) → Run (List Report)
got_packets [] = done []
got_packets (p ∷ ps) =
    let rest = got_packets ps in
    elim (got_packet p.0 p.1) [ none ↦ fault | some r ↦ do rs ← rest; done (r ∷ rs) ]

module _ (P : Libpcap) where
  unfoldable pub loop : P.Handle → Option P.Program → Run Outcome
  loop handle program = do reports ← got_packets (P.packets handle program); done (captured reports)

  unfoldable pub set_filter : P.Handle → List Bytes → Run Outcome
  set_filter handle [] = loop handle none
  set_filter handle (filter ∷ args) = elim (P.compile handle filter) [
    | none ↦ done (pcap_fatal (codes "pcap_compile"))
    | some program ↦
        let sniff = loop handle (some program) in
        if P.setfilter handle program then sniff else done (pcap_fatal (codes "pcap_setfilter"))
  ]

  unfoldable pub open_device : Bytes → List Bytes → Run Outcome
  open_device device filters = elim (P.open_live device) [
    | none ↦ done (pcap_fatal (codes "pcap_open_live"))
    | some handle ↦ set_filter handle filters
  ]

  -- The arguments behind the name of the program: a device and a filter.
  unfoldable pub main : List Bytes → Run Outcome
  main [] = elim (P.lookupdev) [
    | none ↦ done (pcap_fatal (codes "pcap_lookupdev"))
    | some device ↦ open_device device []
  ]
  main (device ∷ filters) = open_device device filters
