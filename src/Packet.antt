-- ===== src/Packet.antt =====
-- Packets as bytes: raw/main.c, Sniffer/pcap_clase.c and Sniffer/linux_raw/main.c.
pub mod Word
pub mod Checksum
pub mod Dump
pub mod Raw
mod Tests
