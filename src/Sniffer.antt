-- ===== src/Sniffer.antt =====
-- The two sniffers, Sniffer/pcap_clase.c and Sniffer/linux_raw/main.c.
pub mod Headers
pub mod LinuxRaw
pub mod Layers
pub mod Pcap
mod Tests
