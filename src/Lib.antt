-- ===== src/Lib.antt =====
-- Verification of the network programs of this repository, written in C for a course: a file
-- server with its clients, an older program that streams one file, a ping over TCP, small
-- servers over TCP and UDP, a listener for broadcasts, a sender of hand-made ICMP packets
-- and two packet sniffers.
--
-- The parts, from the repository's root, and the modules that model them:
--
-- In FileTransfer_Proyecto/server.c and client.c: module FileTransfer. `sendLine` and the inner
-- write loop of `doGet` are FileTransfer.Send; the loop that reads up to an empty line, which the
-- two programs share, is FileTransfer.Receive; `start_protocol`, `doGet` and `doList` of the
-- server are FileTransfer.Server, refined to the replies of FileTransfer.Server.Spec;
-- `start_protocol`, `doGet` and `get_list` of the client are FileTransfer.Client.
-- FileTransfer.Transfer puts the two sessions together, with a file and without, and
-- FileTransfer.Program adds `start_client` and the connection of `get_list`. `start_server`, which
-- accepts connections and forks, is FileTransfer.Daemon: a step relation on the processes, in
-- which the system chooses who moves and which calls fail.
-- In FileTransfer_Proyecto/main_server.c, main_client.c and main_list.c: `processArguments` of the
-- three programs is FileTransfer.Arguments, and their `main` FileTransfer.Main.
-- In FileTransfer_Proyecto/netlib/tcp.c: all but `closeTCPSocket` is Netlib, over the calls of the
-- system (`Network`), which are a parameter; `closeTCPSocket` is `close` of FileTransfer.Daemon.
-- In tcp_ping/ping.c and tcp_ping/tcp_ping.c: `PingListen` is TcpPing, `pingSend` is TcpPing.Send,
-- and `processArguments` is TcpPing.Arguments. In tcp_ping/client.c and tcp_ping/server.c: the
-- loops around them are TcpPing.Program, and `start` of tcp_ping.c is TcpPing.Start. The loop of
-- the server does not end, so it is run for a number of rounds.
-- In file_transfer/server.c, client.c and file_transfer.c: the two copy loops are FileStream.Copy,
-- `start_server` and `start_client` FileStream.Program, `processArguments` FileStream.Arguments
-- and `start` FileStream.Start.
-- In simple_socket/echo_server.c and simple_hello.c: the two `main` are SimpleSocket.EchoServer
-- and SimpleSocket.Hello.
-- In UDP_FileTransfer/server.c: `main` is UdpFileTransfer, and that of client.c is
-- UdpFileTransfer.Client (its lines end in carriage returns only); UdpFileTransfer.Transfer puts
-- the two together. The memory of the counters that the code does not set is a parameter.
-- In bdcast/listen.c: `main` is Bdcast.
-- In raw/main.c: `csum` is Packet.Checksum, `dump` is Packet.Dump, the packet that `main` builds
-- is Packet.Raw, and `main` around it is Packet.Raw.Program.
-- In Sniffer/pcap_clase.c and Sniffer/linux_raw/main.c: the decoders of both are Sniffer.Headers,
-- and `got_packet` and `processPacket` are Sniffer.Pcap and Sniffer.LinuxRaw, and the two `main`
-- are Sniffer.Pcap.Capture, over libpcap, and Sniffer.LinuxRaw.Capture.
--
-- Sockets and files are the system's, so they are a parameter: a `Device` (Device.antt) has a
-- state, a `read` of at most so many bytes and a `write` of a block, each of which may move fewer
-- bytes or fail. Its laws say that `read` returns the next pending bytes, and that `write` appends
-- a prefix of the block to what was sent. A theorem on a run that ends also takes the device to be
-- reliable: reads do not fail, and a write of a block that is not empty moves a byte at least.
-- Device.Memory is an instance that moves a fixed number of bytes in a call. `FileSystem`
-- (FileTransfer.Files) is the part of the file system that the server uses.
--
-- A run has the type `Run` (Common.Run): `done`, or `fault` for undefined behaviour of C that the
-- code reaches (a null pointer, a write outside of a block), or `unfinished` when the fuel is used
-- up. The loops of the protocol go on until the other side does something, so they are written on
-- fuel: one unit for a round of the loop. The theorems on runs that end ask for fuel above the
-- number of bytes that are moved, or above the number of requests, and prove that the result is
-- `done`. A loop that never ends is `unfinished` for every fuel.
--
-- Machine integers are native naturals with the wrap-around written out: the positions of
-- the write loops are `u_int` (modulo 2^32), the total of the client is an `unsigned long`
-- (modulo 2^64), and -1 as a `u_int` is 2^32 - 1. The loops of file_transfer and of the UDP
-- programs count in `int`: there a position below 0 or a sum above the range is a fault, and
-- totals that the code does not set, of the client of file_transfer and of the UDP programs,
-- are kept plus 2^31. Bytes in memory are numbers below 256, words are little-endian.
--
-- Libc has the functions of the C library that the programs use: strtok, strsep, strstr,
-- strtol and printing with %u. A text that fills its array has no zero behind it
-- (Libc.Array): file_transfer and tcp_ping keep up to 18 bytes of an address in
-- 18 bytes, and reading such an address as a string is a fault.
--
-- Memory that the code reads and has not written is a parameter: the four bytes in front of a
-- string (`front`), which the test for the empty line reads while the string is short, and what a
-- block from malloc or a counter of the UDP programs and of the client of file_transfer holds
-- (`stale`).
--
-- What stands behind a descriptor is a parameter (`connection`), and so is what the clock gives
-- (`Clock`). The calls that open sockets are a `Network` (Netlib.antt), and those of libpcap a
-- `Libpcap`. A socket for datagrams is a `Device` too, whose calls move whole datagrams (`IsUdp`),
-- and a peer that waits for each answer is described by `IsLockstep`.
--
-- Not modelled: debug output, the help texts, and the timing that only feeds them; and the
-- closing of sockets and files, but for the descriptors of FileTransfer.Daemon: a connection
-- that is closed is not used again. bdcast/sender.c is not modelled because it does not
-- compile. tcp_ping/netlib, file_transfer/netlib and file_transfer/ping.c are copies of
-- files that are modelled.
pub mod Bdcast
pub mod Common
pub mod Device
pub mod FileStream
pub mod FileTransfer
pub mod Libc
pub mod Netlib
pub mod Packet
pub mod SimpleSocket
pub mod Sniffer
pub mod TcpPing
pub mod UdpFileTransfer
