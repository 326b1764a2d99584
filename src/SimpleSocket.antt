-- ===== src/SimpleSocket.antt =====
-- The exercises in simple_socket: the echo server, and the server and client of a greeting.
pub mod EchoServer
pub mod Hello
pub mod Memory
