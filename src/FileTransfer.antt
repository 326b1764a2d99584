-- ===== src/FileTransfer.antt =====
-- FileTransfer_Proyecto: a file server and its clients, which speak a line protocol over TCP.
pub mod Send
pub mod Receive
pub mod Files
pub mod Server
pub mod Client
pub mod Transfer
pub mod Program
pub mod Arguments
pub mod Daemon
pub mod Main
mod Tests
