-- ===== src/FileStream.antt =====
-- file_transfer: a program that sends one file over a connection, and receives it.
pub mod Copy
pub mod Program
pub mod Arguments
pub mod Start
mod Tests
