-- ===== src/Libc.antt =====
-- The functions of the C library that the programs call on strings, as far as they use them.
pub mod Search
pub mod Number
pub mod Array
