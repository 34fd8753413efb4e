-- ===== src/Client.antt =====
-- client/libpmlab.c, the client library.
pub mod Read
pub mod Untrusted
pub mod Channels
pub mod RoundTrip
pub mod Choice
pub mod Connect
pub mod Main
