-- ===== src/Tls.antt =====
-- Encrypted connections: the parts of src/net.cc and src/connect.cc that are built with OpenSSL.
pub mod Ssl
pub mod Run
pub mod Read
pub mod Setup
pub mod Handshake
pub mod Kept
pub mod Loop
pub mod Laws
pub mod ReadLaws
