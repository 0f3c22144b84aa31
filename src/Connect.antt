-- ===== src/Connect.antt =====
-- src/connect.cc and src/error.cc: the handshake, connecting, the poll and the errors.
pub mod Scramble
pub mod ScrambleLaws
pub mod Handshake
pub mod HandshakeLaws
pub mod Errors
pub mod Callback
pub mod Open
pub mod Poll
pub mod PollLaws
pub mod Create
