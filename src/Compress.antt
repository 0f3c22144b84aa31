-- ===== src/Compress.antt =====
-- Compressed packets: the parts of src/net.cc, src/command.cc and src/connect.cc that are built with
-- zlib.
pub mod Zlib
pub mod Send
pub mod Receive
pub mod Frames
pub mod SendLaws
pub mod ReceiveLaws
pub mod RoundTrip
pub mod Process
pub mod Faults
pub mod Commands
pub mod SendBounds
