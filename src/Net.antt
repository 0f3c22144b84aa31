-- ===== src/Net.antt =====
-- The packet queue, the connection and the packet handlers of src/net.cc.
pub mod Queue
pub mod QueueLaws
pub mod Connect
pub mod Response
pub mod Columns
pub mod Process
pub mod Ends
pub mod Taken
pub mod ProcessLaws
pub mod Turns
pub mod Settles
pub mod ColumnRun
pub mod Read
pub mod ReadLaws
pub mod Write
