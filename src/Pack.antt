-- ===== src/Pack.antt =====
-- src/pack.cc and src/pack_macros.h: integers, lengths, dates and times on the wire.
pub mod Ints
pub mod IntLaws
pub mod Length
pub mod LengthLaws
pub mod DateTime
pub mod DateTimeLaws
pub mod DateTimeRoundTrip
pub mod TimeRoundTrip
