-- ===== src/Pool.antt =====
-- src/pool.cc: connections that share an event loop and a callback.
pub mod Connections
pub mod IdLaws
