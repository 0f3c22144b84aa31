-- ===== src/Buffer.antt =====
-- src/buffer.cc and src/buffer.h: the growing read and write buffers.
pub mod Ops
pub mod Room
pub mod Growth
pub mod Steps
