-- ===== src/Command.antt =====
-- src/command.cc: sending a command, and going on to the next row or result.
pub mod Send
pub mod SendLaws
