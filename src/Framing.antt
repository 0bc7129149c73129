-- ===== src/Framing.antt =====
-- src/proto/framing.c: newline-delimited JSON over a connected socket.
pub mod Buffer
pub mod Compact
pub mod Send
