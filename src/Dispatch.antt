-- ===== src/Dispatch.antt =====
-- src/proto/dispatch.c: a request line, its command, its parameters, its response.
pub mod Params
pub mod Frame
pub mod Handler
pub mod Daemon
pub mod Devices
pub mod Calls
pub mod Messages
pub mod Line
mod Tests
