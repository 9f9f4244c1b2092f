-- ===== src/H2.antt =====
-- H2Proto.h: the frames and streams of an HTTP/2 connection.
pub mod Frame
pub mod Streams
pub mod Exec
pub mod Data
pub mod Headers
pub mod Settings
pub mod Control
pub mod Proto
pub mod Steps
