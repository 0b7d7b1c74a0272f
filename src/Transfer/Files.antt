-- ===== src/Transfer/Files.antt =====
-- internal/transfer/zmodem.go: `SendFile` and `ReceiveFile`. The peer is the bytes that it sends;
-- writes to it, and to the disk, succeed. A file on the disk is the bytes that it holds.
pub mod Base
pub mod Send
pub mod Receive
mod Names
mod Cases
mod Chunks
pub mod Session
pub mod Delivery
pub mod Safety
pub mod Ending
pub mod Empty
