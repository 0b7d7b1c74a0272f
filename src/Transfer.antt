-- ===== src/Transfer.antt =====
-- internal/transfer/zmodem.go: the ZMODEM protocol, by which files are sent and received.
pub mod Crc
pub mod Frames
pub mod Reader
pub mod Scan
pub mod Subpackets
pub mod Headers
pub mod LineFeed
pub mod Total
pub mod Files
mod Samples
