-- ===== src/Fido.antt =====
-- internal/fido: the FidoNet parts of the server.
pub mod Address
pub mod Merge
pub mod Nodelist
pub mod Routes
pub mod Strings
pub mod Uuencode
pub mod Packet
mod Samples
