-- ===== src/Networking.antt =====
-- networking/: the wire protocol.
pub mod Ring
pub mod Crc
pub mod Protocol
pub mod Udp
mod Tests
