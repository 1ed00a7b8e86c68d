-- ===== src/Wire.antt =====
-- internal/wire
pub mod Event
pub mod Packet
pub mod Reader
pub mod Values
pub mod Decoder
pub mod Command
pub mod Response
pub mod Decode
pub mod Proxy
mod Tests
