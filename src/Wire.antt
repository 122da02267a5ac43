-- ===== src/Wire.antt =====
-- The frame encodings: src/wire_v2.rs and src/wire_v3.rs.
pub mod Bytes
pub mod Crc
pub mod Frame
pub mod Image
pub mod V2
pub mod V3
mod Tests
