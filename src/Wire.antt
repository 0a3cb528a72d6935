-- ===== src/Wire.antt =====
-- The byte format of the packets: src/packet_processor/serialize.rs and ubass_macros/src/lib.rs.
pub mod Codec
pub mod Derive
pub mod Laws
pub mod Refused
pub mod Structs
pub mod Enums
