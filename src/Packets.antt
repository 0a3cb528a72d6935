-- ===== src/Packets.antt =====
-- The packets of src/manager/packets.rs.
pub mod Kinds
pub mod Scalars
pub mod Flags
pub mod Streams
pub mod Control
pub mod Handshake
pub mod Replies
pub mod Packet
pub mod ReadBack
pub mod RoundTrip
pub mod Sizes
pub mod New
