-- ===== src/Packets/New.antt =====
-- The constructors of the packets of src/manager/packets.rs.
pub mod Carriers
pub mod Signals
pub mod Acked
